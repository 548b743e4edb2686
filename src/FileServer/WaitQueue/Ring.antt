-- ===== src/FileServer/WaitQueue/Ring.antt =====
-- A queue that has room behaves as a list of clients, oldest first.

use cse344system_programming.Prelude.{
  next_index, advance, advance_lem, advance-add-one, advance_of_ne_zero, span, span-set_end,
  span-set_front, ◌+◌, ◌-◌, ◌≤◌, ◌<◌, ◌≡◌, ◌≢◌, refl, ap, ◌∙◌, sym, subst, Bool, true, Option, none,
  some, List, [], ◌∷◌, ◌++◌, set, length, length-set, arith, ℕ_discrete,
}
use cse344system_programming.FileServer.WaitQueue.{
  ClientInfo, Slot, garbage, item, null, Queue, cell, place, enqueue, dequeue,
}

pub record IsValid (q : Queue) : Type 0 where
  pub room : q.size ≤ q.capacity
  pub front_in : q.front < q.capacity
  pub rear_at : q.rear ≡ advance q.capacity q.front q.size
  pub allocated : length q.elements ≡ q.capacity

-- The clients of a queue, oldest first.
abbrev pub contents : Queue → List Slot
contents q = span garbage q.capacity q.elements q.front q.size

pub enqueue_of_lt :
    (grow alloc : Bool) (q : Queue) (c : ClientInfo)
    → q.size < q.capacity
    → enqueue grow alloc q c ≡ place alloc q c
unfolding enqueue
enqueue_of_lt grow alloc q c h = ground arith

-- What `dequeue` may return for the queue `q`: NULL from an empty queue, which stays as it is, or the
-- oldest client, with the others left in order.
abbrev pub Took : Queue → Option Slot × Queue → Type 0
Took q (none, q') = (contents q ≡ []) × (q' ≡ q)
Took q (some x, q') = IsValid q' × (q'.capacity ≡ q.capacity) × (contents q ≡ x ∷ contents q')

module _ (q : Queue) (v : IsValid q) where
  pub rear_in : q.rear < q.capacity
  rear_in = ground (arith, advance_lem q.capacity q.front q.size)

  place-IsValid : (c : ClientInfo) → q.size < q.capacity → IsValid (place true q c).1
  unfolding place
  place-IsValid c h = record {
    room = ground arith;
    front_in = v.front_in;
    rear_at = rw advance-add-one (ap (next_index q.capacity) v.rear_at);
    allocated = length-set q.elements q.rear (item c) ∙ v.allocated;
  }

  contents-place :
      (c : ClientInfo)
      → q.size < q.capacity
      → contents (place true q c).1 ≡ contents q ++ item c ∷ []
  unfolding place
  contents-place c h =
      ap (λ k. span garbage q.capacity (set q.elements k (item c)) q.front (q.size + 1)) v.rear_at
      ∙ span-set_end garbage q.capacity q.elements (item c) q.front q.size v.front_in h v.allocated

  -- Where malloc succeeds, `enqueue` on a valid queue that is not full succeeds, keeps the queue valid and its
  -- capacity, and adds the client behind all those that wait.
  pub enqueue-with_room :
      (grow : Bool) (c : ClientInfo)
      → q.size < q.capacity
      → let (ok, q') = enqueue grow true q c in
        (ok ≡ true)
        × IsValid q'
        × (q'.capacity ≡ q.capacity)
        × (contents q' ≡ contents q ++ item c ∷ [])
  unfolding place
  enqueue-with_room grow c h =
      rw (enqueue_of_lt grow true q c h) (refl, place-IsValid c h, refl, contents-place c h)

  taken : Queue
  taken = record q {
    elements = set q.elements q.front null;
    front = next_index q.capacity q.front;
    size = q.size - 1;
  }

  taken-IsValid : q.size ≢ 0 → IsValid taken
  unfolding taken
  taken-IsValid h = record {
    room = omega (arith, v.room);
    front_in = ground (arith, v.front_in);
    rear_at = v.rear_at ∙ advance_of_ne_zero q.capacity q.front q.size h;
    allocated = length-set q.elements q.front null ∙ v.allocated;
  }

  contents-taken : q.size ≢ 0 → contents q ≡ cell q.elements q.front ∷ contents taken
  unfolding taken
  contents-taken h =
      span-set_front garbage q.capacity q.elements null q.front q.size v.front_in v.room h

  dequeue_of_ne_zero : q.size ≢ 0 → dequeue q ≡ (some (cell q.elements q.front), taken)
  unfolding dequeue taken
  dequeue_of_ne_zero h = ground arith

  dequeue_of_zero : q.size ≡ 0 → dequeue q ≡ (none, q)
  unfolding dequeue
  dequeue_of_zero h = ground arith

  -- `dequeue` on a valid queue returns NULL and changes nothing if no client waits; otherwise it takes
  -- the oldest client, leaves the others in order, and keeps the queue valid and its capacity.
  pub dequeue-Took : Took q (dequeue q)
  unfolding taken
  dequeue-Took = elim (ℕ_discrete q.size 0) [
    | yes e ↦
        subst (Took q) (sym (dequeue_of_zero e))
          (ap (span garbage q.capacity q.elements q.front) e, refl)
    | no e ↦ subst (Took q) (sym (dequeue_of_ne_zero e)) (taken-IsValid e, refl, contents-taken e)
  ]
