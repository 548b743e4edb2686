-- ===== src/FileServer/WaitQueue/Growth.antt =====
-- What `resize_queue` does to a full queue, and the first client of an empty one.
use cse344system_programming.Prelude.{
  next_index, advance, advance_lem, get_or-set_self, get_or-set_ne, ℕ, zero, suc, ◌+◌, ◌-◌, ◌*◌,
  ◌≤◌, ◌<◌, Option, set, ◌≡◌, refl, ◌∙◌, sym, ap, ◌==◌, true, some, List, [], ◌∷◌, replicate,
  length-replicate, arith, Bool-cases, inl, inr,
}
use cse344system_programming.FileServer.WaitQueue.{
  ClientInfo, Slot, garbage, null, item, Queue, new_queue, cell, copy_live, grown_capacity,
  resize_queue, place, enqueue, dequeue,
}
use cse344system_programming.FileServer.WaitQueue.Ring.{IsValid, contents}

copy_live_stops :
    (fuel : ℕ) (q : Queue) (front i : ℕ) (cells : List Slot)
    → front ≡ q.rear
    → copy_live fuel q front i cells ≡ (cells, front, i)
unfolding copy_live
copy_live_stops zero q front i cells e = refl
copy_live_stops (suc fuel) q front i cells e = ground arith

-- The loop of `resize_queue` ends by its own test: fuel as long as the way from `front` to `rear`
-- brings it to `rear`.
copy_live_ends :
    (fuel n : ℕ) (q : Queue) (front i : ℕ) (cells : List Slot)
    → advance q.capacity front n ≡ q.rear
    → n ≤ fuel
    → (copy_live fuel q front i cells).1 ≡ q.rear
unfolding copy_live
copy_live_ends zero zero q front i cells e h = e
copy_live_ends zero (suc n) q front i cells e h = absurd (omega arith)
copy_live_ends (suc fuel) zero q front i cells e h = ground arith
copy_live_ends (suc fuel) (suc n) q front i cells e h = elim (Bool-cases (front == q.rear)) [
  | inl here ↦ rw here (ground arith)
  | inr on ↦ rw on (copy_live_ends fuel n q (next_index q.capacity front) (i + 1) _ e (omega arith))
]

cell-replicate : (n k : ℕ) → cell (replicate n garbage) k ≡ garbage
cell-replicate zero k = refl
cell-replicate (suc n) zero = refl
cell-replicate (suc n) (suc k) = cell-replicate n k

module _ (q : Queue) (v : IsValid q) (full : q.size ≡ q.capacity) where
  -- Round a full ring, the end is the beginning.
  rear_is_front : q.rear ≡ q.front
  rear_is_front = ground (arith, v.rear_at, v.front_in, advance_lem q.capacity q.front q.size)

  grown : Queue
  grown = record {
    front = 0;
    rear = 0;
    capacity = grown_capacity q.capacity;
    size = q.size;
    elements = replicate (grown_capacity q.capacity) garbage;
  }

  resize_of_full : resize_queue true q ≡ (true, grown)
  unfolding resize_queue grown
  resize_of_full = rw (
      copy_live_stops q.capacity q q.front 0 (replicate (grown_capacity q.capacity) garbage)
        (sym rear_is_front))

  enqueue_of_full : (c : ClientInfo) → enqueue true true q c ≡ place true grown c
  unfolding enqueue
  enqueue_of_full c = ground (arith, resize_of_full)

  pub enqueue-full_cells :
      (c : ClientInfo)
      → let (ok, q') = enqueue true true q c in
        (ok ≡ true)
        × (q'.size ≡ q.size + 1)
        × (q'.front ≡ 0)
        × (q'.capacity ≡ 2 * q.capacity)
        × (cell q'.elements 0 ≡ item c)
        × ((k : ℕ) → cell q'.elements (suc k) ≡ garbage)
  unfolding place grown
  enqueue-full_cells c = rw (enqueue_of_full c) (
    refl,
    refl,
    refl,
    ground (arith, v.front_in),
    get_or-set_self garbage (replicate (grown_capacity q.capacity) garbage) 0 (item c)
        (ground (arith, v.front_in, length-replicate (grown_capacity q.capacity) garbage)),
    λ k.
        get_or-set_ne garbage (replicate (grown_capacity q.capacity) garbage) 0 (suc k) (item c)
          (omega arith)
        ∙ cell-replicate (grown_capacity q.capacity) (suc k),
  )

-- What so many calls of `dequeue` return, one after another.
unfoldable pub drain : ℕ → Queue → List (Option Slot)
drain zero q = []
drain (suc n) q = let (first, q') = dequeue q in first ∷ drain n q'

dequeue_of_some :
    (q : Queue)
    → 0 < q.size
    → dequeue q ≡ (
      some (cell q.elements q.front),
      record q {
        elements = set q.elements q.front null;
        front = next_index q.capacity q.front;
        size = q.size - 1;
      },
    )
unfolding dequeue
dequeue_of_some q h = ground arith

-- Cells that malloc left as they were are handed out as they are, up to the end of the array.
drain_of_garbage :
    (n : ℕ) (q : Queue)
    → n ≤ q.size
    → q.front + n ≤ q.capacity
    → ((k : ℕ) → q.front ≤ k → cell q.elements k ≡ garbage)
    → drain n q ≡ replicate n (some garbage)
unfolding drain
drain_of_garbage zero q le room left = refl
drain_of_garbage (suc zero) q le room left =
    rw (dequeue_of_some q (omega arith), left q.front (omega arith)) refl
drain_of_garbage (suc (suc n)) q le room left =
    let on : next_index q.capacity q.front ≡ q.front + 1 = ground arith in
    let q' : Queue = record q {
      elements = set q.elements q.front null;
      front = q.front + 1;
      size = q.size - 1;
    } in
    rw (dequeue_of_some q (omega arith), on, left q.front (omega arith))
      (ap (λ l. some garbage ∷ l)
        (drain_of_garbage (suc n) q' (omega arith) (omega arith) (λ k h.
          get_or-set_ne garbage q.elements q.front k null (omega arith) ∙ left k (omega arith))))

drain_cell :
    (elements : List Slot) (k : ℕ)
    → 1 ≤ k
    → ((k : ℕ) → cell elements (suc k) ≡ garbage)
    → cell (set elements 0 null) k ≡ garbage
drain_cell elements zero h later = absurd (omega arith)
drain_cell elements (suc k) h later =
    get_or-set_ne garbage elements 0 (suc k) null (omega arith) ∙ later k

drain_of_new :
    (n : ℕ) (q : Queue) (c : ClientInfo)
    → q.size ≡ n + 1
    → q.front ≡ 0
    → n + 1 < q.capacity + 1
    → cell q.elements 0 ≡ item c
    → ((k : ℕ) → cell q.elements (suc k) ≡ garbage)
    → drain (suc n) q ≡ some (item c) ∷ replicate n (some garbage)
unfolding drain
drain_of_new zero q c counted front room first later =
    rw (dequeue_of_some q (omega arith), front, first) refl
drain_of_new (suc n) q c counted front room first later =
    let on : next_index q.capacity 0 ≡ 1 = ground arith in
    let q' : Queue = record q { elements = set q.elements 0 null; front = 1; size = q.size - 1 } in
    rw (dequeue_of_some q (omega arith), front, on, first)
      (ap (λ l. some (item c) ∷ l)
        (drain_of_garbage (suc n) q' (omega arith) (omega arith)
          (λ k h. drain_cell q.elements k h later)))

-- When a valid queue is full and malloc succeeds, `enqueue` reports success and counts one client more, but
-- of all the clients that it counts then, `dequeue` hands out the new one only, and first; each later call
-- hands out an uninitialised cell in the place of a client.
pub enqueue-full_loses :
    (q : Queue) (c : ClientInfo)
    → IsValid q
    → q.size ≡ q.capacity
    → let (ok, q1) = enqueue true true q c in
      (ok ≡ true)
      × (q1.size ≡ q.size + 1)
      × (drain (suc q.size) q1 ≡ some (item c) ∷ replicate q.size (some garbage))
enqueue-full_loses q c v full =
    let (ok, counted, front, capacity, first, later) = enqueue-full_cells q v full c in
    (
      ok,
      counted,
      drain_of_new q.size (enqueue true true q c).1 c counted front
          (omega (arith, capacity, v.front_in, full)) first later,
    )

-- The first client of the server's empty queue is stored, alone, in a valid queue of capacity 1.
enqueue-new_queue :
    (c : ClientInfo)
    → let (ok, q) = enqueue true true new_queue c in
      (ok ≡ true) × IsValid q × (q.capacity ≡ 1) × (contents q ≡ item c ∷ [])
unfolding enqueue resize_queue copy_live place
enqueue-new_queue c = (
  refl,
  record { room = omega arith; front_in = omega arith; rear_at = refl; allocated = refl },
  refl,
  refl,
)
