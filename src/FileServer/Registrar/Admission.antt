-- ===== src/FileServer/Registrar/Admission.antt =====
-- Who is served at once, who waits, and which children are recorded.
use cse344system_programming.Prelude.{
  length-span, ℕ, zero, suc, ◌+◌, ◌<◌, ◌≡◌, ◌≢◌, ◌↔◌, refl, ap, ◌∙◌, sym, Bool, true, false, Option,
  none, some, List, [], ◌∷◌, ◌++◌, length, take, arith, ◌⊎◌, ltb,
}
use cse344system_programming.FileServer.WaitQueue.{
  garbage, ClientInfo, Slot, item, Queue, enqueue, dequeue,
}
use cse344system_programming.FileServer.WaitQueue.Ring
use cse344system_programming.FileServer.ProcessArray.{ProcessArray, add_pid_list, remove_pid_list}
use cse344system_programming.FileServer.ProcessArray.Live.{
  IsValid, live, erase_pid, Added, add_pid_list-Added, remove_pid_list-Erased,
}
use cse344system_programming.FileServer.Registrar.{
  Server, create_child, client_turn, connect, reap, serve_next, on_sigchild, terminated, on_sigint,
}

add_full :
    (p : ProcessArray) (pid : ℕ) → IsValid p → p.size ≡ p.capacity → (add_pid_list p pid).1 ≡ p
add_full p pid v full = unchanged (add_pid_list p pid) (add_pid_list-Added p pid v)
  where
    unchanged : (r : Bool × ProcessArray) → Added p pid r → r.1 ≡ p
    unchanged (true, p') a = absurd (omega (arith, a.0))
    unchanged (false, p') a = a.1

-- A client is told to go ahead just when a child may be added and nobody waits, if the server may have
-- children at all.
client_turn-eq-zero_iff :
    (s : Server)
    → 0 < s.children.capacity
    → (client_turn s ≡ 0) ↔ ((s.children.size < s.children.capacity) × (s.waiting.size ≡ 0))
unfolding client_turn
client_turn-eq-zero_iff s h = ((λ e. ground arith), (λ e. ground arith))

created :
    (p : ProcessArray) (pid : ℕ) (r : Bool × ProcessArray)
    → p.size < p.capacity
    → Added p pid r
    → IsValid r.1 × (live r.1 ≡ live p ++ pid ∷ [])
created p pid (true, p') h (lt, v, c, e) = (v, e)
created p pid (false, p') h (full, e) = absurd (omega arith)

connect_now :
    (s : Server) (pid : ℕ) (grow alloc : Bool) (client : ClientInfo)
    → client_turn s ≡ 0
    → connect pid grow alloc client s ≡ create_child pid (item client) s
unfolding connect
connect_now s pid grow alloc client e = ground arith

-- A client that finds a free child place and nobody waiting is handed to a new child, which is
-- recorded behind the others; it gets the next number, and the queue stays as it is.
connect_served :
    (s : Server) (pid : ℕ) (grow alloc : Bool) (client : ClientInfo)
    → IsValid s.children
    → s.children.size < s.children.capacity
    → s.waiting.size ≡ 0
    → let s' = connect pid grow alloc client s in
      IsValid s'.children
      × (live s'.children ≡ live s.children ++ pid ∷ [])
      × (s'.served ≡ (s.client_id, item client) ∷ s.served)
      × (s'.client_id ≡ s.client_id + 1)
      × (s'.waiting ≡ s.waiting)
unfolding create_child
connect_served s pid grow alloc client v room idle =
    let (valid, alive) =
      created s.children pid (add_pid_list s.children pid) room
        (add_pid_list-Added s.children pid v) in
    rw
      (connect_now s pid grow alloc client
        ((client_turn-eq-zero_iff s (omega arith)).1 (room, idle)))
      (valid, alive, refl, refl, refl)

connect_later :
    (s : Server) (pid : ℕ) (grow alloc : Bool) (client : ClientInfo)
    → client_turn s ≢ 0
    → client.wait ≡ true
    → connect pid grow alloc client s
      ≡ record s { waiting = (enqueue grow alloc s.waiting client).1 }
unfolding connect
connect_later s pid grow alloc client e w = ground arith

-- A client that finds all children busy, or others waiting, is not served. If it connects with the wait
-- option and the queue has room, it waits behind the others.
connect_waits :
    (s : Server) (pid : ℕ) (grow : Bool) (client : ClientInfo)
    → 0 < s.children.capacity
    → (s.children.size ≡ s.children.capacity) ⊎ (0 < s.waiting.size)
    → Ring.IsValid s.waiting
    → s.waiting.size < s.waiting.capacity
    → client.wait ≡ true
    → let s' = connect pid grow true client s in
      (s'.served ≡ s.served)
      × (s'.children ≡ s.children)
      × (Ring.contents s'.waiting ≡ Ring.contents s.waiting ++ item client ∷ [])
connect_waits s pid grow client pos busy v room w =
    let turn : client_turn s ≢ 0 = λ e. ground (arith, (client_turn-eq-zero_iff s pos).0 e, busy) in
    rw (connect_later s pid grow true client turn w)
      (refl, refl, (Ring.enqueue-with_room s.waiting v grow client room).3)

-- The pids that remain when the ended children are taken out in turn.
pub erase_all : List ℕ → List ℕ → List ℕ
erase_all [] pids = pids
erase_all (pid ∷ ended) pids = erase_all ended (erase_pid pid pids)

-- The loop over waitpid takes each ended child out of the list, and changes nothing else.
reap_lem :
    (ended : List ℕ) (s : Server)
    → IsValid s.children
    → let s' = reap ended s in
      IsValid s'.children
      × (live s'.children ≡ erase_all ended (live s.children))
      × (s'.children.capacity ≡ s.children.capacity)
      × (s'.waiting ≡ s.waiting)
      × (s'.client_id ≡ s.client_id)
      × (s'.served ≡ s.served)
unfolding reap erase_all
reap_lem [] s v = (v, refl, refl, refl, refl, refl)
reap_lem (pid ∷ ended) s v =
    let (ok, valid, cap, alive) = remove_pid_list-Erased s.children pid v in
    let (a, b, c, d, e, f) =
      reap_lem ended (record s { children = (remove_pid_list s.children pid).1 }) valid in
    (a, b ∙ ap (erase_all ended) alive, c ∙ cap, d, e, f)

-- What a dequeued client comes to.
abbrev pub ServesOldest : Server → ℕ → Server → Type 0
ServesOldest s pid s' =
    (x : Slot) × (Ring.contents s.waiting ≡ x ∷ Ring.contents s'.waiting)
    × (s'.served ≡ (s.client_id, x) ∷ s.served)
    × (s'.children ≡ (add_pid_list s.children pid).1)

serve_next-oldest :
    (s : Server) (pid : ℕ) (r : Option Slot × Queue)
    → 0 < s.waiting.size
    → Ring.Took s.waiting r
    → ServesOldest s pid (serve_next pid r s)
unfolding serve_next create_child
serve_next-oldest s pid (none, q) h (e, same) = absurd (
    omega (
      arith,
      ap length e,
      length-span garbage s.waiting.capacity s.waiting.elements s.waiting.front s.waiting.size,
    ))
serve_next-oldest s pid (some x, q) h (v, c, e) = (x, e, refl, refl)

-- On SIGCHILD with clients waiting in a valid queue, the one that has waited longest is handed to a new child,
-- and the others keep their order. A full queue that a client is added to is not valid any more.
pub on_sigchild-oldest :
    (s : Server) (ended : List ℕ) (pid : ℕ)
    → IsValid s.children
    → Ring.IsValid s.waiting
    → 0 < s.waiting.size
    → ServesOldest (reap ended s) pid (on_sigchild ended pid s)
unfolding on_sigchild
on_sigchild-oldest s ended pid v q h =
    let same : (reap ended s).waiting ≡ s.waiting = (reap_lem ended s v).3 in
    let some_wait : ltb 0 (reap ended s).waiting.size ≡ true = rw same (ground arith) in
    rw some_wait (
      serve_next-oldest (reap ended s) pid (dequeue (reap ended s).waiting) (rw same h)
        (Ring.dequeue-Took (reap ended s).waiting (rw same q)))

-- If a place is free once the ended children are out, the new child is recorded behind the others.
on_sigchild-recorded :
    (s : Server) (ended : List ℕ) (pid : ℕ)
    → IsValid s.children
    → Ring.IsValid s.waiting
    → 0 < s.waiting.size
    → (reap ended s).children.size < (reap ended s).children.capacity
    → live (on_sigchild ended pid s).children ≡ erase_all ended (live s.children) ++ pid ∷ []
on_sigchild-recorded s ended pid v q h room =
    let (x, e, served, children) = on_sigchild-oldest s ended pid v q h in
    let after : ProcessArray = (reap ended s).children in
    ap live children
    ∙ (created after pid (add_pid_list after pid) room
        (add_pid_list-Added after pid (reap_lem ended s v).0)).1
    ∙ ap (λ l. l ++ pid ∷ []) (reap_lem ended s v).1

terminated-take : (n i : ℕ) (pids : List ℕ) → terminated n i pids ≡ take n pids
unfolding terminated
terminated-take zero i pids = refl
terminated-take (suc n) i [] = refl
terminated-take (suc n) i (p ∷ pids) = ap (λ l. p ∷ l) (terminated-take n (i + 1) pids)

-- SIGINT makes the server terminate the recorded children, in order, and no others.
on_sigint-live : (s : Server) → on_sigint s ≡ live s.children
unfolding on_sigint
on_sigint-live s = terminated-take s.children.size 0 s.children.pids

-- A SIGCHILD that finds no ended child, as when a child stops, while all places are taken and a client
-- waits: a child is started beyond the limit, and a later SIGINT does not reach it.
on_sigchild-unrecorded :
    (s : Server) (pid : ℕ)
    → IsValid s.children
    → s.children.size ≡ s.children.capacity
    → Ring.IsValid s.waiting
    → 0 < s.waiting.size
    → let s' = on_sigchild [] pid s in
      (length s'.served ≡ length s.served + 1) × (on_sigint s' ≡ on_sigint s)
unfolding reap
on_sigchild-unrecorded s pid v full q h =
    let (x, e, served, children) = on_sigchild-oldest s [] pid v q h in
    (
      rw served (omega arith),
      on_sigint-live (on_sigchild [] pid s)
          ∙ ap live (children ∙ add_full s.children pid v full)
          ∙ sym (on_sigint-live s),
    )
