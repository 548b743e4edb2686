-- ===== src/FileServer/WaitQueue/Tests.antt =====
-- Runs of the queue of waiting clients.
use native.Mathlib.Omega.{arith}
use mathlib.Core.Path.{◌≡◌, refl}
use mathlib.Core.Bool.{true, false}
use mathlib.Core.Option.{some}
use mathlib.Core.List.{[], ◌∷◌, ◌++◌}
use Prim.Native.Nat.{ℕ}
use cse344system_programming.Prelude.{codes}
use cse344system_programming.FileServer.WaitQueue.{
  ClientInfo, garbage, null, item, Queue, enqueue, dequeue, destroy_queue, freed_cells,
}
use cse344system_programming.FileServer.WaitQueue.Ring.{
  IsValid, contents, enqueue-with_room, Took, dequeue-Took,
}
use cse344system_programming.FileServer.WaitQueue.Growth.{drain, enqueue-full_loses}

abbrev client : ℕ → ClientInfo
client n = record { pid = n; wait = true; cwd = codes "/" }

-- Two clients wait, the cells in use going round the end.
abbrev wrapped : Queue
wrapped = record {
  front = 2;
  rear = 1;
  capacity = 3;
  size = 2;
  elements = item (client 8) ∷ null ∷ item (client 7) ∷ [];
}

wrapped-IsValid : IsValid wrapped
wrapped-IsValid = record {
  room = omega arith;
  front_in = omega arith;
  rear_at = refl;
  allocated = refl;
}

abbrev full : Queue
full = record {
  front = 1;
  rear = 1;
  capacity = 2;
  size = 2;
  elements = item (client 8) ∷ item (client 7) ∷ [];
}

full-IsValid : IsValid full
full-IsValid = record {
  room = omega arith;
  front_in = omega arith;
  rear_at = refl;
  allocated = refl;
}

contents-wrapped : contents wrapped ≡ item (client 7) ∷ item (client 8) ∷ []
contents-wrapped = refl

-- The first cell that is freed is the one behind the oldest client.
destroy-two : (destroy_queue (record wrapped { front = 0; rear = 2 })).0 ≡ 1 ∷ 2 ∷ []
unfolding destroy_queue freed_cells
destroy-two = refl

enqueue-with_room_example :
    let (ok, q') = enqueue false true wrapped (client 9) in
    (ok ≡ true)
    × IsValid q'
    × (q'.capacity ≡ 3)
    × (contents q' ≡ contents wrapped ++ item (client 9) ∷ [])
enqueue-with_room_example = enqueue-with_room wrapped wrapped-IsValid false (client 9) (omega arith)

dequeue-Took_example : Took wrapped (dequeue wrapped)
dequeue-Took_example = dequeue-Took wrapped wrapped-IsValid

enqueue-full_loses_example :
    let (ok, q1) = enqueue true true full (client 9) in
    (ok ≡ true)
    × (q1.size ≡ 3)
    × (drain 3 q1 ≡ some (item (client 9)) ∷ some garbage ∷ some garbage ∷ [])
enqueue-full_loses_example = enqueue-full_loses full (client 9) full-IsValid refl
