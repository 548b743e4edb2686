-- ===== src/DirectoryCopy/Pool/Tests.antt =====
-- A run of Homework5 with one worker and one file.
use native.Mathlib.Omega.{arith}
use mathlib.Core.Path.{◌≡◌, refl}
use mathlib.Core.Bool.{true}
use mathlib.Core.Option.{Option}
use mathlib.Core.List.{[], ◌∷◌}
use Prim.Native.Nat.{ℕ, zero, suc, ◌<◌}
use cse344system_programming.Prelude.{
  ◌≤◌, ◌+◌, ◌*◌, sum_map, length, str_eq, strcmp, codes, update, ℕ_discrete,
}
use cse344system_programming.DirectoryCopy.Buffer.{
  FileInformation, Buffer, buffer_add, buffer_get, unwritten,
}
use cse344system_programming.DirectoryCopy.Buffer.Fifo.{IsValid, kept}
use cse344system_programming.DirectoryCopy.Pool.{
  WorkerPc, at_lock, copying, copied, ManagerPc, manager_step, worker_step, wake, nobody, unheard,
  all, System, Run, manager_moves, worker_moves, Reach, start, later,
}
use cse344system_programming.DirectoryCopy.Pool.Tally.{has_gone}
use cse344system_programming.DirectoryCopy.Pool.Finish.{Complete, all_copied, barrier_holds}
use cse344system_programming.DirectoryCopy.Pool.Progress.{pool_no_deadlock}
use cse344system_programming.DirectoryCopy.Pool.Termination.{steps, wakings, steps_bounded}
use cse344system_programming.DirectoryCopy.Pool.Whole.{IsMirror, directory_copied}
use cse344system_programming.DirectoryCopy.Traversal.{
  Entries, end, entry, regular, Traversal, traverse_directory, traverse_entries, is_dots, path_in,
  opened_files,
}
use cse344system_programming.DirectoryCopy.Traversal.Mirror.{reach_of}

abbrev file : FileInformation
file = record { src_fd = 3; dst_fd = 4; src_name = codes "s/x"; dst_name = codes "t/x" }

abbrev run : Run
run = record { with_barrier = true; num_workers = 1; content = λ _. codes "hi"; files = file ∷ [] }

abbrev buffer : Buffer
buffer = record { cells = unwritten ∷ []; size = 1; count = 0; head = 0; tail = 0 }

buffer-IsValid : IsValid buffer
buffer-IsValid = record {
  room = omega arith;
  head_in = omega arith;
  tail_at = refl;
  allocated = refl;
}

-- The worker has come to the barrier behind the manager.
abbrev all_arrived : System
all_arrived = record {
  pool = record {
    buffer = record { cells = file ∷ []; size = 1; count = 0; head = 0; tail = 0 };
    done = true;
    num_files_copied = 1;
    total_bytes_copied = 2;
    copies = record { file = file; bytes = codes "hi" } ∷ [];
    arrived = 2;
  };
  manager = ManagerPc.at_barrier;
  workers =
      update
        (update
          (update
            (update (update (λ i. wake at_lock) 0 (copying file [] (codes "hi"))) 0
              (copying file (codes "hi") []))
            0 (copied file (codes "hi")))
          0 at_lock)
        0 WorkerPc.at_barrier;
}

all_arrived-Reach : Reach run buffer all_arrived
unfolding manager_step worker_step buffer_add buffer_get ℕ_discrete
all_arrived-Reach =
    later
      (later
        (later
          (later
            (later
              (later (later start (manager_moves refl (unheard (λ j h e. cc))))
                (manager_moves refl all))
              (worker_moves 0 (omega arith) refl))
            (worker_moves 0 (omega arith) refl))
          (worker_moves 0 (omega arith) refl))
        (worker_moves 0 (omega arith) refl))
      (worker_moves 0 (omega arith) refl)

gone : (i : ℕ) → i < 1 → has_gone (all_arrived.workers i) ≡ 1
unfolding ℕ_discrete
gone zero h = refl
gone (suc i) h = absurd (omega arith)

-- Both have passed.
abbrev all_left : System
all_left = record {
  pool = all_arrived.pool;
  manager = ManagerPc.left;
  workers = update all_arrived.workers 0 WorkerPc.left;
}

all_left-Reach : Reach run buffer all_left
unfolding manager_step worker_step ℕ_discrete
all_left-Reach =
    later (later all_arrived-Reach (worker_moves 0 (omega arith) refl)) (manager_moves refl nobody)

stuck :
    (j : ℕ)
    → j < 1
    → worker_step true 2 run.content all_left.pool (all_left.workers j) ≡ Option.none
unfolding worker_step ℕ_discrete
stuck zero h = refl
stuck (suc i) h = absurd (omega arith)

all_copied_example : Complete run all_arrived.pool
all_copied_example = all_copied run buffer buffer-IsValid (omega arith) refl all_arrived-Reach gone

barrier_holds_example : has_gone (all_left.workers 0) ≡ 1
unfolding ℕ_discrete
barrier_holds_example =
    barrier_holds run buffer buffer-IsValid (omega arith) refl all_left-Reach 0 0 refl (omega arith)
      (omega arith) refl

pool_no_deadlock_example :
    (all_left.manager ≡ ManagerPc.left) × ((j : ℕ) → j < 1 → all_left.workers j ≡ WorkerPc.left)
unfolding manager_step
pool_no_deadlock_example =
    pool_no_deadlock run buffer buffer-IsValid (omega arith) refl all_left-Reach refl stuck

steps_bounded_example :
    steps all_left-Reach
    ≤ sum_map (λ f. length (run.content (kept f))) (file ∷ [])
      + 6 * 1
      + 3 * 1
      + 3
      + 2 * wakings all_left-Reach
steps_bounded_example = steps_bounded run buffer buffer-IsValid (omega arith) refl all_left-Reach

abbrev found : Traversal
found = record { files = file ∷ []; num_directories = 0; num_fifo_files = 0 }

abbrev source : Entries
source = entry (codes "x") (regular (Option.some 3) (Option.some 4)) end

finds-source : traverse_directory true true (codes "s") (codes "t") source ≡ Option.some found
unfolding traverse_directory traverse_entries is_dots path_in opened_files str_eq strcmp
finds-source = refl

directory_copied_example : IsMirror (codes "s") (codes "t") run.content found all_arrived.pool
unfolding reach_of
directory_copied_example =
    directory_copied run buffer (codes "s") (codes "t") true true source found buffer-IsValid
      (omega arith) refl (omega arith) (omega arith) finds-source refl all_arrived-Reach gone
