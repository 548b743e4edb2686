-- ===== src/FileServer/SafeFile/Tests.antt =====
-- Runs of the lock of a file.
use native.Mathlib.Omega.{arith}
use mathlib.Core.Path.{◌≡◌, refl}
use mathlib.Core.Bool.{true, false}
use mathlib.Core.Option.{none}
use Prim.Native.Nat.{ℕ, zero, suc, ◌<◌}
use cse344system_programming.Prelude.{codes, update, List, ℕ_discrete}
use cse344system_programming.FileServer.SafeFile.{
  fresh_sfile, Pc, outside, r_trying, r_locked, r_counted, r_passed, r_unlocked, reading, x_locked,
  x_counted, x_passed, w_locked, w_counted, w_passed, w_unlocked, writing, step, System, pick,
  Reach, start, later,
}
use cse344system_programming.FileServer.SafeFile.Counts.{trying}
use cse344system_programming.FileServer.SafeFile.Safety.{mutual_exclusion, writers_first}
use cse344system_programming.FileServer.SafeFile.Progress.{no_deadlock}
use mathlib.Core.Logic.{inl}

abbrev name : List ℕ
name = codes "a"

-- The first of two threads has come in to write.
abbrev written : System
written = record {
  file = record (fresh_sfile name) { writer_count = 1; read_try = 0; rsc = 0 };
  pc =
      update
        (update (update (update (update (λ _. outside) 0 w_locked) 0 w_counted) 0 w_passed) 0
          w_unlocked)
        0 writing;
}

written-Reach : Reach 2 name written
unfolding step ℕ_discrete
written-Reach =
    later
      (later
        (later
          (later (later start (pick 0 true (omega arith) refl)) (pick 0 true (omega arith) refl))
          (pick 0 true (omega arith) refl))
        (pick 0 true (omega arith) refl))
      (pick 0 true (omega arith) refl)

-- The only thread has come in to read and gone out.
abbrev came_in : ℕ → Pc
came_in =
    update
      (update
        (update (update (update (update (λ _. outside) 0 r_trying) 0 r_locked) 0 r_counted) 0
          r_passed)
        0 r_unlocked)
      0 reading

abbrev read : System
read = record {
  file = fresh_sfile name;
  pc = update (update (update (update came_in 0 x_locked) 0 x_counted) 0 x_passed) 0 outside;
}

read-Reach : Reach 1 name read
unfolding step ℕ_discrete
read-Reach =
    later
      (later
        (later
          (later
            (later
              (later
                (later
                  (later
                    (later (later start (pick 0 false (omega arith) refl))
                      (pick 0 false (omega arith) refl))
                    (pick 0 false (omega arith) refl))
                  (pick 0 false (omega arith) refl))
                (pick 0 false (omega arith) refl))
              (pick 0 false (omega arith) refl))
            (pick 0 false (omega arith) refl))
          (pick 0 false (omega arith) refl))
        (pick 0 false (omega arith) refl))
      (pick 0 false (omega arith) refl)

read-outside : (i : ℕ) → read.pc i ≡ outside
unfolding ℕ_discrete
read-outside zero = refl
read-outside (suc i) = ground arith

mutual_exclusion_example : ◌≡◌ {A = ℕ} 0 0
unfolding ℕ_discrete
mutual_exclusion_example = mutual_exclusion written-Reach 0 0 (omega arith) (omega arith) refl refl

writers_first_example :
    (step false written.file outside ≡ none) × ((j : ℕ) → j < 2 → trying (written.pc j) ≡ 0)
unfolding ℕ_discrete
writers_first_example = writers_first written-Reach 0 (omega arith) refl

no_deadlock_example : read.pc 0 ≡ outside
no_deadlock_example = no_deadlock read-Reach (λ j h. inl (read-outside j)) 0 (omega arith)
