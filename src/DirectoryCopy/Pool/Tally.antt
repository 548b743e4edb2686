-- ===== src/DirectoryCopy/Pool/Tally.antt =====
-- How many workers stand where, and where the manager stands.
use cse344system_programming.Prelude.{ℕ, total}
use cse344system_programming.DirectoryCopy.Pool.{
  WorkerPc, asleep, at_barrier, left, ManagerPc, sleeping,
}

abbrev pub sleeps : WorkerPc → ℕ
sleeps asleep = 1
sleeps _ = 0

abbrev pub is_up : WorkerPc → ℕ
is_up asleep = 0
is_up _ = 1

-- behind the loop
abbrev pub has_gone : WorkerPc → ℕ
has_gone at_barrier = 1
has_gone left = 1
has_gone _ = 0

abbrev pub is_in : WorkerPc → ℕ
is_in at_barrier = 0
is_in left = 0
is_in _ = 1

abbrev pub waits_at_barrier : WorkerPc → ℕ
waits_at_barrier at_barrier = 1
waits_at_barrier _ = 0

abbrev pub has_left : WorkerPc → ℕ
has_left left = 1
has_left _ = 0

-- The same of the manager.
abbrev pub manager_gone : ManagerPc → ℕ
manager_gone at_barrier = 1
manager_gone left = 1
manager_gone _ = 0

abbrev pub manager_waits : ManagerPc → ℕ
manager_waits at_barrier = 1
manager_waits _ = 0

abbrev pub manager_left : ManagerPc → ℕ
manager_left left = 1
manager_left _ = 0

abbrev pub manager_sleeps : ManagerPc → ℕ
manager_sleeps (sleeping fs) = 1
manager_sleeps _ = 0

pub record Tally : Type 0 where
  pub asleep : ℕ
  pub up : ℕ
  pub gone : ℕ
  pub waiting : ℕ
  pub left : ℕ

abbrev pub tally : (ℕ → WorkerPc) → ℕ → Tally
tally ws n = record {
  asleep = total sleeps ws n;
  up = total is_up ws n;
  gone = total has_gone ws n;
  waiting = total waits_at_barrier ws n;
  left = total has_left ws n;
}
