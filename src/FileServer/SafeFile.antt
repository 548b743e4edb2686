-- ===== src/FileServer/SafeFile.antt =====
-- The lock of a served file: `struct safe_file` of MidtermProject/sync.h, and `init_sfile`,
-- `reader_enter_region`, `reader_exit_region`, `writer_enter_region`, `writer_exit_region` of
-- MidtermProject/sync.c, one access to the shared record at a time.
--
-- A thread stands at a `Pc`; `step` is its next access, and is `none` while sem_wait blocks. The
-- counters are only touched between the waits and posts of their mutex, so a test of a counter and
-- the semaphore call that it guards are one step. The semaphore calls are taken to succeed: after a
-- checked call that fails the thread stands still, which the interleavings below allow for.
pub mod Counts
pub mod Invariant
pub mod Safety
pub mod Progress
mod Tests
use cse344system_programming.Prelude.{
  ℕ, zero, suc, ◌+◌, ◌-◌, ◌<◌, ◌≡◌, ◌==◌, if◌then◌else◌, Bool, true, false, Option, none, some,
  List, update,
}

-- `struct safe_file`; a semaphore is its value.
pub record SafeFile : Type 0 where
  pub fname : List ℕ
  pub reader_count : ℕ
  pub writer_count : ℕ
  pub read_try : ℕ
  pub rmutex : ℕ
  pub wmutex : ℕ
  pub rsc : ℕ

-- What `init_sfile` leaves when its calls of sem_init succeed.
abbrev pub fresh_sfile : List ℕ → SafeFile
fresh_sfile name = record {
  fname = name;
  reader_count = 0;
  writer_count = 0;
  read_try = 1;
  rmutex = 1;
  wmutex = 1;
  rsc = 1;
}

-- The argument says of each call of sem_init whether it succeeds; `none` is the return value -1.
unfoldable pub init_sfile :
    (read_try_ok rmutex_ok wmutex_ok rsc_ok : Bool) → List ℕ → Option SafeFile
init_sfile false rmutex_ok wmutex_ok rsc_ok name = none
init_sfile true false wmutex_ok rsc_ok name = none
init_sfile true true false rsc_ok name = none
init_sfile true true true false name = none
init_sfile true true true true name = some (fresh_sfile name)

-- Where a thread stands, by what it has just done.
pub data Pc : Type 0 where
  outside : Pc
  -- in `reader_enter_region`
  r_trying r_locked r_counted r_passed r_unlocked : Pc
  reading : Pc
  -- in `reader_exit_region`
  x_locked x_counted x_passed : Pc
  -- in `writer_enter_region`
  w_locked w_counted w_passed w_unlocked : Pc
  writing : Pc
  -- in `writer_exit_region`
  v_released v_locked v_counted v_passed : Pc

-- sem_wait: the value that is left, or `none` while it blocks.
abbrev pub sem_wait : ℕ → Option ℕ
sem_wait value = if value == 0 then none else some (value - 1)

-- A thread's next access. Outside, the flag says whether it enters as a writer.
unfoldable pub step : Bool → SafeFile → Pc → Option (SafeFile × Pc)
step false f outside = elim (sem_wait f.read_try) [
  | none ↦ none
  | some s ↦ some (record f { read_try = s }, r_trying)
]
step true f outside = elim (sem_wait f.wmutex) [
  | none ↦ none
  | some s ↦ some (record f { wmutex = s }, w_locked)
]
step _ f r_trying = elim (sem_wait f.rmutex) [
  | none ↦ none
  | some s ↦ some (record f { rmutex = s }, r_locked)
]
step _ f r_locked = some (record f { reader_count = f.reader_count + 1 }, r_counted)
step _ f r_counted =
    if f.reader_count == 1
    then (elim (sem_wait f.rsc) [ none ↦ none | some s ↦ some (record f { rsc = s }, r_passed) ])
    else some (f, r_passed)
step _ f r_passed = some (record f { rmutex = f.rmutex + 1 }, r_unlocked)
step _ f r_unlocked = some (record f { read_try = f.read_try + 1 }, reading)
step _ f reading = elim (sem_wait f.rmutex) [
  | none ↦ none
  | some s ↦ some (record f { rmutex = s }, x_locked)
]
step _ f x_locked = some (record f { reader_count = f.reader_count - 1 }, x_counted)
step _ f x_counted =
    some (if f.reader_count == 0 then record f { rsc = f.rsc + 1 } else f, x_passed)
step _ f x_passed = some (record f { rmutex = f.rmutex + 1 }, outside)
step _ f w_locked = some (record f { writer_count = f.writer_count + 1 }, w_counted)
step _ f w_counted =
    if f.writer_count == 1
    then (elim (sem_wait f.read_try) [
      | none ↦ none
      | some s ↦ some (record f { read_try = s }, w_passed)
    ])
    else some (f, w_passed)
step _ f w_passed = some (record f { wmutex = f.wmutex + 1 }, w_unlocked)
step _ f w_unlocked = elim (sem_wait f.rsc) [
  | none ↦ none
  | some s ↦ some (record f { rsc = s }, writing)
]
step _ f writing = some (record f { rsc = f.rsc + 1 }, v_released)
step _ f v_released = elim (sem_wait f.wmutex) [
  | none ↦ none
  | some s ↦ some (record f { wmutex = s }, v_locked)
]
step _ f v_locked = some (record f { writer_count = f.writer_count - 1 }, v_counted)
step _ f v_counted =
    some (if f.writer_count == 0 then record f { read_try = f.read_try + 1 } else f, v_passed)
step _ f v_passed = some (record f { wmutex = f.wmutex + 1 }, outside)

-- The shared record, and where each thread stands.
pub record System : Type 0 where
  pub file : SafeFile
  pub pc : ℕ → Pc

-- Any of `n` threads that is not blocked makes its next access.
pub data Step (n : ℕ) (s : System) : System → Type 0 where
  pick :
      (i : ℕ) (as_writer : Bool) {f : SafeFile} {p : Pc}
      → i < n
      → step as_writer s.file (s.pc i) ≡ some (f, p)
      → Step n s (record { file = f; pc = update s.pc i p })

-- The states that `n` threads come to from a fresh record with all of them outside.
pub data Reach (n : ℕ) (name : List ℕ) : System → Type 0 where
  start : Reach n name (record { file = fresh_sfile name; pc = λ _. outside })
  later : {s t : System} → Reach n name s → Step n s t → Reach n name t
