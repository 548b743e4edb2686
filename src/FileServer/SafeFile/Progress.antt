-- ===== src/FileServer/SafeFile/Progress.antt =====
-- The lock of a file does not deadlock.
use cse344system_programming.Prelude.{
  ℕ, ◌<◌, ◌≡◌, ◌⊎◌, false, none, List, weight-le-total, total_of_zeros, arith,
}
use cse344system_programming.FileServer.SafeFile.{SafeFile, Pc, outside, step, System, Reach}
use cse344system_programming.FileServer.SafeFile.Counts.{
  reader_new, reader_in, reader_out, rmutex_else, trying, writer_new, writer_in, writer_out,
  wmutex_else, writes,
}
use cse344system_programming.FileServer.SafeFile.Invariant.{Reach-Inv}

-- A thread that has not begun, or whose next access waits.
abbrev pub IsBlocked : SafeFile → Pc → Type 0
IsBlocked f p = (p ≡ outside) ⊎ (step false f p ≡ none)

-- A blocked thread holds no mutex, but for a counter that waits behind its test.
blocked-holds_none :
    (f : SafeFile) (p : Pc)
    → IsBlocked f p
    → (rmutex_else p ≡ 0)
      × (reader_out p ≡ 0)
      × (writes p ≡ 0)
      × (wmutex_else p ≡ 0)
      × (writer_out p ≡ 0)
unfolding step
blocked-holds_none f p b = ground arith

-- What a blocked thread waits for.
blocked-reader_new :
    (f : SafeFile) (p : Pc) → IsBlocked f p → 0 < reader_new p → (f.reader_count ≡ 1) × (f.rsc ≡ 0)
unfolding step
blocked-reader_new f p b h = ground arith

blocked-reader_in : (f : SafeFile) (p : Pc) → IsBlocked f p → 0 < reader_in p → f.rmutex ≡ 0
unfolding step
blocked-reader_in f p b h = ground arith

blocked-trying :
    (f : SafeFile) (p : Pc) → IsBlocked f p → reader_new p ≡ 0 → 0 < trying p → f.rmutex ≡ 0
unfolding step
blocked-trying f p b e h = ground arith

blocked-writer_new :
    (f : SafeFile) (p : Pc)
    → IsBlocked f p
    → 0 < writer_new p
    → (f.writer_count ≡ 1) × (f.read_try ≡ 0)
unfolding step
blocked-writer_new f p b h = ground arith

blocked-writer_in :
    (f : SafeFile) (p : Pc) → IsBlocked f p → 0 < f.rsc → 0 < writer_in p → f.wmutex ≡ 0
unfolding step
blocked-writer_in f p b e h = ground arith

blocked-outside :
    (f : SafeFile) (p : Pc)
    → IsBlocked f p
    → reader_new p ≡ 0
    → reader_in p ≡ 0
    → trying p ≡ 0
    → writer_new p ≡ 0
    → writer_in p ≡ 0
    → p ≡ outside
unfolding step
blocked-outside f p b rn ri t wn wi = ground arith

module _ {n : ℕ} {name : List ℕ} {s : System} (r : Reach n name s)
    (blocked : (j : ℕ) → j < n → IsBlocked s.file (s.pc j)) where
  holds :
      (j : ℕ)
      → j < n
      → (rmutex_else (s.pc j) ≡ 0)
        × (reader_out (s.pc j) ≡ 0)
        × (writes (s.pc j) ≡ 0)
        × (wmutex_else (s.pc j) ≡ 0)
        × (writer_out (s.pc j) ≡ 0)
  holds j h = blocked-holds_none s.file (s.pc j) (blocked j h)

  -- Since nobody holds `rsc` for good, no reader waits for it.
  no_reader_new : (j : ℕ) → j < n → reader_new (s.pc j) ≡ 0
  no_reader_new j h = ground (
    arith,
    (Reach-Inv r).readers,
    blocked-reader_new s.file (s.pc j) (blocked j h),
    weight-le-total reader_new s.pc j n h,
    total_of_zeros reader_out s.pc n (λ i k. (holds i k).1),
    total_of_zeros writes s.pc n (λ i k. (holds i k).2),
  )

  rmutex_free : s.file.rmutex ≡ 1
  rmutex_free = ground (
    arith,
    (Reach-Inv r).readers,
    total_of_zeros reader_new s.pc n no_reader_new,
    total_of_zeros reader_out s.pc n (λ i k. (holds i k).1),
    total_of_zeros rmutex_else s.pc n (λ i k. (holds i k).0),
  )

  no_reader_in : (j : ℕ) → j < n → reader_in (s.pc j) ≡ 0
  no_reader_in j h = ground (arith, rmutex_free, blocked-reader_in s.file (s.pc j) (blocked j h))

  no_trying : (j : ℕ) → j < n → trying (s.pc j) ≡ 0
  no_trying j h =
      ground (arith, rmutex_free, blocked-trying s.file (s.pc j) (blocked j h) (no_reader_new j h))

  rsc_free : s.file.rsc ≡ 1
  rsc_free = ground (
    arith,
    (Reach-Inv r).readers,
    total_of_zeros reader_in s.pc n no_reader_in,
    total_of_zeros reader_out s.pc n (λ i k. (holds i k).1),
    total_of_zeros writes s.pc n (λ i k. (holds i k).2),
  )

  no_writer_new : (j : ℕ) → j < n → writer_new (s.pc j) ≡ 0
  no_writer_new j h = ground (
    arith,
    (Reach-Inv r).writers,
    blocked-writer_new s.file (s.pc j) (blocked j h),
    weight-le-total writer_new s.pc j n h,
    total_of_zeros writer_out s.pc n (λ i k. (holds i k).4),
    total_of_zeros trying s.pc n no_trying,
  )

  wmutex_free : s.file.wmutex ≡ 1
  wmutex_free = ground (
    arith,
    (Reach-Inv r).writers,
    total_of_zeros writer_new s.pc n no_writer_new,
    total_of_zeros writer_out s.pc n (λ i k. (holds i k).4),
    total_of_zeros wmutex_else s.pc n (λ i k. (holds i k).3),
  )

  no_writer_in : (j : ℕ) → j < n → writer_in (s.pc j) ≡ 0
  no_writer_in j h =
      ground (arith, rsc_free, wmutex_free, blocked-writer_in s.file (s.pc j) (blocked j h))

  -- There is no deadlock: in a reachable state in which every thread has not begun or waits, none has
  -- begun.
  pub no_deadlock : (j : ℕ) → j < n → s.pc j ≡ outside
  no_deadlock j h =
      blocked-outside s.file (s.pc j) (blocked j h) (no_reader_new j h) (no_reader_in j h)
        (no_trying j h) (no_writer_new j h) (no_writer_in j h)
