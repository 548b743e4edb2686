-- ===== src/FileServer/SafeFile/Counts.antt =====
-- What a thread contributes to the values of the semaphores and counters, by where it stands.
use cse344system_programming.Prelude.{ℕ}
use cse344system_programming.FileServer.SafeFile.{
  Pc, r_trying, r_locked, r_counted, r_passed, r_unlocked, reading, x_locked, x_counted, x_passed,
  w_locked, w_counted, w_passed, w_unlocked, writing, v_released, v_locked, v_counted, v_passed,
}

-- a reader that has counted itself and not yet tested the count
abbrev pub reader_new : Pc → ℕ
reader_new r_counted = 1
reader_new _ = 0

-- a reader that is counted and has passed the test
abbrev pub reader_in : Pc → ℕ
reader_in r_passed = 1
reader_in r_unlocked = 1
reader_in reading = 1
reader_in x_locked = 1
reader_in _ = 0

-- a reader that has uncounted itself and not yet tested the count
abbrev pub reader_out : Pc → ℕ
reader_out x_counted = 1
reader_out _ = 0

-- a holder of `rmutex` at its other places
abbrev pub rmutex_else : Pc → ℕ
rmutex_else r_locked = 1
rmutex_else r_passed = 1
rmutex_else x_locked = 1
rmutex_else x_passed = 1
rmutex_else _ = 0

-- a reader that holds `read_try`
abbrev pub trying : Pc → ℕ
trying r_trying = 1
trying r_locked = 1
trying r_counted = 1
trying r_passed = 1
trying r_unlocked = 1
trying _ = 0

abbrev pub writer_new : Pc → ℕ
writer_new w_counted = 1
writer_new _ = 0

abbrev pub writer_in : Pc → ℕ
writer_in w_passed = 1
writer_in w_unlocked = 1
writer_in writing = 1
writer_in v_released = 1
writer_in v_locked = 1
writer_in _ = 0

abbrev pub writer_out : Pc → ℕ
writer_out v_counted = 1
writer_out _ = 0

-- a holder of `wmutex` at its other places
abbrev pub wmutex_else : Pc → ℕ
wmutex_else w_locked = 1
wmutex_else w_passed = 1
wmutex_else v_locked = 1
wmutex_else v_passed = 1
wmutex_else _ = 0

abbrev pub writes : Pc → ℕ
writes writing = 1
writes _ = 0
