-- ===== src/DirectoryCopy/Pool.antt =====
-- The threads of Homework4/200104004104_main.c and Homework5/200104004104_main.c: `manager_function` with
-- the part of `traverse_directory` that hands a file on, `worker_function` and `copy_file_contents`. What
-- a thread does under `buffer_mutex` is one step. A thread in pthread_cond_wait sleeps until a signal or
-- a broadcast wakes it, or until it wakes without one; a signal that wakes more than one thread is one
-- that wakes one, and others that wake without a signal. Reads and writes succeed, no SIGINT arrives, and
-- the source of a file is its bytes; each destination is a file of its own, empty when the manager has
-- opened it.
pub mod Tally
pub mod Control
pub mod Ledger
pub mod Outcome
pub mod Finish
pub mod Progress
pub mod Whole
pub mod Termination
mod Tests
use cse344system_programming.Prelude.{
  ℕ, ◌+◌, ◌-◌, ◌<◌, ◌≡◌, ◌≢◌, ◌==◌, ◌&&◌, not, if◌then◌else◌, Bool, true, false, Option, none, some,
  List, [], ◌∷◌, ◌++◌, length, take, drop, update,
}
use cse344system_programming.DirectoryCopy.Buffer.{
  FileInformation, Buffer, buffer_is_empty, buffer_is_full, buffer_add, buffer_get,
}

-- A file with the bytes that were written to its destination.
pub record Copy : Type 0 where
  pub file : FileInformation
  pub bytes : List ℕ

-- The globals. `copies` are the files whose descriptors a worker has closed, the last first, and
-- `arrived` the threads that have come to the barrier.
pub record Pool : Type 0 where
  pub buffer : Buffer
  pub done : Bool
  pub num_files_copied : ℕ
  pub total_bytes_copied : ℕ
  pub copies : List Copy
  pub arrived : ℕ

abbrev pub new_pool : Buffer → Pool
new_pool buffer = record {
  buffer = buffer;
  done = false;
  num_files_copied = 0;
  total_bytes_copied = 0;
  copies = [];
  arrived = 0;
}

-- Where a worker stands: at the lock at the head of its loop, asleep on `buffer_not_empty`, in
-- `copy_file_contents` with what is written and what is left to read, behind it, or behind the loop.
pub data WorkerPc : Type 0 where
  at_lock asleep : WorkerPc
  copying : (file : FileInformation) (written rest : List ℕ) → WorkerPc
  copied : (file : FileInformation) (written : List ℕ) → WorkerPc
  at_barrier left : WorkerPc

-- Where the manager stands, with the files that it has still to hand on, the next one first: at the lock,
-- asleep on `buffer_not_full`, or behind the traversal.
pub data ManagerPc : Type 0 where
  adding sleeping : List FileInformation → ManagerPc
  at_barrier left : ManagerPc

-- The calls on condition variables.
pub data Signal : Type 0 where
  silent to_worker to_workers to_manager : Signal

abbrev pub bufsize : ℕ
bufsize = 4096

-- The part of `traverse_directory` under the lock, for the file `f`. Nobody else sets `done`, so it is not
-- set while files are to come; the source then leaves the directory's loop, the model the file.
abbrev pub hand_on :
    Pool → (f : FileInformation) (fs : List FileInformation) → Option (Pool × ManagerPc × Signal)
hand_on p f fs =
    if buffer_is_full p.buffer && not p.done
    then some (p, sleeping (f ∷ fs), silent)
    else if p.done
    then some (p, adding fs, silent)
    else some (record p { buffer = buffer_add p.buffer f }, adding fs, to_worker)

-- What the manager's next step leaves; `with_barrier` is true for Homework5.
unfoldable pub manager_step :
    (with_barrier : Bool) (threads : ℕ) → Pool → ManagerPc → Option (Pool × ManagerPc × Signal)
manager_step with_barrier threads p (adding []) =
    if with_barrier
    then some (record p { done = true; arrived = p.arrived + 1 }, at_barrier, to_workers)
    else some (record p { done = true }, left, to_workers)
manager_step with_barrier threads p (adding (f ∷ fs)) = hand_on p f fs
manager_step with_barrier threads p (sleeping fs) = none
manager_step with_barrier threads p at_barrier =
    if p.arrived == threads then some (p, left, silent) else none
manager_step with_barrier threads p left = none

-- What a worker's next step leaves. `content` are the bytes of the source of a file.
unfoldable pub worker_step :
    (with_barrier : Bool) (threads : ℕ) (content : FileInformation → List ℕ)
    → Pool
    → WorkerPc
    → Option (Pool × WorkerPc × Signal)
worker_step with_barrier threads content p at_lock =
    if buffer_is_empty p.buffer && not p.done
    then some (p, asleep, silent)
    else if buffer_is_empty p.buffer && p.done
    then (if with_barrier
        then some (record p { arrived = p.arrived + 1 }, at_barrier, silent)
        else some (p, left, silent))
    else (let (f, buffer) = buffer_get p.buffer in
        some (record p { buffer = buffer }, copying f [] (content f), to_manager))
worker_step with_barrier threads content p asleep = none
worker_step with_barrier threads content p (copying f written []) =
    some (p, copied f written, silent)
worker_step with_barrier threads content p (copying f written (c ∷ rest)) =
    let chunk : List ℕ = take bufsize (c ∷ rest) in
    some (
      record p { total_bytes_copied = p.total_bytes_copied + length chunk },
      copying f (written ++ chunk) (drop bufsize (c ∷ rest)),
      silent,
    )
worker_step with_barrier threads content p (copied f written) = some (
  record p {
    num_files_copied = p.num_files_copied + 1;
    copies = record { file = f; bytes = written } ∷ p.copies;
  },
  at_lock,
  silent,
)
worker_step with_barrier threads content p at_barrier =
    if p.arrived == threads then some (p, left, silent) else none
worker_step with_barrier threads content p left = none

abbrev pub wake : WorkerPc → WorkerPc
wake asleep = at_lock
wake w = w

abbrev pub rouse : Signal → ManagerPc → ManagerPc
rouse to_manager (sleeping fs) = adding fs
rouse _ m = m

-- The workers behind a signal of the manager's: pthread_cond_signal wakes one that sleeps, if any does,
-- and pthread_cond_broadcast all.
pub data Woken (n : ℕ) (ws : ℕ → WorkerPc) : Signal → (ℕ → WorkerPc) → Type 0 where
  nobody : Woken n ws silent ws
  one : (j : ℕ) → j < n → ws j ≡ asleep → Woken n ws to_worker (update ws j at_lock)
  unheard : ((j : ℕ) → j < n → ws j ≢ asleep) → Woken n ws to_worker ws
  all : Woken n ws to_workers (λ i. wake (ws i))

pub record System : Type 0 where
  pub pool : Pool
  pub manager : ManagerPc
  pub workers : ℕ → WorkerPc

-- What a run is of: the program (`with_barrier` is Homework5), the number of workers, the files that the
-- traversal hands on, the bytes of their sources, and the size of the buffer.
pub record Run : Type 0 where
  pub with_barrier : Bool
  pub num_workers : ℕ
  pub content : FileInformation → List ℕ
  pub files : List FileInformation

-- A step of the manager or of a worker, or the waking of one without a signal.
pub data Step (r : Run) (s : System) : System → Type 0 where
  manager_moves :
      {p : Pool} {m : ManagerPc} {signal : Signal} {ws : ℕ → WorkerPc}
      → manager_step r.with_barrier (r.num_workers + 1) s.pool s.manager ≡ some (p, m, signal)
      → Woken r.num_workers s.workers signal ws
      → Step r s (record { pool = p; manager = m; workers = ws })
  worker_wakes :
      (i : ℕ)
      → i < r.num_workers
      → s.workers i ≡ asleep
      → Step r s
          (record { pool = s.pool; manager = s.manager; workers = update s.workers i at_lock })
  manager_wakes :
      {fs : List FileInformation}
      → s.manager ≡ sleeping fs
      → Step r s (record { pool = s.pool; manager = adding fs; workers = s.workers })
  worker_moves :
      (i : ℕ) {p : Pool} {w : WorkerPc} {signal : Signal}
      → i < r.num_workers
      → worker_step r.with_barrier (r.num_workers + 1) r.content s.pool (s.workers i)
        ≡ some (p, w, signal)
      → Step r s
          (record { pool = p; manager = rouse signal s.manager; workers = update s.workers i w })

pub data Reach (r : Run) (buffer : Buffer) : System → Type 0 where
  start :
      Reach r buffer
        (record { pool = new_pool buffer; manager = adding r.files; workers = λ _. at_lock })
  later : {s t : System} → Reach r buffer s → Step r s t → Reach r buffer t
