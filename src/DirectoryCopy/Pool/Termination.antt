-- ===== src/DirectoryCopy/Pool/Termination.antt =====
-- The length of the runs of Homework4 and Homework5.
use cse344system_programming.Prelude.{
  ℕ, ◌+◌, ◌*◌, ◌<◌, ◌≤◌, ◌≡◌, refl, ap, Bool, true, false, some, List, [], ◌∷◌, arith, update,
  total, total-update, total-le, total-le_add_one, total_of_constant, length, length-append,
  sum_map,
}
use cse344system_programming.DirectoryCopy.Buffer.{FileInformation, Buffer, buffer_add, buffer_get}
use cse344system_programming.DirectoryCopy.Buffer.Fifo.{IsValid, kept}
use cse344system_programming.DirectoryCopy.Pool.{
  Pool, WorkerPc, at_lock, asleep, copying, copied, at_barrier, left, ManagerPc, adding, sleeping,
  Signal, silent, to_worker, to_workers, to_manager, manager_step, worker_step, wake, rouse, Woken,
  nobody, one, unheard, all, System, Run, manager_moves, worker_moves, worker_wakes, manager_wakes,
  Reach, start, later,
}
use cse344system_programming.DirectoryCopy.Pool.Ledger.{pending, held, bytes_in_hand, IsFaithful}
use cse344system_programming.DirectoryCopy.Pool.Outcome.{Ledger, Reach-Ledger}
use cse344system_programming.DirectoryCopy.Pool.Finish.{bytes_of_faithful}

-- The steps of a run.
pub steps : {r : Run} {buffer : Buffer} {s : System} → Reach r buffer s → ℕ
steps start = 0
steps (later run step) = steps run + 1

-- The steps in which a thread wakes without a signal.
pub wakings : {r : Run} {buffer : Buffer} {s : System} → Reach r buffer s → ℕ
wakings start = 0
wakings (later run (manager_moves step woken)) = wakings run
wakings (later run (worker_moves i h step)) = wakings run
wakings (later run (worker_wakes i h k)) = wakings run + 1
wakings (later run (manager_wakes k)) = wakings run + 1

abbrev worker_rank : WorkerPc → ℕ
worker_rank left = 0
worker_rank at_barrier = 1
worker_rank asleep = 1
worker_rank at_lock = 2
worker_rank (copied f written) = 3
worker_rank (copying f written rest) = 4

abbrev manager_rank : ℕ → ManagerPc → ℕ
manager_rank n (adding fs) = n + 3
manager_rank n (sleeping fs) = n + 2
manager_rank n at_barrier = 1
manager_rank n left = 0

-- What is left to do, apart from the bytes to copy; `ranks` is the sum over the workers.
abbrev work : ℕ → Pool → ManagerPc → (ranks : ℕ) → ℕ
work n p m ranks = 6 * length (pending m) + 4 * p.buffer.count + manager_rank n m + ranks

-- The ranks behind a call of the manager's.
abbrev Roused : ℕ → Signal → ℕ → ℕ → Type 0
Roused n silent ranks ranks' = ranks' ≡ ranks
Roused n to_worker ranks ranks' = ranks' ≤ ranks + 1
Roused n to_workers ranks ranks' = ranks' ≤ ranks + n
Roused n to_manager ranks ranks' = ranks' ≡ ranks

manager-work :
    (b : Bool) (n : ℕ) (p p' : Pool) (m m' : ManagerPc) (signal : Signal) (ranks ranks' : ℕ)
    → manager_step b (n + 1) p m ≡ some (p', m', signal)
    → Roused n signal ranks ranks'
    → (p'.total_bytes_copied ≡ p.total_bytes_copied) × (work n p' m' ranks' < work n p m ranks)
unfolding manager_step buffer_add
manager-work true n p p' (adding []) m' signal ranks ranks' e k = ground arith
manager-work false n p p' (adding []) m' signal ranks ranks' e k = ground arith
manager-work b n p p' (adding (f ∷ fs)) m' signal ranks ranks' e k = ground arith
manager-work b n p p' m m' signal ranks ranks' e k = ground arith

worker-work :
    (b : Bool) (n : ℕ) (content : FileInformation → List ℕ) (p p' : Pool) (m : ManagerPc)
    (w w' : WorkerPc) (signal : Signal) (ranks ranks' : ℕ)
    → worker_step b (n + 1) content p w ≡ some (p', w', signal)
    → ranks' + worker_rank w ≡ ranks + worker_rank w'
    → (p.total_bytes_copied ≤ p'.total_bytes_copied)
      × (work n p' (rouse signal m) ranks' + p.total_bytes_copied
          < work n p m ranks + p'.total_bytes_copied)
unfolding worker_step buffer_get
worker-work b n content p p' m (copying f written (c ∷ rest)) w' signal ranks ranks' e k =
    ground arith
worker-work true n content p p' (sleeping fs) w w' signal ranks ranks' e k = ground arith
worker-work false n content p p' (sleeping fs) w w' signal ranks ranks' e k = ground arith
worker-work true n content p p' m w w' signal ranks ranks' e k = ground arith
worker-work false n content p p' m w w' signal ranks ranks' e k = ground arith

rank-wake : (w : WorkerPc) → worker_rank (wake w) ≤ worker_rank w + 1
rank-wake w = ground arith

Woken-Roused :
    (n : ℕ) (ws ws' : ℕ → WorkerPc) (signal : Signal)
    → Woken n ws signal ws'
    → Roused n signal (total worker_rank ws n) (total worker_rank ws' n)
Woken-Roused n ws ws' silent nobody = refl
Woken-Roused n ws ws' to_worker (one j lt e) =
    omega (arith, total-update worker_rank ws j at_lock n lt, ap worker_rank e)
Woken-Roused n ws ws' to_worker (unheard h) = omega arith
Woken-Roused n ws ws' to_manager x = elim x [ ]
Woken-Roused n ws ws' to_workers all =
    total-le_add_one worker_rank ws (λ i. wake (ws i)) n (λ i. rank-wake (ws i))

in_hand-le-held :
    (content : FileInformation → List ℕ) (w : WorkerPc)
    → IsFaithful content w
    → bytes_in_hand w ≤ held (λ f. length (content f)) w
in_hand-le-held content (copying f written rest) h =
    omega (arith, ap length h, length-append written rest)
in_hand-le-held content (copied f written) h = omega (arith, ap length h)
in_hand-le-held content w h = omega arith

module _ (r : Run) (buffer : Buffer) (v : IsValid buffer) (pos : 0 < r.num_workers)
    (fresh : buffer.count ≡ 0) where
  -- The bytes of all the files that the manager hands on.
  abbrev source_bytes : ℕ
  source_bytes = sum_map (λ f. length (r.content (kept f))) r.files

  copied-le-source : {s : System} → Reach r buffer s → s.pool.total_bytes_copied ≤ source_bytes
  copied-le-source {s} run =
      let l : Ledger r (λ f. length (r.content f)) s =
        Reach-Ledger r buffer v pos fresh (λ f. length (r.content f)) run in
      omega (
        arith,
        l.bytes,
        l.files,
        bytes_of_faithful r.content s.pool.copies l.copies,
        total-le bytes_in_hand (held (λ f. length (r.content f))) s.workers r.num_workers
            (λ i. in_hand-le-held r.content (s.workers i) (l.faithful i)),
      )

  abbrev left_to_do : System → ℕ
  left_to_do s = work r.num_workers s.pool s.manager (total worker_rank s.workers r.num_workers)

  steps-work :
      {s : System} (run : Reach r buffer s)
      → steps run + left_to_do s
        ≤ s.pool.total_bytes_copied + 6 * length r.files + 3 * r.num_workers + 3 + 2 * wakings run
  unfolding steps wakings
  steps-work start =
      omega (arith, total_of_constant worker_rank at_lock 2 refl r.num_workers, fresh)
  steps-work (later {s = s} run (manager_moves {p = p} {m = m} {signal = g} {ws = ws} step woken)) =
      let k =
        manager-work r.with_barrier r.num_workers s.pool p s.manager m g
          (total worker_rank s.workers r.num_workers) (total worker_rank ws r.num_workers) step
          (Woken-Roused r.num_workers s.workers ws g woken) in
      omega (arith, k.0, k.1, steps-work run)
  steps-work (later {s = s} run (worker_moves i {p = p} {w = w} {signal = g} h step)) =
      let k =
        worker-work r.with_barrier r.num_workers r.content s.pool p s.manager (s.workers i) w g
          (total worker_rank s.workers r.num_workers)
          (total worker_rank (update s.workers i w) r.num_workers) step
          (total-update worker_rank s.workers i w r.num_workers h) in
      omega (arith, k.0, k.1, steps-work run)
  steps-work (later {s = s} run (worker_wakes i h k)) = omega (
    arith,
    total-update worker_rank s.workers i at_lock r.num_workers h,
    ap worker_rank k,
    steps-work run,
  )
  steps-work (later {s = s} run (manager_wakes {fs = fs} k)) =
      omega
        (arith, ap (manager_rank r.num_workers) k, ap (λ m. length (pending m)) k, steps-work run)

  -- From a valid buffer that is empty, with a worker at least, the manager and the workers take no more steps
  -- than there are bytes to copy, and 6 for each file, 3 for each worker, 3 more, and 2 for each time that a
  -- thread wakes without a signal.
  pub steps_bounded :
      {s : System} (run : Reach r buffer s)
      → steps run ≤ source_bytes + 6 * length r.files + 3 * r.num_workers + 3 + 2 * wakings run
  steps_bounded run = omega (arith, steps-work run, copied-le-source run)
