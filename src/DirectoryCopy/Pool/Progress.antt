-- ===== src/DirectoryCopy/Pool/Progress.antt =====
-- The manager and the workers of Homework4 and Homework5 where none of them can move.
use cse344system_programming.Prelude.{
  ℕ, ◌+◌, ◌<◌, ◌≡◌, ◌≢◌, ◌⊎◌, inl, inr, Bool, true, false, none, List, [], ◌∷◌, arith,
  weight-le-total, total_of_zeros, total_of_ones,
}
use cse344system_programming.DirectoryCopy.Buffer.{FileInformation, Buffer}
use cse344system_programming.DirectoryCopy.Buffer.Fifo.{IsValid}
use cse344system_programming.DirectoryCopy.Pool.{
  Pool, WorkerPc, at_lock, copying, left, ManagerPc, adding, manager_step, worker_step, System, Run,
  Reach,
}
use cse344system_programming.DirectoryCopy.Pool.Control.{
  Control, AtBarrier, Reach-Control, sleeps_or_up,
}
use cse344system_programming.DirectoryCopy.Pool.Tally.{
  sleeps, is_up, has_gone, waits_at_barrier, manager_gone, manager_waits, manager_sleeps, tally,
}
use cse344system_programming.DirectoryCopy.Pool.Outcome.{Reach-Ledger}

-- A thread that cannot move sleeps, or waits at the barrier for others, or has left.
stuck-worker :
    (b : Bool) (k : ℕ) (content : FileInformation → List ℕ) (p : Pool) (w : WorkerPc)
    → worker_step b k content p w ≡ none
    → (sleeps w ≡ 1)
      ⊎ ((has_gone w ≡ 1) × ((w ≡ left) ⊎ ((waits_at_barrier w ≡ 1) × (p.arrived ≢ k))))
unfolding worker_step
stuck-worker b k content p at_lock e = ground arith
stuck-worker b k content p (copying f a []) e = ground arith
stuck-worker b k content p (copying f a (c ∷ rest)) e = ground arith
stuck-worker b k content p w e = ground arith

stuck-manager :
    (b : Bool) (k : ℕ) (p : Pool) (m : ManagerPc)
    → manager_step b k p m ≡ none
    → (manager_sleeps m ≡ 1)
      ⊎ ((manager_gone m ≡ 1) × ((m ≡ left) ⊎ ((manager_waits m ≡ 1) × (p.arrived ≢ k))))
unfolding manager_step
stuck-manager b k p (adding []) e = ground arith
stuck-manager b k p (adding (f ∷ fs)) e = ground arith
stuck-manager b k p m e = ground arith

module _ (r : Run) (buffer : Buffer) (v : IsValid buffer) (pos : 0 < r.num_workers)
    (fresh : buffer.count ≡ 0) {s : System} (run : Reach r buffer s)
    (manager_stuck : manager_step r.with_barrier (r.num_workers + 1) s.pool s.manager ≡ none)
    (workers_stuck : (j : ℕ)
      → j < r.num_workers
      → worker_step r.with_barrier (r.num_workers + 1) r.content s.pool (s.workers j) ≡ none) where
  control : Control r.with_barrier r.num_workers s.pool s.manager (tally s.workers r.num_workers)
  control = Reach-Control pos fresh run

  worker_stuck :
      (j : ℕ)
      → j < r.num_workers
      → (sleeps (s.workers j) ≡ 1)
        ⊎ ((has_gone (s.workers j) ≡ 1)
            × ((s.workers j ≡ left)
                ⊎ ((waits_at_barrier (s.workers j) ≡ 1) × (s.pool.arrived ≢ r.num_workers + 1))))
  worker_stuck j h =
      stuck-worker r.with_barrier (r.num_workers + 1) r.content s.pool (s.workers j)
        (workers_stuck j h)

  -- If the manager slept, all workers would sleep before a full buffer.
  none_up : manager_sleeps s.manager ≡ 1 → (j : ℕ) → j < r.num_workers → is_up (s.workers j) ≡ 0
  none_up e j h = ground (
    arith,
    control.done_iff,
    control.gone_late,
    worker_stuck j h,
    sleeps_or_up (s.workers j),
    weight-le-total has_gone s.workers j r.num_workers h,
    e,
  )

  manager_is_up : manager_sleeps s.manager ≢ 1
  manager_is_up e = ground (
    arith,
    control.manager_full,
    control.somebody_up,
    e,
    total_of_zeros is_up s.workers r.num_workers (none_up e),
    (Reach-Ledger r buffer v pos fresh (λ _. 0) run).valid.head_in,
    (Reach-Ledger r buffer v pos fresh (λ _. 0) run).valid.room,
  )

  manager_has_gone : manager_gone s.manager ≡ 1
  manager_has_gone = ground (
    arith,
    manager_is_up,
    stuck-manager r.with_barrier (r.num_workers + 1) s.pool s.manager manager_stuck,
  )

  all_gone : (j : ℕ) → j < r.num_workers → has_gone (s.workers j) ≡ 1
  all_gone j h = ground (
    arith,
    manager_has_gone,
    control.done_iff,
    control.roused,
    worker_stuck j h,
    weight-le-total sleeps s.workers j r.num_workers h,
  )

  nobody_waits :
      (b : Bool)
      → AtBarrier b r.num_workers s.pool s.manager (tally s.workers r.num_workers)
      → ((manager_waits s.manager ≡ 0)
          × ((j : ℕ) → j < r.num_workers → waits_at_barrier (s.workers j) ≡ 0))
        ⊎ (s.pool.arrived ≡ r.num_workers + 1)
  nobody_waits true c =
      inr (
        ground
          (arith, c, manager_has_gone, total_of_ones has_gone s.workers r.num_workers all_gone))
  nobody_waits false c =
      inl (
        c.1,
        λ j h. ground (arith, c, weight-le-total waits_at_barrier s.workers j r.num_workers h),
      )

  -- There is no deadlock: in a state reached with a worker at least from a valid buffer that is empty, which
  -- has room for one file at least, if no thread can move, all have left.
  pub pool_no_deadlock : (s.manager ≡ left) × ((j : ℕ) → j < r.num_workers → s.workers j ≡ left)
  pool_no_deadlock = elim (nobody_waits r.with_barrier control.barrier) [
    | inl (m, w) ↦ (
      ground (
        arith,
        m,
        manager_is_up,
        stuck-manager r.with_barrier (r.num_workers + 1) s.pool s.manager manager_stuck,
      ),
      λ j h. ground (arith, all_gone j h, w j h, worker_stuck j h),
    )
    | inr e ↦ (
      ground (
        arith,
        e,
        manager_is_up,
        stuck-manager r.with_barrier (r.num_workers + 1) s.pool s.manager manager_stuck,
      ),
      λ j h. ground (arith, all_gone j h, e, worker_stuck j h),
    )
  ]
