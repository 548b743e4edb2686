-- ===== src/DirectoryCopy/Pool/Control.antt =====
-- Who of the manager and the workers sleeps, who has gone, and what that says of the buffer.
use cse344system_programming.Prelude.{
  subst, ℕ, ◌+◌, ◌<◌, ◌≤◌, ◌≡◌, ◌≢◌, refl, ◌⊎◌, Bool, true, false, some, List, [], arith, update,
  total, total-update, weight-le-total, total-map, total_of_zeros, total_complement, total-eq-zero,
}
use cse344system_programming.DirectoryCopy.Buffer.{FileInformation, Buffer, buffer_add, buffer_get}
use cse344system_programming.DirectoryCopy.Pool.{
  Pool, new_pool, WorkerPc, at_lock, asleep, ManagerPc, adding, sleeping, Signal, silent, to_worker,
  to_workers, to_manager, manager_step, worker_step, wake, rouse, Woken, nobody, one, unheard, all,
  System, Run, manager_moves, worker_moves, worker_wakes, manager_wakes, Reach, start, later,
}
use cse344system_programming.DirectoryCopy.Pool.Tally.{
  sleeps, is_up, has_gone, is_in, waits_at_barrier, has_left, manager_gone, manager_waits,
  manager_left, manager_sleeps, Tally, tally,
}

-- In Homework5 the threads that have gone are counted at the barrier, and it lets nobody pass before the
-- last; in Homework4 nobody waits there.
abbrev pub AtBarrier : Bool → ℕ → Pool → ManagerPc → Tally → Type 0
AtBarrier true n p m t =
    (p.arrived ≡ t.gone + manager_gone m) × ((t.left + manager_left m ≡ 0) ⊎ (p.arrived ≡ n + 1))
AtBarrier false n p m t = (t.waiting ≡ 0) × (manager_waits m ≡ 0)

pub record Control (with_barrier : Bool) (n : ℕ) (p : Pool) (m : ManagerPc) (t : Tally)
    : Type 0 where
  -- `done` is set just when the manager has gone
  pub done_iff :
      ((p.done ≡ false) × (manager_gone m ≡ 0)) ⊎ ((p.done ≡ true) × (manager_gone m ≡ 1))
  -- the manager sleeps on a full buffer
  pub manager_full : (manager_sleeps m ≡ 0) ⊎ (p.buffer.count ≡ p.buffer.size)
  -- nobody sleeps any more when `done` is set
  pub roused : (p.done ≡ false) ⊎ (t.asleep ≡ 0)
  -- not all sleep while there is a file to take
  pub somebody_up : (0 < t.up) ⊎ (p.buffer.count ≡ 0)
  -- a worker goes when all is taken
  pub gone_late : (t.gone ≡ 0) ⊎ ((p.done ≡ true) × (p.buffer.count ≡ 0))
  pub barrier : AtBarrier with_barrier n p m t

-- What the manager's signal does to the tallies.
abbrev Called : ℕ → Signal → Tally → Tally → Type 0
Called n silent t t' = t' ≡ t
Called n to_worker t t' =
    (0 < t'.up) × (t'.gone ≡ t.gone) × (t'.waiting ≡ t.waiting) × (t'.left ≡ t.left)
Called n to_workers t t' =
    (t'.asleep ≡ 0)
    × (t'.up ≡ n)
    × (t'.gone ≡ t.gone)
    × (t'.waiting ≡ t.waiting)
    × (t'.left ≡ t.left)
Called n to_manager t t' = t' ≡ t

manager-Control :
    (b : Bool) (n : ℕ) (p p' : Pool) (m m' : ManagerPc) (signal : Signal) (t t' : Tally)
    → 0 < n
    → t.asleep ≤ n
    → Control b n p m t
    → manager_step b (n + 1) p m ≡ some (p', m', signal)
    → Called n signal t t'
    → Control b n p' m' t'
unfolding manager_step buffer_add
manager-Control true n p p' (adding []) m' signal t t' pos le v e c = ground arith
manager-Control false n p p' (adding []) m' signal t t' pos le v e c = ground arith
manager-Control true n p p' m m' signal t t' pos le v e c = ground arith
manager-Control false n p p' m m' signal t t' pos le v e c = ground arith

-- The tallies change by the worker that moves from `w` to `w'`.
record Moved (t t' : Tally) (w w' : WorkerPc) : Type 0 where
  asleep : t'.asleep + sleeps w ≡ t.asleep + sleeps w'
  up : t'.up + is_up w ≡ t.up + is_up w'
  gone : t'.gone + has_gone w ≡ t.gone + has_gone w'
  waiting : t'.waiting + waits_at_barrier w ≡ t.waiting + waits_at_barrier w'
  left : t'.left + has_left w ≡ t.left + has_left w'

worker-Control :
    (b : Bool) (n : ℕ) (content : FileInformation → List ℕ) (p p' : Pool) (m : ManagerPc)
    (w w' : WorkerPc) (signal : Signal) (t t' : Tally)
    → is_up w ≤ t.up
    → t.gone + is_in w ≤ n
    → Control b n p m t
    → worker_step b (n + 1) content p w ≡ some (p', w', signal)
    → Moved t t' w w'
    → Control b n p' (rouse signal m) t'
unfolding worker_step buffer_get
worker-Control true n content p p' (sleeping fs) w w' signal t t' le gone v e c = ground arith
worker-Control false n content p p' (sleeping fs) w w' signal t t' le gone v e c = ground arith
worker-Control true n content p p' m w w' signal t t' le gone v e c = ground arith
worker-Control false n content p p' m w w' signal t t' le gone v e c = ground arith

-- Threads that wake without a signal.
worker_wakes-Control :
    (b : Bool) (n : ℕ) (p : Pool) (m : ManagerPc) (t t' : Tally)
    → Control b n p m t
    → Moved t t' asleep at_lock
    → Control b n p m t'
worker_wakes-Control true n p m t t' v k = ground arith
worker_wakes-Control false n p m t t' v k = ground arith

manager_wakes-Control :
    (b : Bool) (n : ℕ) (p : Pool) (fs : List FileInformation) (t : Tally)
    → Control b n p (sleeping fs) t
    → Control b n p (adding fs) t
manager_wakes-Control true n p fs t v = ground arith
manager_wakes-Control false n p fs t v = ground arith

-- Waking a worker is no more than that.
wake-gone : (w : WorkerPc) → has_gone (wake w) ≡ has_gone w
wake-gone w = ground arith

wake-waits : (w : WorkerPc) → waits_at_barrier (wake w) ≡ waits_at_barrier w
wake-waits w = ground arith

wake-left : (w : WorkerPc) → has_left (wake w) ≡ has_left w
wake-left w = ground arith

wake-sleeps : (w : WorkerPc) → sleeps (wake w) ≡ 0
wake-sleeps w = ground arith

pub sleeps_or_up : (w : WorkerPc) → sleeps w + is_up w ≡ 1
sleeps_or_up w = ground arith

pub gone_or_in : (w : WorkerPc) → has_gone w + is_in w ≡ 1
gone_or_in w = ground arith

awake-sleeps : (w : WorkerPc) → w ≢ asleep → sleeps w ≡ 0
awake-sleeps w h = ground arith

update-Moved :
    (ws : ℕ → WorkerPc) (i n : ℕ) (w' : WorkerPc)
    → i < n
    → Moved (tally ws n) (tally (update ws i w') n) (ws i) w'
update-Moved ws i n w' h = record {
  asleep = total-update sleeps ws i w' n h;
  up = total-update is_up ws i w' n h;
  gone = total-update has_gone ws i w' n h;
  waiting = total-update waits_at_barrier ws i w' n h;
  left = total-update has_left ws i w' n h;
}

Woken-Called :
    (n : ℕ) (ws ws' : ℕ → WorkerPc) (signal : Signal)
    → 0 < n
    → Woken n ws signal ws'
    → Called n signal (tally ws n) (tally ws' n)
Woken-Called n ws ws' silent pos nobody = refl
Woken-Called n ws ws' to_worker pos (one j h e) =
    let m : Moved (tally ws n) (tally ws' n) (ws j) at_lock = update-Moved ws j n at_lock h in
    ground (arith, m, e)
Woken-Called n ws ws' to_worker pos (unheard h) = (
  omega (
    arith,
    total_complement sleeps is_up sleeps_or_up ws n,
    total_of_zeros sleeps ws n (λ j hj. awake-sleeps (ws j) (h j hj)),
  ),
  refl,
  refl,
  refl,
)
Woken-Called n ws ws' to_manager pos h = elim h [ ]
Woken-Called n ws ws' to_workers pos all =
    let quiet : total sleeps (λ i. wake (ws i)) n ≡ 0 =
      total_of_zeros sleeps (λ i. wake (ws i)) n (λ j hj. wake-sleeps (ws j)) in
    (
      quiet,
      omega (arith, quiet, total_complement sleeps is_up sleeps_or_up (λ i. wake (ws i)) n),
      total-map has_gone wake wake-gone ws n,
      total-map waits_at_barrier wake wake-waits ws n,
      total-map has_left wake wake-left ws n,
    )

start-Control :
    (b : Bool) (n : ℕ) (buffer : Buffer) (fs : List FileInformation)
    → buffer.count ≡ 0
    → Control b n (new_pool buffer) (adding fs) (tally (λ _. at_lock) n)
start-Control true n buffer fs e = ground (
  arith,
  e,
  total-eq-zero sleeps at_lock refl n,
  total-eq-zero has_gone at_lock refl n,
  total-eq-zero has_left at_lock refl n,
)
start-Control false n buffer fs e = ground (
  arith,
  e,
  total-eq-zero sleeps at_lock refl n,
  total-eq-zero has_gone at_lock refl n,
  total-eq-zero waits_at_barrier at_lock refl n,
)

-- Whatever the threads do, in either program, with at least one worker.
pub Reach-Control :
    {r : Run} {buffer : Buffer} {s : System}
    → 0 < r.num_workers
    → buffer.count ≡ 0
    → Reach r buffer s
    → Control r.with_barrier r.num_workers s.pool s.manager (tally s.workers r.num_workers)
Reach-Control {r} {buffer} pos e start = start-Control r.with_barrier r.num_workers buffer r.files e
Reach-Control {r} pos e
      (later {s = s} run (manager_moves {p = p} {m = m} {signal = g} {ws = ws} step woken)) =
    manager-Control r.with_barrier r.num_workers s.pool p s.manager m g
      (tally s.workers r.num_workers) (tally ws r.num_workers) pos
      (omega (arith, total_complement sleeps is_up sleeps_or_up s.workers r.num_workers))
      (Reach-Control pos e run) step (Woken-Called r.num_workers s.workers ws g pos woken)
Reach-Control {r} pos e (later {s = s} run (worker_moves i {p = p} {w = w} {signal = g} h step)) =
    worker-Control r.with_barrier r.num_workers r.content s.pool p s.manager (s.workers i) w g
      (tally s.workers r.num_workers) (tally (update s.workers i w) r.num_workers)
      (weight-le-total is_up s.workers i r.num_workers h)
      (omega (
        arith,
        total_complement has_gone is_in gone_or_in s.workers r.num_workers,
        weight-le-total is_in s.workers i r.num_workers h,
      ))
      (Reach-Control pos e run) step (update-Moved s.workers i r.num_workers w h)
Reach-Control {r} pos e (later {s = s} run (worker_wakes i h k)) =
    worker_wakes-Control r.with_barrier r.num_workers s.pool s.manager
      (tally s.workers r.num_workers) (tally (update s.workers i at_lock) r.num_workers)
      (Reach-Control pos e run)
      (subst
        (λ w.
          Moved (tally s.workers r.num_workers) (tally (update s.workers i at_lock) r.num_workers) w
            at_lock)
        k (update-Moved s.workers i r.num_workers at_lock h))
Reach-Control {r} pos e (later {s = s} run (manager_wakes {fs = fs} k)) =
    manager_wakes-Control r.with_barrier r.num_workers s.pool fs (tally s.workers r.num_workers) (
      subst (λ m. Control r.with_barrier r.num_workers s.pool m (tally s.workers r.num_workers)) k
        (Reach-Control pos e run))
