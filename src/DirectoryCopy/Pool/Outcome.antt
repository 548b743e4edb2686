-- ===== src/DirectoryCopy/Pool/Outcome.antt =====
-- What the manager and the workers achieve together.
use cse344system_programming.Prelude.{
  ℕ, ◌+◌, ◌<◌, ◌≡◌, refl, ap, ◌⊎◌, Bool, false, [], arith, total, total-update, total-eq-zero,
  length, sum_map, sum_map_nil, span,
}
use cse344system_programming.DirectoryCopy.Buffer.{FileInformation, Buffer, unwritten}
use cse344system_programming.DirectoryCopy.Buffer.Fifo.{IsValid, kept}
use cse344system_programming.DirectoryCopy.Pool.{
  Copy, Pool, new_pool, WorkerPc, at_lock, ManagerPc, adding, Signal, rouse, wake, System, Run,
  manager_moves, worker_moves, worker_wakes, manager_wakes, Reach, start, later,
}
use cse344system_programming.DirectoryCopy.Pool.Control.{Control, Reach-Control}
use cse344system_programming.DirectoryCopy.Pool.Tally.{tally}
use cse344system_programming.DirectoryCopy.Pool.Ledger.{
  pending, held, bytes_in_hand, IsFaithful, AreFaithful, weigh_copies, weigh_buffer, weigh_pending,
  bytes_copied, worker-Balanced, manager-Balanced, worker-Writes, manager-writes, Woken-total,
  Woken-IsFaithful, update-IsFaithful,
}

-- The manager's files are all accounted for, by any weight.
pub record Ledger (r : Run) (w : FileInformation → ℕ) (s : System) : Type 0 where
  pub valid : IsValid s.pool.buffer
  pub files :
      weigh_buffer w s.pool
        + weigh_pending w s.manager
        + total (held w) s.workers r.num_workers
        + weigh_copies w s.pool
      ≡ sum_map (λ f. w (kept f)) r.files
  pub counted : s.pool.num_files_copied ≡ length s.pool.copies
  pub bytes :
      s.pool.total_bytes_copied ≡ bytes_copied s.pool + total bytes_in_hand s.workers r.num_workers
  pub faithful : (i : ℕ) → IsFaithful r.content (s.workers i)
  pub copies : AreFaithful r.content s.pool.copies

still_adding :
    {b : Bool} {n : ℕ} {p : Pool} {m : ManagerPc} (ws : ℕ → WorkerPc)
    → Control b n p m (tally ws n)
    → (p.done ≡ false) ⊎ (pending m ≡ [])
still_adding {m = m} ws c = ground (arith, c.done_iff)

held-wake : (w : FileInformation → ℕ) (pc : WorkerPc) → held w (wake pc) ≡ held w pc
held-wake w pc = ground arith

bytes-wake : (pc : WorkerPc) → bytes_in_hand (wake pc) ≡ bytes_in_hand pc
bytes-wake pc = ground arith

rouse-pending :
    (w : FileInformation → ℕ) (g : Signal) (m : ManagerPc)
    → weigh_pending w (rouse g m) ≡ weigh_pending w m
rouse-pending w g m = ground arith

module _ (r : Run) (buffer : Buffer) (v : IsValid buffer) (pos : 0 < r.num_workers)
    (fresh : buffer.count ≡ 0) where
  start-Ledger :
      (w : FileInformation → ℕ)
      → Ledger r w
          (record { pool = new_pool buffer; manager = adding r.files; workers = λ _. at_lock })
  start-Ledger w = record {
    valid = v;
    files = omega (
      arith,
      ap (λ k. sum_map w (span unwritten buffer.size buffer.cells buffer.head k)) fresh,
      sum_map_nil w,
      sum_map_nil (λ (c : Copy). w c.file),
      total-eq-zero (held w) at_lock refl r.num_workers,
    );
    counted = refl;
    bytes = omega (
      arith,
      sum_map_nil (λ (c : Copy). length c.bytes),
      total-eq-zero bytes_in_hand at_lock refl r.num_workers,
    );
    faithful = λ i. tt;
    copies = tt;
  }

  pub Reach-Ledger : (w : FileInformation → ℕ) {s : System} → Reach r buffer s → Ledger r w s
  Reach-Ledger w start = start-Ledger w
  Reach-Ledger w
        (later {s = s} run (manager_moves {p = p} {m = m} {signal = g} {ws = ws} step woken)) =
      let l : Ledger r w s = Reach-Ledger w run in
      let b =
        manager-Balanced w r.with_barrier (r.num_workers + 1) s.pool p s.manager m g
          (still_adding s.workers (Reach-Control pos fresh run)) l.valid step in
      let (bytes, copies) =
        manager-writes r.with_barrier (r.num_workers + 1) s.pool p s.manager m g step in
      record {
        valid = b.valid;
        files = omega (
          arith,
          b.files,
          l.files,
          Woken-total (held w) r.num_workers s.workers ws g refl (held-wake w) woken,
        );
        counted = omega (arith, b.counted, l.counted, ap length copies);
        bytes = omega (
          arith,
          bytes,
          l.bytes,
          ap (sum_map (λ (c : Copy). length c.bytes)) copies,
          Woken-total bytes_in_hand r.num_workers s.workers ws g refl bytes-wake woken,
        );
        faithful = Woken-IsFaithful r.content r.num_workers s.workers ws g l.faithful woken;
        copies = rw copies l.copies;
      }
  Reach-Ledger w (later {s = s} run (worker_moves i {p = p} {w = pc} {signal = g} h step)) =
      let l : Ledger r w s = Reach-Ledger w run in
      let b =
        worker-Balanced w r.with_barrier (r.num_workers + 1) r.content s.pool p (s.workers i) pc g
          l.valid step in
      let k =
        worker-Writes r.with_barrier (r.num_workers + 1) r.content s.pool p (s.workers i) pc g
          (l.faithful i) l.copies step in
      record {
        valid = b.valid;
        files = omega (
          arith,
          b.files,
          l.files,
          total-update (held w) s.workers i pc r.num_workers h,
          rouse-pending w g s.manager,
        );
        counted = omega (arith, b.counted, l.counted);
        bytes =
            omega
              (arith, k.bytes, l.bytes, total-update bytes_in_hand s.workers i pc r.num_workers h);
        faithful = update-IsFaithful r.content s.workers i pc l.faithful k.faithful;
        copies = k.copies;
      }
  Reach-Ledger w (later {s = s} run (worker_wakes i h k)) =
      let l : Ledger r w s = Reach-Ledger w run in
      record {
        valid = l.valid;
        files = omega (
          arith,
          l.files,
          total-update (held w) s.workers i at_lock r.num_workers h,
          ap (held w) k,
        );
        counted = l.counted;
        bytes = omega (
          arith,
          l.bytes,
          total-update bytes_in_hand s.workers i at_lock r.num_workers h,
          ap bytes_in_hand k,
        );
        faithful = update-IsFaithful r.content s.workers i at_lock l.faithful tt;
        copies = l.copies;
      }
  Reach-Ledger w (later {s = s} run (manager_wakes {fs = fs} k)) =
      let l : Ledger r w s = Reach-Ledger w run in
      record {
        valid = l.valid;
        files = omega (arith, l.files, ap (weigh_pending w) k);
        counted = l.counted;
        bytes = l.bytes;
        faithful = l.faithful;
        copies = l.copies;
      }
