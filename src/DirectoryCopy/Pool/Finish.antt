-- ===== src/DirectoryCopy/Pool/Finish.antt =====
-- The end of a run of Homework4 or Homework5.
use cse344system_programming.Prelude.{
  ℕ, ◌<◌, ◌≡◌, ap, true, List, [], ◌∷◌, arith, total, weight-le-total, total_of_zeros,
  total_of_ones, total_complement, length, sum_map, sum_map_cons, sum_map_nil, sum_map_one, span,
}
use cse344system_programming.DirectoryCopy.Buffer.{FileInformation, Buffer, unwritten}
use cse344system_programming.DirectoryCopy.Buffer.Fifo.{IsValid, kept}
use cse344system_programming.DirectoryCopy.Pool.{Copy, Pool, WorkerPc, left, System, Run, Reach}
use cse344system_programming.DirectoryCopy.Pool.Control.{
  Control, AtBarrier, Reach-Control, gone_or_in,
}
use cse344system_programming.DirectoryCopy.Pool.Tally.{
  has_gone, is_in, has_left, manager_gone, tally,
}
use cse344system_programming.DirectoryCopy.Pool.Ledger.{
  held, bytes_in_hand, AreFaithful, weigh_copies, weigh_pending,
}
use cse344system_programming.DirectoryCopy.Pool.Outcome.{Ledger, Reach-Ledger}

gone-held :
    (w : FileInformation → ℕ) (pc : WorkerPc)
    → has_gone pc ≡ 1
    → (held w pc ≡ 0) × (bytes_in_hand pc ≡ 0)
gone-held w pc h = ground arith

pub bytes_of_faithful :
    (content : FileInformation → List ℕ) (copies : List Copy)
    → AreFaithful content copies
    → sum_map (λ c. length c.bytes) copies ≡ sum_map (λ c. length (content c.file)) copies
bytes_of_faithful content [] h = omega (
  arith,
  sum_map_nil (λ (c : Copy). length c.bytes),
  sum_map_nil (λ (c : Copy). length (content c.file)),
)
bytes_of_faithful content (c ∷ copies) h = omega (
  arith,
  ap length h.0,
  bytes_of_faithful content copies h.1,
  sum_map_cons (λ (c : Copy). length c.bytes) c copies,
  sum_map_cons (λ (c : Copy). length (content c.file)) c copies,
)

sum_map_copies : (copies : List Copy) → sum_map (λ (c : Copy). 1) copies ≡ length copies
sum_map_copies copies = sum_map_one copies

-- What a run has done when all is copied.
pub record Complete (r : Run) (p : Pool) : Type 0 where
  -- each file as often as the manager handed it on, by any weight
  pub each : (w : FileInformation → ℕ) → weigh_copies w p ≡ sum_map (λ f. w (kept f)) r.files
  pub count : p.num_files_copied ≡ length r.files
  pub total_bytes : p.total_bytes_copied ≡ sum_map (λ f. length (r.content (kept f))) r.files
  pub faithful : AreFaithful r.content p.copies

module _ (r : Run) (buffer : Buffer) (v : IsValid buffer) (pos : 0 < r.num_workers)
    (fresh : buffer.count ≡ 0) {s : System} (run : Reach r buffer s) where
  control : Control r.with_barrier r.num_workers s.pool s.manager (tally s.workers r.num_workers)
  control = Reach-Control pos fresh run

  ledger : (w : FileInformation → ℕ) → Ledger r w s
  ledger w = Reach-Ledger r buffer v pos fresh w run

  weighed :
      (w : FileInformation → ℕ)
      → ((i : ℕ) → i < r.num_workers → has_gone (s.workers i) ≡ 1)
      → weigh_copies w s.pool ≡ sum_map (λ f. w (kept f)) r.files
  weighed w gone =
      let all_gone : total has_gone s.workers r.num_workers ≡ r.num_workers =
        total_of_ones has_gone s.workers r.num_workers gone in
      let empty : s.pool.buffer.count ≡ 0 = ground (arith, control.gone_late, all_gone, pos) in
      let done : manager_gone s.manager ≡ 1 =
        ground (arith, control.gone_late, control.done_iff, all_gone, pos) in
      let nothing_pending : weigh_pending w s.manager ≡ 0 =
        ground (arith, done, sum_map_nil (λ f. w (kept f))) in
      omega (
        arith,
        (ledger w).files,
        nothing_pending,
        ap
            (λ k.
              sum_map w
                (span unwritten s.pool.buffer.size s.pool.buffer.cells s.pool.buffer.head k))
            empty,
        sum_map_nil w,
        total_of_zeros (held w) s.workers r.num_workers
            (λ j h. (gone-held w (s.workers j) (gone j h)).0),
      )

  -- In a state reached with a worker at least from a valid buffer that is empty: when all workers have gone,
  -- each file that the manager handed on is copied once, with the bytes of its source, and the counts of
  -- files and bytes are theirs.
  pub all_copied : ((i : ℕ) → i < r.num_workers → has_gone (s.workers i) ≡ 1) → Complete r s.pool
  all_copied gone = record {
    each = λ w. weighed w gone;
    count = omega (
      arith,
      (ledger (λ _. 1)).counted,
      weighed (λ _. 1) gone,
      sum_map_copies s.pool.copies,
      sum_map_one r.files,
    );
    total_bytes = omega (
      arith,
      (ledger (λ _. 1)).bytes,
      bytes_of_faithful r.content s.pool.copies (ledger (λ _. 1)).copies,
      weighed (λ f. length (r.content f)) gone,
      total_of_zeros bytes_in_hand s.workers r.num_workers
          (λ j h. (gone-held (λ _. 1) (s.workers j) (gone j h)).1),
    );
    faithful = (ledger (λ _. 1)).copies;
  }

  -- The barrier of Homework5, in a state reached with a worker at least from a valid buffer that is empty:
  -- when a worker has left, every worker has gone to it.
  pub barrier_holds :
      (i j : ℕ)
      → r.with_barrier ≡ true
      → i < r.num_workers
      → j < r.num_workers
      → s.workers i ≡ left
      → has_gone (s.workers j) ≡ 1
  barrier_holds i j b hi hj e =
      let c : AtBarrier true r.num_workers s.pool s.manager (tally s.workers r.num_workers) =
        rw b at control.barrier in
      ground (
        arith,
        c,
        weight-le-total has_left s.workers i r.num_workers hi,
        weight-le-total is_in s.workers j r.num_workers hj,
        total_complement has_gone is_in gone_or_in s.workers r.num_workers,
      )
