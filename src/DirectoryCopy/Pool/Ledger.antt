-- ===== src/DirectoryCopy/Pool/Ledger.antt =====
-- Every file is somewhere: with the manager, in the buffer, with a worker, or copied.
use mathlib.Core.Logic.{if_pos, if_neg}
use cse344system_programming.Prelude.{
  append-nil, ℕ_discrete, ℕ, ◌+◌, ◌≡◌, ◌≢◌, refl, ap, ◌∙◌, ◌⊎◌, Bool, false, some, List, [], ◌∷◌,
  ◌++◌, arith, update, total, total-update, total-map, All, length, length-append, take, drop,
  take-append-drop, append_assoc, sum_map, sum_map_cons, sum_map_nil, sum_map-append,
}
use cse344system_programming.DirectoryCopy.Buffer.{FileInformation, Buffer, buffer_add, buffer_get}
use cse344system_programming.DirectoryCopy.Buffer.Fifo.{
  IsValid, contents, kept, buffer_add_lem, buffer_get_lem,
}
use cse344system_programming.DirectoryCopy.Pool.{
  Copy, Pool, WorkerPc, at_lock, asleep, copying, copied, at_barrier, left, ManagerPc, adding,
  sleeping, Signal, silent, to_worker, to_workers, to_manager, manager_step, worker_step, wake,
  Woken, nobody, one, unheard, all, bufsize,
}

-- The files that the manager has still to hand on.
abbrev pub pending : ManagerPc → List FileInformation
pending (adding fs) = fs
pending (sleeping fs) = fs
pending _ = []

-- A weight of the file that a worker has in hand.
abbrev pub held : (FileInformation → ℕ) → WorkerPc → ℕ
held w (copying f written rest) = w f
held w (copied f written) = w f
held w _ = 0

-- The bytes of it that are written.
abbrev pub bytes_in_hand : WorkerPc → ℕ
bytes_in_hand (copying f written rest) = length written
bytes_in_hand (copied f written) = length written
bytes_in_hand _ = 0

-- What a worker has written and what is left make up the source.
abbrev pub IsFaithful : (FileInformation → List ℕ) → WorkerPc → Type 0
IsFaithful content (copying f written rest) = written ++ rest ≡ content f
IsFaithful content (copied f written) = written ≡ content f
IsFaithful content _ = Unit {0}

abbrev pub AreFaithful : (FileInformation → List ℕ) → List Copy → Type 0
AreFaithful content copies = All (λ c. c.bytes ≡ content c.file) copies

module _ (w : FileInformation → ℕ) where
  abbrev pub weigh_copies : Pool → ℕ
  weigh_copies p = sum_map (λ c. w c.file) p.copies

  abbrev pub weigh_buffer : Pool → ℕ
  weigh_buffer p = sum_map w (contents p.buffer)

  abbrev pub weigh_pending : ManagerPc → ℕ
  weigh_pending m = sum_map (λ f. w (kept f)) (pending m)

  weigh-get :
      (b : Buffer)
      → IsValid b
      → b.count ≢ 0
      → sum_map w (contents b) ≡ w (buffer_get b).0 + sum_map w (contents (buffer_get b).1)
  weigh-get b v h =
      ap (sum_map w) (buffer_get_lem b v h).1
      ∙ sum_map_cons w (buffer_get b).0 (contents (buffer_get b).1)

  weigh-add :
      (b : Buffer) (f : FileInformation)
      → IsValid b
      → b.count ≢ b.size
      → sum_map w (contents (buffer_add b f)) ≡ sum_map w (contents b) + w (kept f)
  weigh-add b f v h =
      ap (sum_map w) (buffer_add_lem b v f h).1
      ∙ sum_map-append w (contents b) (kept f ∷ [])
      ∙ ap (λ k. sum_map w (contents b) + k)
          (sum_map_cons w (kept f) [] ∙ omega (arith, sum_map_nil w))

-- What no step changes in sum, for a pool with a manager.
pub record Balanced (w : FileInformation → ℕ) (p p' : Pool) (before after : ℕ) : Type 0 where
  pub valid : IsValid p'.buffer
  pub files :
      weigh_buffer w p' + after + weigh_copies w p' ≡ weigh_buffer w p + before + weigh_copies w p
  pub counted : p'.num_files_copied + length p.copies ≡ p.num_files_copied + length p'.copies

pub worker-Balanced :
    (w : FileInformation → ℕ) (b : Bool) (n : ℕ) (content : FileInformation → List ℕ) (p p' : Pool)
    (pc pc' : WorkerPc) (signal : Signal)
    → IsValid p.buffer
    → worker_step b n content p pc ≡ some (p', pc', signal)
    → Balanced w p p' (held w pc) (held w pc')
unfolding worker_step
worker-Balanced w b n content p p' at_lock pc' signal v e =
    ground (arith, buffer_get_lem p.buffer v, weigh-get w p.buffer v)
worker-Balanced w b n content p p' (copying f written []) pc' signal v e = ground arith
worker-Balanced w b n content p p' (copying f written (c ∷ rest)) pc' signal v e = ground arith
worker-Balanced w b n content p p' (copied f written) pc' signal v e =
    ground
      (arith, sum_map_cons (λ (c : Copy). w c.file) (record { file = f; bytes = written }) p.copies)
worker-Balanced w b n content p p' pc pc' signal v e = ground arith

pub manager-Balanced :
    (w : FileInformation → ℕ) (b : Bool) (n : ℕ) (p p' : Pool) (m m' : ManagerPc) (signal : Signal)
    → p.done ≡ false ⊎ (pending m ≡ [])
    → IsValid p.buffer
    → manager_step b n p m ≡ some (p', m', signal)
    → Balanced w p p' (weigh_pending w m) (weigh_pending w m')
unfolding manager_step
manager-Balanced w b n p p' (adding []) m' signal d v e = ground arith
manager-Balanced w b n p p' (adding (f ∷ fs)) m' signal d v e = ground (
  arith,
  buffer_add_lem p.buffer v f,
  weigh-add w p.buffer f v,
  sum_map_cons (λ g. w (kept g)) f fs,
)
manager-Balanced w b n p p' m m' signal d v e = ground arith

abbrev pub bytes_copied : Pool → ℕ
bytes_copied p = sum_map (λ c. length c.bytes) p.copies

pub record Writes (content : FileInformation → List ℕ) (p p' : Pool) (pc pc' : WorkerPc)
    : Type 0 where
  pub bytes :
      p'.total_bytes_copied + bytes_copied p + bytes_in_hand pc
      ≡ p.total_bytes_copied + bytes_copied p' + bytes_in_hand pc'
  pub faithful : IsFaithful content pc'
  pub copies : AreFaithful content p'.copies

pub worker-Writes :
    (b : Bool) (n : ℕ) (content : FileInformation → List ℕ) (p p' : Pool) (pc pc' : WorkerPc)
    (signal : Signal)
    → IsFaithful content pc
    → AreFaithful content p.copies
    → worker_step b n content p pc ≡ some (p', pc', signal)
    → Writes content p p' pc pc'
unfolding worker_step
worker-Writes b n content p p' at_lock pc' signal h k e = ground arith
worker-Writes b n content p p' (copying f written []) pc' signal h k e =
    ground (arith, append-nil written)
worker-Writes b n content p p' (copying f written (c ∷ rest)) pc' signal h k e = ground (
  arith,
  length-append written (take bufsize (c ∷ rest)),
  append_assoc written (take bufsize (c ∷ rest)) (drop bufsize (c ∷ rest)),
  take-append-drop bufsize (c ∷ rest),
)
worker-Writes b n content p p' (copied f written) pc' signal h k e = ground (
  arith,
  sum_map_cons (λ (c : Copy). length c.bytes) (record { file = f; bytes = written }) p.copies,
)
worker-Writes b n content p p' pc pc' signal h k e = ground arith

pub manager-writes :
    (b : Bool) (n : ℕ) (p p' : Pool) (m m' : ManagerPc) (signal : Signal)
    → manager_step b n p m ≡ some (p', m', signal)
    → (p'.total_bytes_copied ≡ p.total_bytes_copied) × (p'.copies ≡ p.copies)
unfolding manager_step
manager-writes b n p p' (adding []) m' signal e = ground arith
manager-writes b n p p' m m' signal e = ground arith

-- A call of the manager's changes no weight that is the same asleep and at the lock.
pub Woken-total :
    (v : WorkerPc → ℕ) (n : ℕ) (ws ws' : ℕ → WorkerPc) (signal : Signal)
    → v asleep ≡ v at_lock
    → ((w : WorkerPc) → v (wake w) ≡ v w)
    → Woken n ws signal ws'
    → total v ws' n ≡ total v ws n
Woken-total v n ws ws' silent h k nobody = refl
Woken-total v n ws ws' to_worker h k (one j lt e) =
    omega (arith, total-update v ws j at_lock n lt, ap v e)
Woken-total v n ws ws' to_worker h k (unheard _) = refl
Woken-total v n ws ws' to_manager h k x = elim x [ ]
Woken-total v n ws ws' to_workers h k all = total-map v wake k ws n

pub update-IsFaithful :
    (content : FileInformation → List ℕ) (ws : ℕ → WorkerPc) (j : ℕ) (w : WorkerPc)
    → ((i : ℕ) → IsFaithful content (ws i))
    → IsFaithful content w
    → (i : ℕ) → IsFaithful content (update ws j w i)
update-IsFaithful content ws j w h k i = elim (ℕ_discrete i j) [
  | yes e ↦ rw (if_pos (ℕ_discrete i j) e) k
  | no e ↦ rw (if_neg (ℕ_discrete i j) e) (h i)
]

wake-IsFaithful :
    (content : FileInformation → List ℕ) (w : WorkerPc)
    → IsFaithful content w
    → IsFaithful content (wake w)
wake-IsFaithful content asleep h = tt
wake-IsFaithful content at_lock h = tt
wake-IsFaithful content (copying f a b) h = h
wake-IsFaithful content (copied f a) h = h
wake-IsFaithful content at_barrier h = tt
wake-IsFaithful content left h = tt

pub Woken-IsFaithful :
    (content : FileInformation → List ℕ) (n : ℕ) (ws ws' : ℕ → WorkerPc) (signal : Signal)
    → ((i : ℕ) → IsFaithful content (ws i))
    → Woken n ws signal ws'
    → (i : ℕ) → IsFaithful content (ws' i)
Woken-IsFaithful content n ws ws' silent h nobody i = h i
Woken-IsFaithful content n ws ws' to_worker h (one j lt e) i =
    update-IsFaithful content ws j at_lock h tt i
Woken-IsFaithful content n ws ws' to_worker h (unheard _) i = h i
Woken-IsFaithful content n ws ws' to_manager h x i = elim x [ ]
Woken-IsFaithful content n ws ws' to_workers h all i = wake-IsFaithful content (ws i) (h i)
