-- ===== src/Prelude/Circle.antt =====
-- Arrays that are used in a circle: the index after the last is 0.
use native.Mathlib.Numerals.{add-one}
use native.Mathlib.Nat.{mod_self, mod-eq_of_lt}
use Prim.Native.Nat.{ℕ, zero, suc, ◌+◌, ◌-◌, ◌%◌, ◌≤◌, ◌<◌}
use mathlib.Core.Path.{◌≡◌, refl, sym, ap, ap₂, ◌∙◌}
use mathlib.Core.Logic.{◌≢◌}
use mathlib.Core.List.{List, [], ◌∷◌, ◌++◌}
use native.Mathlib.Decide.{ℕ_discrete}
use native.Mathlib.Omega.{arith}
use cse344system_programming.Prelude.Tests.{ltb, ◌==◌, if◌then◌else◌}
use cse344system_programming.Prelude.Lists.{length, get_or, set}

-- The index after `i` round a circle of `cap` cells.
abbrev pub next_index : ℕ → ℕ → ℕ
next_index cap i = if i == cap - 1 then 0 else i + 1

-- The other way to write it.
pub next_index_mod : (cap i : ℕ) → i < cap → (i + 1) % cap ≡ next_index cap i
next_index_mod cap i h = elim (ℕ_discrete (i + 1) cap) [
  | yes e ↦ ap (λ k. k % cap) e ∙ mod_self cap ∙ (ground arith)
  | no e ↦ mod-eq_of_lt {n = i + 1} {m = cap} (omega arith) ∙ ground arith
]

-- `n` steps round the circle from `i`
abbrev pub advance : ℕ → ℕ → ℕ → ℕ
advance cap i zero = i
advance cap i (suc n) = advance cap (next_index cap i) n

pub advance_lem :
    (cap i n : ℕ)
    → i < cap
    → n ≤ cap
    → advance cap i n ≡ (if ltb (i + n) cap then i + n else i + n - cap)
advance_lem cap i zero hi hn = ground arith
advance_lem cap i (suc n) hi hn = ground (arith, advance_lem cap (next_index cap i) n)

pub advance-suc : (cap i n : ℕ) → advance cap i (suc n) ≡ next_index cap (advance cap i n)
advance-suc cap i zero = refl
advance-suc cap i (suc n) = advance-suc cap (next_index cap i) n

pub advance-add-one : (cap i n : ℕ) → advance cap i (n + 1) ≡ next_index cap (advance cap i n)
advance-add-one cap i n = rw add-one (advance-suc cap i n)

-- Code tests `size == 0` where `advance` matches.
pub advance_of_ne_zero :
    (cap i n : ℕ) → n ≢ 0 → advance cap i n ≡ advance cap (next_index cap i) (n - 1)
advance_of_ne_zero cap i zero h = absurd (h refl)
advance_of_ne_zero cap i (suc n) h =
    ap (advance cap (next_index cap i)) {x = n} {y = suc n - 1} (omega arith)

-- Fewer than `cap` steps come to different cells.
pub advance-ne : (cap i a b : ℕ) → i < cap → a < b → b < cap → advance cap i a ≢ advance cap i b
advance-ne cap i a b hi hab hb e = ground (arith, advance_lem cap i a, advance_lem cap i b)

module _ {ℓ} {A : Type ℓ} (d : A) where
  pub get_or-set_self : (xs : List A) (k : ℕ) (x : A) → k < length xs → get_or (set xs k x) k d ≡ x
  get_or-set_self [] k x h = absurd (omega arith)
  get_or-set_self (y ∷ ys) zero x h = refl
  get_or-set_self (y ∷ ys) (suc k) x h = get_or-set_self ys k x (omega arith)

  pub get_or-set_ne :
      (xs : List A) (k j : ℕ) (x : A) → k ≢ j → get_or (set xs k x) j d ≡ get_or xs j d
  get_or-set_ne [] k j x h = refl
  get_or-set_ne (y ∷ ys) zero zero x h = absurd (h refl)
  get_or-set_ne (y ∷ ys) zero (suc j) x h = refl
  get_or-set_ne (y ∷ ys) (suc k) zero x h = refl
  get_or-set_ne (y ∷ ys) (suc k) (suc j) x h = get_or-set_ne ys k j x (λ e. h (ap suc e))

module _ {ℓ} {A : Type ℓ} (d : A) (cap : ℕ) where
  -- The `n` cells from index `i` on; a cell that is not there counts as `d`.
  abbrev pub span : List A → ℕ → ℕ → List A
  span cells i zero = []
  span cells i (suc n) = get_or cells i d ∷ span cells (next_index cap i) n

  pub length-span : (cells : List A) (i n : ℕ) → length (span cells i n) ≡ n
  length-span cells i zero = refl
  length-span cells i (suc n) = ap suc (length-span cells (next_index cap i) n)

  -- The span of one cell more ends in that cell.
  span-suc :
      (cells : List A) (i n : ℕ)
      → span cells i (suc n) ≡ span cells i n ++ get_or cells (advance cap i n) d ∷ []
  span-suc cells i zero = refl
  span-suc cells i (suc n) = ap (λ l. get_or cells i d ∷ l) (span-suc cells (next_index cap i) n)

  pub span-add-one :
      (cells : List A) (i n : ℕ)
      → span cells i (n + 1) ≡ span cells i n ++ get_or cells (advance cap i n) d ∷ []
  span-add-one cells i n = rw add-one (span-suc cells i n)

  span_of_ne_zero :
      (cells : List A) (i n : ℕ)
      → n ≢ 0
      → span cells i n ≡ get_or cells i d ∷ span cells (next_index cap i) (n - 1)
  span_of_ne_zero cells i zero h = absurd (h refl)
  span_of_ne_zero cells i (suc n) h = ap (λ m. span cells i (suc m)) (omega arith)

  -- A write to a cell that the span does not pass leaves the span alone.
  span-set :
      (cells : List A) (x : A) (k i n : ℕ)
      → ((j : ℕ) → j < n → advance cap i j ≢ k)
      → span (set cells k x) i n ≡ span cells i n
  span-set cells x k i zero h = refl
  span-set cells x k i (suc n) h =
      ap₂ ◌∷◌ (get_or-set_ne d cells k i x (λ e. h 0 (omega arith) (sym e)))
        (span-set cells x k (next_index cap i) n (λ j hj. h (suc j) (omega arith)))

  -- A write behind a span that leaves room makes it longer by what is written.
  pub span-set_end :
      (cells : List A) (x : A) (i n : ℕ)
      → i < cap
      → n < cap
      → length cells ≡ cap
      → span (set cells (advance cap i n) x) i (n + 1) ≡ span cells i n ++ x ∷ []
  span-set_end cells x i n hi hn e = rw span-add-one (
      ap₂ (λ l y. l ++ y ∷ [])
        (span-set cells x (advance cap i n) i n λ j hj. advance-ne cap i j n hi hj hn)
        (get_or-set_self d cells (advance cap i n) x (ground (arith, advance_lem cap i n))))

  -- The first cell of a span, whatever is then written to it, and the others.
  pub span-set_front :
      (cells : List A) (x : A) (i n : ℕ)
      → i < cap
      → n ≤ cap
      → n ≢ 0
      → span cells i n ≡ get_or cells i d ∷ span (set cells i x) (next_index cap i) (n - 1)
  span-set_front cells x i n hi hn h =
      span_of_ne_zero cells i n h
      ∙ ap (λ l. get_or cells i d ∷ l)
          (sym (
            span-set cells x i (next_index cap i) (n - 1)
              λ j hj e. advance-ne cap i 0 (suc j) hi (omega arith) (omega arith) (sym e)))

  pub span-tail :
      (cells : List A) (i n : ℕ)
      → n ≢ 0
      → span cells i n ≡ get_or cells i d ∷ span cells (next_index cap i) (n - 1)
  span-tail cells i n h = span_of_ne_zero cells i n h
