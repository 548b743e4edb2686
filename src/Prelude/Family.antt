-- ===== src/Prelude/Family.antt =====
-- Families indexed by thread: a change at one thread, and a weight summed over the first `n`.
use Prim.Native.Nat.{ℕ, zero, suc, ◌+◌, ◌*◌, ◌≤◌, ◌<◌}
use mathlib.Core.Path.{◌≡◌, refl}
use mathlib.Core.Logic.{◌≢◌, ite}
use native.Mathlib.Decide.{ℕ_discrete}
use native.Mathlib.Omega.{arith}

-- The family `f` with thread `i` moved to `a`.
abbrev pub update {ℓ} : {A : Type ℓ} → (ℕ → A) → ℕ → A → ℕ → A
update f i a j = ite (ℕ_discrete j i) a (f j)

module _ {ℓ} {A : Type ℓ} (w : A → ℕ) where
  pub total : (ℕ → A) → ℕ → ℕ
  total f zero = 0
  total f (suc n) = w (f n) + total f n

  total-update_beyond :
      (f : ℕ → A) (i : ℕ) (a : A) (n : ℕ) → n ≤ i → total (update f i a) n ≡ total f n
  unfolding total
  total-update_beyond f i a zero h = refl
  total-update_beyond f i a (suc n) h = ground (arith, total-update_beyond f i a n)

  -- Moving one thread changes the sum by the change of its weight.
  pub total-update :
      (f : ℕ → A) (i : ℕ) (a : A) (n : ℕ)
      → i < n
      → total (update f i a) n + w (f i) ≡ total f n + w a
  unfolding total
  total-update f i a zero h = absurd (omega arith)
  total-update f i a (suc n) h = elim (ℕ_discrete n i) [
    | yes e ↦ ground (arith, total-update_beyond f i a n)
    | no e ↦ ground (arith, total-update f i a n)
  ]

  pub weight-le-total : (f : ℕ → A) (i n : ℕ) → i < n → w (f i) ≤ total f n
  unfolding total
  weight-le-total f i zero h = absurd (omega arith)
  weight-le-total f i (suc n) h = elim (ℕ_discrete n i) [
    | yes e ↦ ground arith
    | no e ↦ ground (arith, weight-le-total f i n)
  ]

  -- Two threads together weigh no more than all.
  pub weights-le-total :
      (f : ℕ → A) (i j n : ℕ) → i ≢ j → i < n → j < n → w (f i) + w (f j) ≤ total f n
  unfolding total
  weights-le-total f i j zero d hi hj = absurd (omega arith)
  weights-le-total f i j (suc n) d hi hj = elim (ℕ_discrete n i) [
    | yes e ↦ ground (arith, weight-le-total f j n)
    | no e ↦ elim (ℕ_discrete n j) [
      | yes e' ↦ ground (arith, weight-le-total f i n)
      | no e' ↦ ground (arith, weights-le-total f i j n d)
    ]
  ]

  pub total-eq-zero : (a : A) → w a ≡ 0 → (n : ℕ) → total (λ _. a) n ≡ 0
  unfolding total
  total-eq-zero a h zero = refl
  total-eq-zero a h (suc n) = omega (arith, total-eq-zero a h n)

  pub total_of_zeros : (f : ℕ → A) (n : ℕ) → ((j : ℕ) → j < n → w (f j) ≡ 0) → total f n ≡ 0
  unfolding total
  total_of_zeros f zero h = refl
  total_of_zeros f (suc n) h =
      omega (arith, h n (omega arith), total_of_zeros f n (λ j hj. h j (omega arith)))

  -- A change of every thread that no weight sees.
  pub total-map :
      (g : A → A)
      → ((a : A) → w (g a) ≡ w a)
      → (f : ℕ → A) (n : ℕ) → total (λ i. g (f i)) n ≡ total f n
  unfolding total
  total-map g h f zero = refl
  total-map g h f (suc n) = omega (arith, h (f n), total-map g h f n)

  pub total_of_ones : (f : ℕ → A) (n : ℕ) → ((j : ℕ) → j < n → w (f j) ≡ 1) → total f n ≡ n
  unfolding total
  total_of_ones f zero h = refl
  total_of_ones f (suc n) h =
      omega (arith, h n (omega arith), total_of_ones f n (λ j hj. h j (omega arith)))

-- Two weights that make up one count the threads.
pub total_complement {ℓ} :
    {A : Type ℓ} (w v : A → ℕ)
    → ((a : A) → w a + v a ≡ 1)
    → (f : ℕ → A) (n : ℕ) → total w f n + total v f n ≡ n
unfolding total
total_complement w v h f zero = refl
total_complement w v h f (suc n) = omega (arith, h (f n), total_complement w v h f n)

-- A sum is no more than one whose weights are no less.
pub total-le {ℓ} :
    {A : Type ℓ} (w v : A → ℕ) (f : ℕ → A) (n : ℕ)
    → ((i : ℕ) → w (f i) ≤ v (f i))
    → total w f n ≤ total v f n
unfolding total
total-le w v f zero h = omega arith
total-le w v f (suc n) h = omega (arith, total-le w v f n h, h n)

-- Where each weight grows by one at most, the sum grows by the number of threads at most.
pub total-le_add_one {ℓ} :
    {A : Type ℓ} (w : A → ℕ) (f g : ℕ → A) (n : ℕ)
    → ((i : ℕ) → w (g i) ≤ w (f i) + 1)
    → total w g n ≤ total w f n + n
unfolding total
total-le_add_one w f g zero h = omega arith
total-le_add_one w f g (suc n) h = omega (arith, total-le_add_one w f g n h, h n)

pub total_of_constant {ℓ} :
    {A : Type ℓ} (w : A → ℕ) (a : A) (k : ℕ) → w a ≡ k → (n : ℕ) → total w (λ _. a) n ≡ k * n
unfolding total
total_of_constant w a k e zero = grind arith
total_of_constant w a k e (suc n) = grind (arith, total_of_constant w a k e n)
