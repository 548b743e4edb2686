-- ===== src/Grades/Sorting/Sorted.antt =====
-- Bubble sort sorts, and keeps the elements.
use mathlib.Core.List.{Perm}
use mathlib.Core.List.Perm
use cse344system_programming.Prelude.{
  ℕ, zero, suc, ◌-◌, ◌≡◌, refl, ap, ◌∙◌, subst, Bool, true, false, List, [], ◌∷◌, ◌++◌, append-nil,
  All, length, arith, Bool-cases, inl, inr,
}
use cse344system_programming.Grades.Sorting.{
  Student, bubble_pass, bubble_rounds, bubble_sort, out_of_order, sort_by_grade,
}
use cse344system_programming.Grades.Sorting.Order.{IsOrder, IsSorted, out_of_order-IsOrder}

All-map {ℓ ℓ' ℓ''} :
    {A : Type ℓ} {P : A → Type ℓ'} {Q : A → Type ℓ''} (xs : List A)
    → ((x : A) → P x → Q x)
    → All P xs
    → All Q xs
All-map [] f h = tt
All-map (x ∷ xs) f (p, h) = (f x p, All-map xs f h)

module _ {ℓ} {A : Type ℓ} (gt : A → A → Bool) where
  bubble_pass-perm : (n : ℕ) (xs : List A) → Perm (bubble_pass gt n xs) xs
  unfolding bubble_pass
  bubble_pass-perm zero xs = Perm.refl xs
  bubble_pass-perm (suc n) [] = Perm.refl []
  bubble_pass-perm (suc n) (x ∷ []) = Perm.refl (x ∷ [])
  bubble_pass-perm (suc n) (x ∷ y ∷ xs) = elim (Bool-cases (gt x y)) [
    | inl e ↦ rw e (Perm.trans (Perm.cons y (bubble_pass-perm n (x ∷ xs))) (Perm.swap x y xs))
    | inr e ↦ rw e (Perm.cons x (bubble_pass-perm n (y ∷ xs)))
  ]

  bubble_rounds-perm : (n : ℕ) (xs : List A) → Perm (bubble_rounds gt n xs) xs
  unfolding bubble_rounds
  bubble_rounds-perm zero xs = Perm.refl xs
  bubble_rounds-perm (suc n) xs =
      Perm.trans (bubble_rounds-perm n (bubble_pass gt (suc n) xs)) (bubble_pass-perm (suc n) xs)

  pub bubble_sort-perm : (xs : List A) → Perm (bubble_sort gt xs) xs
  unfolding bubble_sort
  bubble_sort-perm xs = bubble_rounds-perm (length xs - 1) xs

  -- `x` may stand before `z`
  abbrev Below : A → A → Type 0
  Below z x = gt x z ≡ false

  -- A pass of `length ys` rounds over `x ∷ ys` moves a greatest element behind the others, in front of
  -- what follows.
  record Passed (x : A) (ys zs out : List A) : Type ℓ where
    front : List A
    last : A
    split : out ≡ front ++ last ∷ zs
    same : length front ≡ length ys
    greatest : All (Below last) front
    top : gt x last ≡ false
    keeps : (z : A) → All (Below z) (x ∷ ys) → All (Below z) front × Below z last

  module _ (order : IsOrder gt) where
    self : (x : A) → gt x x ≡ false
    self x = elim (Bool-cases (gt x x)) [ inl e ↦ order.flip x x e | inr e ↦ e ]

    Passed-swap :
        (x y : A) (ys zs out : List A)
        → gt x y ≡ true
        → Passed x ys zs out
        → Passed x (y ∷ ys) zs (y ∷ out)
    Passed-swap x y ys zs out e p = record {
      front = y ∷ p.front;
      last = p.last;
      split = ap (λ l. y ∷ l) p.split;
      same = ap suc p.same;
      greatest = (order.trans y x p.last (order.flip x y e) p.top, p.greatest);
      top = p.top;
      keeps = λ z h. let (front, last) = p.keeps z (h.0, h.1.1) in ((h.1.0, front), last);
    }

    Passed-stay :
        (x y : A) (ys zs out : List A)
        → gt x y ≡ false
        → Passed y ys zs out
        → Passed x (y ∷ ys) zs (x ∷ out)
    Passed-stay x y ys zs out e p =
        let below : gt x p.last ≡ false = order.trans x y p.last e p.top in
        record {
          front = x ∷ p.front;
          last = p.last;
          split = ap (λ l. x ∷ l) p.split;
          same = ap suc p.same;
          greatest = (below, p.greatest);
          top = below;
          keeps = λ z h. let (front, last) = p.keeps z h.1 in ((h.0, front), last);
        }

    bubble_pass-Passed :
        (x : A) (ys zs : List A) → Passed x ys zs (bubble_pass gt (length ys) (x ∷ ys ++ zs))
    unfolding bubble_pass
    bubble_pass-Passed x [] zs = record {
      front = [];
      last = x;
      split = refl;
      same = refl;
      greatest = tt;
      top = self x;
      keeps = λ z h. (tt, h.0);
    }
    bubble_pass-Passed x (y ∷ ys) zs = elim (Bool-cases (gt x y)) [
      | inl e ↦ rw e (Passed-swap x y ys zs _ e (bubble_pass-Passed x ys zs))
      | inr e ↦ rw e (Passed-stay x y ys zs _ e (bubble_pass-Passed y ys zs))
    ]

    -- The rounds sort what is before a sorted rest that nothing before it exceeds.
    bubble_rounds-IsSorted :
        (n : ℕ) (xs zs : List A)
        → length xs ≡ suc n
        → IsSorted gt zs
        → All (λ z. All (Below z) xs) zs
        → IsSorted gt (bubble_rounds gt n (xs ++ zs))
    unfolding bubble_rounds
    bubble_rounds-IsSorted n [] zs e s h = absurd (omega (arith, e))
    bubble_rounds-IsSorted zero (x ∷ []) zs e s h = (All-map zs (λ z b. b.0) h, s)
    bubble_rounds-IsSorted zero (x ∷ y ∷ ys) zs e s h = absurd (omega (arith, e))
    bubble_rounds-IsSorted (suc n) (x ∷ ys) zs e s h =
        let m : length ys ≡ suc n = omega (arith, e) in
        let p : Passed x ys zs (bubble_pass gt (suc n) (x ∷ ys ++ zs)) =
          rw m at (bubble_pass-Passed x ys zs) in
        rw p.split (
          bubble_rounds-IsSorted n p.front (p.last ∷ zs) (p.same ∙ m)
            (All-map zs (λ z b. (p.keeps z b).1) h, s)
            (p.greatest, All-map zs (λ z b. (p.keeps z b).0) h))

    pub bubble_sort-IsSorted : (xs : List A) → IsSorted gt (bubble_sort gt xs)
    unfolding bubble_sort bubble_rounds
    bubble_sort-IsSorted [] = tt
    bubble_sort-IsSorted (x ∷ xs) =
        let n : length (x ∷ xs) - 1 ≡ length xs = omega arith in
        rw n (
          subst (λ l. IsSorted gt (bubble_rounds gt (length xs) l)) (append-nil (x ∷ xs))
            (bubble_rounds-IsSorted (length xs) (x ∷ xs) [] refl tt tt))

-- `sortByGrade` returns the students that it was given, in the order of their grades: upwards for the
-- flag 1, downwards for the flag 0.
pub sort_by_grade-IsSorted :
    (students : List Student) (flag : ℕ)
    → IsSorted (out_of_order flag) (sort_by_grade students flag)
      × Perm (sort_by_grade students flag) students
unfolding sort_by_grade bubble_sort
sort_by_grade-IsSorted students flag = (
  bubble_sort-IsSorted (out_of_order flag) (out_of_order-IsOrder flag) students,
  bubble_sort-perm (out_of_order flag) students,
)
