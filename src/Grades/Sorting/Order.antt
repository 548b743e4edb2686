-- ===== src/Grades/Sorting/Order.antt =====
-- An order by a Boolean test for "greater", sorted lists, and the orders by grade.

use cse344system_programming.Prelude.{
  ℕ, ◌≡◌, refl, Bool, true, false, List, [], ◌∷◌, All, arith, strcmp, ◌==◌, if◌then◌else◌,
}
use cse344system_programming.Grades.Sorting.{is_gt, is_lt, Student, out_of_order}

module _ {ℓ} {A : Type ℓ} where
  -- The test is a total preorder: `gt a b ≡ false` says that `a` may stand before `b`.
  pub record IsOrder (gt : A → A → Bool) : Type ℓ where
    pub flip : (a b : A) → gt a b ≡ true → gt b a ≡ false
    pub trans : (a b c : A) → gt a b ≡ false → gt b c ≡ false → gt a c ≡ false

  -- No element is greater than a later one.
  abbrev pub IsSorted : (A → A → Bool) → List A → Type ℓ
  IsSorted gt [] = Unit
  IsSorted gt (x ∷ xs) = All (λ y. gt x y ≡ false) xs × IsSorted gt xs

is_lt-strcmp : (a b : List ℕ) → is_lt (strcmp a b) ≡ is_gt (strcmp b a)
unfolding strcmp
is_lt-strcmp [] [] = refl
is_lt-strcmp [] (y ∷ ys) = refl
is_lt-strcmp (x ∷ xs) [] = refl
is_lt-strcmp (x ∷ xs) (y ∷ ys) = ground (arith, is_lt-strcmp xs ys)

pub is_gt-strcmp_flip : (a b : List ℕ) → is_gt (strcmp a b) ≡ true → is_gt (strcmp b a) ≡ false
unfolding strcmp
is_gt-strcmp_flip [] [] h = refl
is_gt-strcmp_flip [] (y ∷ ys) h = ground arith
is_gt-strcmp_flip (x ∷ xs) [] h = refl
is_gt-strcmp_flip (x ∷ xs) (y ∷ ys) h = ground (arith, is_gt-strcmp_flip xs ys)

pub is_gt-strcmp_trans :
    (a b c : List ℕ)
    → is_gt (strcmp a b) ≡ false
    → is_gt (strcmp b c) ≡ false
    → is_gt (strcmp a c) ≡ false
unfolding strcmp
is_gt-strcmp_trans [] b [] h k = refl
is_gt-strcmp_trans [] b (z ∷ zs) h k = refl
is_gt-strcmp_trans (x ∷ xs) [] c h k = ground arith
is_gt-strcmp_trans (x ∷ xs) (y ∷ ys) [] h k = ground arith
is_gt-strcmp_trans (x ∷ xs) (y ∷ ys) (z ∷ zs) h k = ground (arith, is_gt-strcmp_trans xs ys zs)

upward : IsOrder (λ (a b : Student). is_gt (strcmp a.grade b.grade))
upward = record {
  flip = λ a b. is_gt-strcmp_flip a.grade b.grade;
  trans = λ a b c. is_gt-strcmp_trans a.grade b.grade c.grade;
}

downward : IsOrder (λ (a b : Student). is_lt (strcmp a.grade b.grade))
downward = record {
  flip = λ a b h. ground (
    arith,
    is_lt-strcmp a.grade b.grade,
    is_lt-strcmp b.grade a.grade,
    is_gt-strcmp_flip b.grade a.grade,
  );
  trans = λ a b c h k. ground (
    arith,
    is_lt-strcmp a.grade b.grade,
    is_lt-strcmp b.grade c.grade,
    is_lt-strcmp a.grade c.grade,
    is_gt-strcmp_trans c.grade b.grade a.grade,
  );
}

by_tests :
    (up down : Bool)
    → IsOrder (λ (a b : Student).
      if up
      then is_gt (strcmp a.grade b.grade)
      else if down
      then is_lt (strcmp a.grade b.grade)
      else false)
by_tests true down = upward
by_tests false true = downward
by_tests false false = record { flip = λ a b h. refl; trans = λ a b c h k. refl }

pub out_of_order-IsOrder : (flag : ℕ) → IsOrder (out_of_order flag)
out_of_order-IsOrder flag = by_tests (flag == 1) (flag == 0)
