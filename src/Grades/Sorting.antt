-- ===== src/Grades/Sorting.antt =====
-- The bubble sort of Homework1/main.c: `sortByGrade`, and `bubbleSort` over lines of text.
pub mod Order
pub mod Sorted
mod Tests
use Prim.Native.Nat.{Ordering}
use cse344system_programming.Prelude.{
  ℕ, zero, suc, ◌+◌, ◌-◌, ◌==◌, if◌then◌else◌, Bool, true, false, List, [], ◌∷◌, length, strcmp,
}

-- `Student`, with the bytes before the terminators of its fields. Whether they fit their arrays is told where
-- they are written, in Reports.
pub record Student : Type 0 where
  pub name : List ℕ
  pub grade : List ℕ

module _ {ℓ} {A : Type ℓ} (gt : A → A → Bool) where
  -- The inner loop with the rounds left: neighbours are compared from the front and swapped where the
  -- first is greater.
  unfoldable pub bubble_pass : ℕ → List A → List A
  bubble_pass zero xs = xs
  bubble_pass (suc rounds) [] = []
  bubble_pass (suc rounds) (x ∷ []) = x ∷ []
  bubble_pass (suc rounds) (x ∷ y ∷ xs) =
      if gt x y then y ∷ bubble_pass rounds (x ∷ xs) else x ∷ bubble_pass rounds (y ∷ xs)

  -- The outer loop; the inner loop of the round with `rounds` left compares that many pairs.
  unfoldable pub bubble_rounds : ℕ → List A → List A
  unfolding bubble_pass
  bubble_rounds zero xs = xs
  bubble_rounds (suc rounds) xs = bubble_rounds rounds (bubble_pass (suc rounds) xs)

  unfoldable pub bubble_sort : List A → List A
  unfolding bubble_rounds
  bubble_sort xs = bubble_rounds (length xs - 1) xs

abbrev pub is_gt : Ordering → Bool
is_gt Ordering.gt = true
is_gt _ = false

abbrev pub is_lt : Ordering → Bool
is_lt Ordering.lt = true
is_lt _ = false

-- The test for a swap in `sortByGrade`, by the flag.
abbrev pub out_of_order : (flag : ℕ) → Student → Student → Bool
out_of_order flag a b =
    if flag == 1
    then is_gt (strcmp a.grade b.grade)
    else if flag == 0
    then is_lt (strcmp a.grade b.grade)
    else false

-- `sortByGrade`: the flag 1 sorts upwards, 0 downwards.
unfoldable pub sort_by_grade : List Student → (flag : ℕ) → List Student
unfolding bubble_sort
sort_by_grade students flag = bubble_sort (out_of_order flag) students
