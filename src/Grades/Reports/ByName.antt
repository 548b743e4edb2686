-- ===== src/Grades/Reports/ByName.antt =====
-- The reports by name of Homework1/main.c on a file of lines.

use mathlib.Core.List.{Perm, perm_middle}
use mathlib.Core.List.Perm
use cse344system_programming.Prelude.{
  ℕ, zero, suc, ◌<◌, ◌≤◌, ◌≡◌, refl, sym, ap, ◌∙◌, subst, Bool, Option, some, List, [], ◌∷◌, ◌++◌,
  length, append-nil, take, drop, drop_all, take_all, c_string, All, arith,
}
use cse344system_programming.Grades.Sorting.{Student, is_gt}
use cse344system_programming.Grades.Sorting.Order.{
  IsOrder, IsSorted, is_gt-strcmp_flip, is_gt-strcmp_trans,
}
use cse344system_programming.Grades.Paging.{tokens_in, written_lines}
use cse344system_programming.Grades.Paging.Tokens.{
  IsLine, tokens_in-written_lines, length-written_lines,
}
use cse344system_programming.Grades.Reports.{
  Compare, report_size, push_all, node_rounds, ascending_name_compare, descending_name_compare,
  sort_name, sort_all,
}

-- The test that a comparison makes.
abbrev pub greater : Compare → List ℕ → List ℕ → Bool
greater compare a b = is_gt (compare a b)

-- qsort by a comparison that is an order returns the elements in this order.
abbrev pub IsQsort : (Compare → List (List ℕ) → List (List ℕ)) → Type 0
IsQsort qsort =
    (compare : Compare) (xs : List (List ℕ))
    → IsOrder (greater compare)
    → IsSorted (greater compare) (qsort compare xs) × Perm (qsort compare xs) xs

pub ascending-IsOrder : IsOrder (greater ascending_name_compare)
ascending-IsOrder = record { flip = is_gt-strcmp_flip; trans = is_gt-strcmp_trans }

pub descending-IsOrder : IsOrder (greater descending_name_compare)
descending-IsOrder = record {
  flip = λ a b. is_gt-strcmp_flip b a;
  trans = λ a b c h k. is_gt-strcmp_trans c b a k h;
}

push_all-perm : (ts ns : List (List ℕ)) → Perm (push_all ts ns) (ts ++ ns)
unfolding push_all
push_all-perm [] ns = Perm.refl ns
push_all-perm (t ∷ ts) ns = Perm.trans (push_all-perm ts (t ∷ ns)) (perm_middle ts ns)

tokens_in-ended :
    (ls : List (List ℕ)) → All IsLine ls → tokens_in (written_lines ls ++ (0 ∷ [])) ≡ ls
unfolding c_string
tokens_in-ended ls h =
    let (others, tokens, ended) = tokens_in-written_lines ls (0 ∷ []) h in
    rw (tokens, ended refl) (append-nil ls)

node_rounds-nil : (fuel : ℕ) (nodes : List (List ℕ)) → node_rounds fuel [] nodes ≡ nodes
unfolding node_rounds
node_rounds-nil zero nodes = refl
node_rounds-nil (suc fuel) nodes = refl

node_rounds-single :
    (file : List ℕ)
    → 0 < length file
    → length file ≤ report_size
    → node_rounds (length file) file [] ≡ push_all (tokens_in (file ++ (0 ∷ []))) []
unfolding node_rounds
node_rounds-single [] h fits = absurd (omega arith)
node_rounds-single (c ∷ rest) h fits =
    let file : List ℕ = c ∷ rest in
    let whole : take report_size file ≡ file = take_all report_size file fits in
    let left : drop report_size file ≡ [] = drop_all report_size file fits in
    ap
      (λ l.
        node_rounds (length rest) l (push_all (tokens_in (take report_size file ++ (0 ∷ []))) []))
      left
    ∙ node_rounds-nil (length rest) (push_all (tokens_in (take report_size file ++ (0 ∷ []))) [])
    ∙ ap (λ l. push_all (tokens_in (l ++ (0 ∷ []))) []) whole

-- The text is printed: it is of these lines, in the order of a comparison.
abbrev pub IsNameReport : (compare : Compare) (ls : List (List ℕ)) → Option (List ℕ) → Type 0
IsNameReport compare ls printed =
    (sorted : List (List ℕ)) × (printed ≡ some (written_lines sorted))
    × IsSorted (greater compare) sorted
    × Perm sorted ls

sort_name-report :
    (qsort : Compare → List (List ℕ) → List (List ℕ)) (compare : Compare) (ls : List (List ℕ))
    → IsQsort qsort
    → IsOrder (greater compare)
    → All IsLine ls
    → 0 < length ls
    → length (written_lines ls) < report_size
    → IsNameReport compare ls (some (sort_name qsort compare (written_lines ls)))
unfolding sort_name
sort_name-report qsort compare ls sorts order h some_line fits =
    let file : List ℕ = written_lines ls in
    let nodes : List (List ℕ) = node_rounds (length file) file [] in
    let pushed : nodes ≡ push_all ls [] =
      node_rounds-single file (omega (arith, length-written_lines ls)) (omega (arith, fits))
      ∙ ap (λ ts. push_all ts []) (tokens_in-ended ls h) in
    let same : Perm nodes ls =
      subst (λ l. Perm nodes l) (append-nil ls)
        (subst (λ l. Perm l (ls ++ [])) (sym pushed) (push_all-perm ls [])) in
    let (sorted, kept) = sorts compare nodes order in
    (qsort compare nodes, refl, sorted, Perm.trans kept same)

-- On a file of lines that is shorter than the buffer, with qsort as it is documented, the choice 1 of
-- `sortAll` prints the lines upwards, and the choice 2 downwards.
pub sort_all-by_name :
    (qsort : Compare → List (List ℕ) → List (List ℕ)) (held : ℕ → Student) (memory : List ℕ)
    (ls : List (List ℕ))
    → IsQsort qsort
    → All IsLine ls
    → 0 < length ls
    → length (written_lines ls) < report_size
    → IsNameReport ascending_name_compare ls (sort_all qsort held memory (written_lines ls) 1)
      × IsNameReport descending_name_compare ls (sort_all qsort held memory (written_lines ls) 2)
unfolding sort_all
sort_all-by_name qsort held memory ls sorts h some_line fits = (
  sort_name-report qsort ascending_name_compare ls sorts ascending-IsOrder h some_line fits,
  sort_name-report qsort descending_name_compare ls sorts descending-IsOrder h some_line fits,
)
