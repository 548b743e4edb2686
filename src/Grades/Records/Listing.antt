-- ===== src/Grades/Records/Listing.antt =====
-- `showAll` of Homework1/main.c.
use cse344system_programming.Prelude.{
  ℕ, zero, suc, ◌≤◌, ◌≡◌, refl, ap, ◌∙◌, List, [], ◌∷◌, ◌++◌, length, take, drop, length-drop,
  take-append-drop, arith,
}
use cse344system_programming.Grades.Records.{read_size, show_rounds, show_all}

show_rounds-enough : (fuel : ℕ) (cs : List ℕ) → length cs ≤ fuel → show_rounds fuel cs ≡ cs
unfolding show_rounds
show_rounds-enough zero [] h = refl
show_rounds-enough zero (c ∷ cs) h = absurd (omega (arith, h))
show_rounds-enough (suc fuel) [] h = refl
show_rounds-enough (suc fuel) (c ∷ cs) h =
    ap (λ l. take read_size (c ∷ cs) ++ l)
      (show_rounds-enough fuel (drop read_size (c ∷ cs))
        (omega (arith, h, length-drop read_size (c ∷ cs))))
    ∙ take-append-drop read_size (c ∷ cs)

-- `showAll` writes the whole file, in order.
pub show_all-id : (file : List ℕ) → show_all file ≡ file
unfolding show_all
show_all-id file = show_rounds-enough (length file) file (omega arith)
