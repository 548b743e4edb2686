-- ===== src/Grades/Sorting/Tests.antt =====
-- Sorting three students.
use mathlib.Core.Path.{◌≡◌, refl}
use mathlib.Core.List.{List, [], ◌∷◌}
use cse344system_programming.Prelude.{codes, strcmp}
use cse344system_programming.Grades.Sorting.{
  Student, sort_by_grade, bubble_sort, bubble_rounds, bubble_pass,
}

abbrev ada : Student
ada = record { name = codes "Ada"; grade = codes "BB" }

abbrev bob : Student
bob = record { name = codes "Bob"; grade = codes "AA" }

abbrev cem : Student
cem = record { name = codes "Cem"; grade = codes "BA" }

abbrev students : List Student
students = ada ∷ bob ∷ cem ∷ []

sorts-upward : sort_by_grade students 1 ≡ bob ∷ cem ∷ ada ∷ []
unfolding sort_by_grade bubble_sort bubble_rounds bubble_pass strcmp
sorts-upward = refl
