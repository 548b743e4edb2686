-- ===== src/Grades/Records/Tests.antt =====
-- A file with two students.
use native.Mathlib.Omega.{arith}
use mathlib.Core.Path.{◌≡◌}
use mathlib.Core.Bool.{true}
use mathlib.Core.Option.{some}
use mathlib.Core.List.{List, [], ◌∷◌, ◌++◌}
use Prim.Native.Nat.{ℕ}
use cse344system_programming.Prelude.{codes, newline}
use cse344system_programming.Grades.Records.{name_of, add_student_grade, found, search_student}
use cse344system_programming.Grades.Records.Search.{
  Entry, IsEntry, file_of, find_entry, search_student-file_of, search_student-add_student_grade,
}

abbrev ali : Entry
ali = record { name = codes "ali"; grade = codes "AA" }

abbrev veli : Entry
veli = record { name = codes "veli"; grade = codes "BB" }

abbrev ada_tokens : List (List ℕ)
ada_tokens = codes "ada" ∷ codes "su" ∷ []

abbrev ada : Entry
ada = record { name = name_of ada_tokens; grade = codes "CC" }

ali-IsEntry : IsEntry ali
ali-IsEntry = ground arith

veli-IsEntry : IsEntry veli
veli-IsEntry = ground arith

ada-IsEntry : IsEntry ada
unfolding name_of
ada-IsEntry = ground arith

search_student-file_of_example :
    search_student (some (file_of (ali ∷ veli ∷ []))) (codes "veli")
    ≡ some (find_entry (codes "veli") 0 (ali ∷ veli ∷ []))
search_student-file_of_example =
    search_student-file_of (ali ∷ veli ∷ []) (codes "veli") (ali-IsEntry, (veli-IsEntry, tt))

search_student-add_student_grade_example :
    search_student
      (add_student_grade true (some (file_of (ali ∷ veli ∷ []))) ada_tokens (codes "CC"))
      (name_of ada_tokens)
    ≡ some (found 3 (some (codes "CC" ++ (newline ∷ []))))
unfolding name_of
search_student-add_student_grade_example =
    search_student-add_student_grade (ali ∷ veli ∷ []) ada_tokens (codes "CC")
      (ali-IsEntry, (veli-IsEntry, tt)) ada-IsEntry ((λ e. cc), ((λ e. cc), tt))
