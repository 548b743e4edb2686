-- ===== src/Grades/Reports/Tests.antt =====
-- Reports on a file of three students.
use native.Mathlib.Omega.{arith}
use mathlib.Core.Path.{◌≡◌, refl}
use mathlib.Core.List.{List, [], ◌∷◌}
use Prim.Native.Nat.{ℕ}
use cse344system_programming.Prelude.{
  codes, length, All, ◌≤◌, ◌<◌, c_string, drop, newline, replicate, none, some, ◌++◌,
}
use cse344system_programming.Grades.Records.{up_to, strtok, past}
use cse344system_programming.Grades.Sorting.{Student, bubble_sort}
use cse344system_programming.Grades.Sorting.Sorted.{bubble_sort-IsSorted, bubble_sort-perm}
use cse344system_programming.Grades.Paging.{written_lines, tokens_in, tokens_of}
use cse344system_programming.Grades.Paging.Tokens.{IsLine}
use cse344system_programming.Grades.Reports.{
  Compare, ascending_name_compare, descending_name_compare, report_size, print_students,
  scan_student, scan_tokens, skip_white, word_front, sort_all,
}
use cse344system_programming.Grades.Reports.ByGrade.{IsStudent, IsReport, sort_all-by_grade}
use cse344system_programming.Grades.Reports.ByName.{
  greater, IsQsort, IsNameReport, sort_all-by_name,
}

abbrev student : (name grade : List ℕ) → Student
student name grade = record { name = name; grade = grade }

abbrev students : List Student
students =
    student (codes "Ann Lee") (codes "BB")
    ∷ student (codes "Bo") (codes "AA")
    ∷ student (codes "Cy") (codes "CB")
    ∷ []

abbrev held : ℕ → Student
held _ = student [] []

students-AreStudents : All IsStudent students
students-AreStudents =
    let ann : IsStudent (student (codes "Ann Lee") (codes "BB")) = record {
      name_some = omega arith;
      name = ground arith;
      grade_some = omega arith;
      grade = ground arith;
      name_fits = omega arith;
      grade_fits = omega arith;
    } in
    let bo : IsStudent (student (codes "Bo") (codes "AA")) = record {
      name_some = omega arith;
      name = ground arith;
      grade_some = omega arith;
      grade = ground arith;
      name_fits = omega arith;
      grade_fits = omega arith;
    } in
    let cy : IsStudent (student (codes "Cy") (codes "CB")) = record {
      name_some = omega arith;
      name = ground arith;
      grade_some = omega arith;
      grade = ground arith;
      name_fits = omega arith;
      grade_fits = omega arith;
    } in
    (ann, (bo, (cy, tt)))

-- A line without a grade leaves the grade that was there.
keeps_grade :
    scan_student (student [] (codes "FF")) (codes "Ann") ≡ some (student (codes "Ann") (codes "FF"))
unfolding scan_student up_to skip_white word_front
keeps_grade = refl

students-fit : length (print_students students) ≤ report_size
unfolding print_students
students-fit = omega arith

-- Behind the text stands what a file before it left, up to a zero byte.
abbrev memory : List ℕ
memory =
    replicate (length (print_students students)) 0 ++ codes "Di,DD" ++ (newline ∷ 0 ∷ b'x' ∷ [])

abbrev strays : List Student
strays = student (codes "Di") (codes "DD") ∷ []

scans_strays :
    scan_tokens held 3 (tokens_in (drop (length (print_students students)) memory)) ≡ some strays
unfolding print_students c_string scan_tokens scan_student up_to skip_white word_front tokens_in
    tokens_of strtok past
scans_strays = refl

-- A grade of three letters is written past its array, and so is a student behind the hundredth.
overflows_grade : scan_student (held 0) (codes "Ann,BBB") ≡ none
unfolding scan_student up_to skip_white word_front
overflows_grade = refl

overflows_students : scan_tokens held 100 (codes "Ann,BB" ∷ []) ≡ none
unfolding scan_tokens
overflows_students = refl

abbrev bubble : Compare → List (List ℕ) → List (List ℕ)
bubble compare = bubble_sort (greater compare)

bubble-IsQsort : IsQsort bubble
bubble-IsQsort compare xs order =
    (bubble_sort-IsSorted (greater compare) order xs, bubble_sort-perm (greater compare) xs)

abbrev lines : List (List ℕ)
lines = codes "Cy,CB" ∷ codes "Ann,BB" ∷ []

lines-fit : length (written_lines lines) < report_size
unfolding written_lines
lines-fit = omega arith

lines-AreLines : All IsLine lines
lines-AreLines = ground arith

sort_all-by_grade_example :
    IsReport
      (codes "Grade Ascending Order\n")
      1
      (students ++ strays)
      (sort_all bubble held memory (print_students students) 3)
    × IsReport
        (codes "Grade Descending Order\n")
        0
        (students ++ strays)
        (sort_all bubble held memory (print_students students) 4)
sort_all-by_grade_example =
    sort_all-by_grade bubble held memory students strays students-AreStudents (omega arith)
      (omega arith) students-fit scans_strays

sort_all-by_name_example :
    IsNameReport ascending_name_compare lines (sort_all bubble held [] (written_lines lines) 1)
    × IsNameReport descending_name_compare lines (sort_all bubble held [] (written_lines lines) 2)
sort_all-by_name_example =
    sort_all-by_name bubble held [] lines bubble-IsQsort lines-AreLines (omega arith) lines-fit
