-- ===== src/Grades/Reports.antt =====
-- The sorted reports of Homework1/main.c: `readStudentsFromFile`, `printStudents`, `sortName` and `sortAll`
-- for a file that is opened. qsort is an argument. A buffer goes on with the memory behind it.
pub mod ByGrade
pub mod ByName
mod Tests
use Prim.Native.Nat.{Ordering}
use mathlib.Core.Option
use cse344system_programming.Prelude.{
  ℕ, zero, suc, ◌+◌, ◌==◌, ◌||◌, leb, if◌then◌else◌, false, Option, none, some, List, [], ◌∷◌, ◌++◌,
  length, take, drop, newline, codes, strcmp,
}
use cse344system_programming.Grades.Shell.{is_space}
use cse344system_programming.Grades.Records.{comma, up_to}
use cse344system_programming.Grades.Paging.{read_into, tokens_in, cut, written_lines}
use cse344system_programming.Grades.Sorting.{Student, sort_by_grade}

abbrev pub report_size : ℕ
report_size = 1024

-- What `%s` takes: past the white space, up to the next.
unfoldable pub skip_white : List ℕ → List ℕ
skip_white [] = []
skip_white (c ∷ cs) = let rest = skip_white cs in if is_space c then rest else c ∷ cs

unfoldable pub word_front : List ℕ → List ℕ
word_front [] = []
word_front (c ∷ cs) = let rest = word_front cs in if is_space c then [] else c ∷ rest

-- The sizes of the fields `name` and `grade` of a `Student`, and the number of students that memory is
-- allocated for.
abbrev pub name_size : ℕ
name_size = 50

abbrev pub grade_size : ℕ
grade_size = 3

abbrev pub student_room : ℕ
student_room = 100

-- `sscanf(token, "%[^,],%s", name, grade)`: a field that is not reached keeps what it held; `none` where
-- a field and its terminator are written past its array.
unfoldable pub scan_student : (before : Student) (token : List ℕ) → Option Student
scan_student before token =
    let (name, behind) = up_to comma token in
    let word = word_front (skip_white behind) in
    let grade : List ℕ = if length word == 0 then before.grade else word in
    if length name == 0
    then some before
    else if leb name_size (length name) || leb grade_size (length word)
    then none
    else some (record { name = name; grade = grade })

abbrev pub with_student : Option Student → Option (List Student) → Option (List Student)
with_student (some s) (some ss) = some (s ∷ ss)
with_student _ _ = none

-- The inner loop of `readStudentsFromFile`; `held i` is what the element `i` of the array held, and `none`
-- means that something is written past an array.
unfoldable pub scan_tokens :
    (held : ℕ → Student) (count : ℕ) → List (List ℕ) → Option (List Student)
scan_tokens held count [] = some []
scan_tokens held count (t ∷ ts) =
    let rest = scan_tokens held (count + 1) ts in
    if leb student_room count then none else with_student (scan_student (held count) t) rest

-- The loop over the rest of the file.
unfoldable pub read_rounds :
    (held : ℕ → Student) (fuel : ℕ) (rest memory : List ℕ) (count : ℕ) → Option (List Student)
read_rounds held zero rest memory count = some []
read_rounds held (suc fuel) [] memory count = some []
read_rounds held (suc fuel) (c ∷ rest) memory count =
    let buffer = read_into (take report_size (c ∷ rest)) memory in
    elim (scan_tokens held count (tokens_in buffer)) [
      | none ↦ none
      | some here ↦
          Option.map (λ more. here ++ more)
            (read_rounds held fuel (drop report_size (c ∷ rest)) (cut false buffer)
              (count + length here))
    ]

-- `readStudentsFromFile`.
unfoldable pub read_students : (held : ℕ → Student) (memory file : List ℕ) → Option (List Student)
read_students held memory file = read_rounds held (length file) file memory 0

-- `printStudents`.
unfoldable pub print_students : List Student → List ℕ
print_students [] = []
print_students (s ∷ ss) = s.name ++ (comma ∷ (s.grade ++ (newline ∷ print_students ss)))

-- The tokens pushed on the linked list of `sortName`, one after another.
unfoldable pub push_all : (tokens nodes : List (List ℕ)) → List (List ℕ)
push_all [] nodes = nodes
push_all (t ∷ ts) nodes = push_all ts (t ∷ nodes)

-- The loop of `sortName` over the rest of the file. The text in the buffer is ended by a zero byte.
unfoldable pub node_rounds : (fuel : ℕ) (rest : List ℕ) (nodes : List (List ℕ)) → List (List ℕ)
node_rounds zero rest nodes = nodes
node_rounds (suc fuel) [] nodes = nodes
node_rounds (suc fuel) (c ∷ rest) nodes =
    let buffer = take report_size (c ∷ rest) ++ (0 ∷ []) in
    node_rounds fuel (drop report_size (c ∷ rest)) (push_all (tokens_in buffer) nodes)

-- `ascendingNameCompare` and `descendingNameCompare`.
abbrev pub Compare : Type 0
Compare = List ℕ → List ℕ → Ordering

abbrev pub ascending_name_compare : Compare
ascending_name_compare a b = strcmp a b

abbrev pub descending_name_compare : Compare
descending_name_compare a b = strcmp b a

-- What `sortName` prints, by qsort.
unfoldable pub sort_name :
    (qsort : Compare → List (List ℕ) → List (List ℕ)) → Compare → (file : List ℕ) → List ℕ
sort_name qsort compare file = written_lines (qsort compare (node_rounds (length file) file []))

-- What `sortAll` prints behind the menu, by the choice; `none` where it writes past an array.
unfoldable pub sort_all :
    (qsort : Compare → List (List ℕ) → List (List ℕ)) (held : ℕ → Student) (memory file : List ℕ)
    (choice : ℕ)
    → Option (List ℕ)
sort_all qsort held memory file choice =
    if choice == 1
    then some (sort_name qsort ascending_name_compare file)
    else if choice == 2
    then some (sort_name qsort descending_name_compare file)
    else if choice == 3
    then Option.map (λ ss. codes "Grade Ascending Order\n" ++ print_students (sort_by_grade ss 1))
        (read_students held memory file)
    else if choice == 4
    then Option.map (λ ss. codes "Grade Descending Order\n" ++ print_students (sort_by_grade ss 0))
        (read_students held memory file)
    else some (codes "Invalid choice\n")
