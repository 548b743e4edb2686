-- ===== src/Grades/Records.antt =====
-- The records of students in a file: `addStudentGrade`, `searchStudent` and `showAll` of
-- Homework1/main.c. A file is its bytes, none of which is 0, or `none` where there is none; `opens` tells
-- whether open succeeds. Writes succeed. The log and the messages are left out.
pub mod Search
pub mod Listing
mod Tests
use cse344system_programming.Prelude.{
  ℕ, zero, suc, ◌+◌, ◌-◌, ◌==◌, if◌then◌else◌, Bool, true, false, Option, none, some, List, [], ◌∷◌,
  ◌++◌, length, take, drop, str_eq, newline, space,
}

abbrev pub comma : ℕ
comma = 44

-- The words of a name as the loop of `addStudentGrade` writes them.
unfoldable pub name_of : List (List ℕ) → List ℕ
name_of [] = []
name_of (t ∷ []) = t
name_of (t ∷ u ∷ ts) = t ++ (space ∷ name_of (u ∷ ts))

unfoldable pub add_student_grade :
    (opens : Bool) → Option (List ℕ) → (tokens : List (List ℕ)) (grade : List ℕ) → Option (List ℕ)
add_student_grade opens none tokens grade = none
add_student_grade false (some file) tokens grade = some file
add_student_grade true (some file) tokens grade =
    some (file ++ (name_of tokens ++ (comma ∷ (grade ++ (newline ∷ [])))))

-- fgets with room for a number of bytes: a line with its newline, or what there is room for; and what is
-- left of the file.
unfoldable pub first_line : ℕ → List ℕ → List ℕ × List ℕ
first_line zero cs = ([], cs)
first_line (suc room) [] = ([], [])
first_line (suc room) (c ∷ cs) =
    let (line, rest) = first_line room cs in if c == newline then (c ∷ [], cs) else (c ∷ line, rest)

-- strtok with one delimiter: past the delimiters at the front, up to the next.
unfoldable pub past : ℕ → List ℕ → List ℕ
past sep [] = []
past sep (c ∷ cs) = let rest = past sep cs in if c == sep then rest else c ∷ cs

unfoldable pub up_to : ℕ → List ℕ → List ℕ × List ℕ
up_to sep [] = ([], [])
up_to sep (c ∷ cs) =
    let (token, rest) = up_to sep cs in if c == sep then ([], cs) else (c ∷ token, rest)

unfoldable pub strtok : ℕ → List ℕ → Option (List ℕ × List ℕ)
strtok sep cs = elim (past sep cs) [ [] ↦ none | c ∷ rest ↦ some (up_to sep (c ∷ rest)) ]

abbrev pub max_line_length : ℕ
max_line_length = 1000

-- What `searchStudent` prints: the line, and the grade if the line has one.
pub data Found : Type 0 where
  found : (line : ℕ) (grade : Option (List ℕ)) → Found
  not_found : Found

abbrev pub grade_in : List ℕ → Option (List ℕ)
grade_in behind = elim (strtok comma behind) [ none ↦ none | some t ↦ some t.0 ]

-- What is done with one line; `later` is what the lines behind it give.
unfoldable pub search_line :
    (name : List ℕ) (line_number : ℕ) (line : List ℕ) (later : Found) → Found
search_line name line_number line later = elim (strtok comma line) [
  | none ↦ later
  | some t ↦ if str_eq t.0 name then found line_number (grade_in t.1) else later
]

-- The loop over the lines, `fuel` of them at most.
unfoldable pub search_from : (fuel : ℕ) (name : List ℕ) (line_number : ℕ) → List ℕ → Found
search_from zero name line_number cs = not_found
search_from (suc fuel) name line_number [] = not_found
search_from (suc fuel) name line_number (c ∷ cs) =
    let r = first_line (max_line_length - 1) (c ∷ cs) in
    search_line name (line_number + 1) r.0 (search_from fuel name (line_number + 1) r.1)

-- `none` where the file cannot be opened.
unfoldable pub search_student : Option (List ℕ) → (name : List ℕ) → Option Found
search_student none name = none
search_student (some file) name = some (search_from (length file) name 0 file)

abbrev pub read_size : ℕ
read_size = 256

-- What the loop of `showAll` writes on the terminal.
unfoldable pub show_rounds : (fuel : ℕ) → List ℕ → List ℕ
show_rounds zero cs = []
show_rounds (suc fuel) [] = []
show_rounds (suc fuel) (c ∷ cs) =
    take read_size (c ∷ cs) ++ show_rounds fuel (drop read_size (c ∷ cs))

unfoldable pub show_all : (file : List ℕ) → List ℕ
show_all file = show_rounds (length file) file
