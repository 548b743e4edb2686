-- ===== src/Grades/Reports/ByGrade.antt =====
-- The reports by grade of Homework1/main.c on a file of students.
use mathlib.Core.List.{Perm}
use cse344system_programming.Prelude.{
  ℕ, zero, suc, ◌+◌, ◌<◌, ◌≤◌, ◌≡◌, ◌≢◌, ◌==◌, refl, sym, ap, subst, ◌∙◌, false, List, [], ◌∷◌,
  ◌++◌, map, length, length-append, append_assoc, append-nil, newline, take, drop, drop_all, codes,
  leb, Option, some, All, All-append, arith,
}
use cse344system_programming.Grades.Shell.{is_space}
use cse344system_programming.Grades.Records.{comma}
use cse344system_programming.Grades.Records.Search.{up_to-sep}
use cse344system_programming.Grades.Paging.{read_into, tokens_in, cut, written_lines}
use cse344system_programming.Grades.Paging.Tokens.{IsLine, tokens_in-read, length-written_lines}
use cse344system_programming.Grades.Sorting.{Student, out_of_order, sort_by_grade}
use cse344system_programming.Grades.Sorting.Order.{IsSorted}
use cse344system_programming.Grades.Sorting.Sorted.{sort_by_grade-IsSorted}
use cse344system_programming.Grades.Reports.{
  Compare, report_size, name_size, grade_size, student_room, skip_white, word_front, scan_student,
  scan_tokens, read_rounds, read_students, print_students, sort_all,
}

abbrev pub InName : ℕ → Type 0
InName c = (c ≢ comma) × (c ≢ newline) × (c ≢ 0)

abbrev pub InGrade : ℕ → Type 0
InGrade c = (is_space c ≡ false) × (c ≢ 0)

-- A student whose line holds both fields, and whose fields fit their arrays.
pub record IsStudent (s : Student) : Type 0 where
  pub name_some : 0 < length s.name
  pub name : All InName s.name
  pub grade_some : 0 < length s.grade
  pub grade : All InGrade s.grade
  pub name_fits : length s.name < name_size
  pub grade_fits : length s.grade < grade_size

abbrev pub line_of_student : Student → List ℕ
line_of_student s = s.name ++ (comma ∷ s.grade)

All-map : {P Q : ℕ → Type 0} (l : List ℕ) → ((c : ℕ) → P c → Q c) → All P l → All Q l
All-map [] f h = tt
All-map (c ∷ l) f h = (f c h.0, All-map l f h.1)

word_front-grade : (g : List ℕ) → All InGrade g → word_front g ≡ g
unfolding word_front
word_front-grade [] h = refl
word_front-grade (c ∷ g) h = rw (h.0.0, word_front-grade g h.1) refl

skip_white-grade : (g : List ℕ) → 0 < length g → All InGrade g → skip_white g ≡ g
unfolding skip_white
skip_white-grade [] pos h = refl
skip_white-grade (c ∷ g) pos h = rw h.0.0 refl

scan_student-line :
    (before s : Student) → IsStudent s → scan_student before (line_of_student s) ≡ some s
unfolding scan_student
scan_student-line before s h =
    let cut_off = up_to-sep comma s.name s.grade (All-map s.name (λ c k. k.0) h.name) in
    let named : (length s.name == 0) ≡ false = ground (arith, h.name_some) in
    let name_in : leb name_size (length s.name) ≡ false = ground (arith, h.name_fits) in
    let grade_in : leb grade_size (length s.grade) ≡ false = ground (arith, h.grade_fits) in
    let graded : (length s.grade == 0) ≡ false = ground (arith, h.grade_some) in
    rw
      (
        cut_off,
        skip_white-grade s.grade h.grade_some h.grade,
        word_front-grade s.grade h.grade,
        named,
        graded,
        name_in,
        grade_in,
      )
      refl

scan_tokens-lines :
    (held : ℕ → Student) (count : ℕ) (ss strays : List Student) (ts : List (List ℕ))
    → All IsStudent ss
    → count + length ss ≤ student_room
    → scan_tokens held (count + length ss) ts ≡ some strays
    → scan_tokens held count (map line_of_student ss ++ ts) ≡ some (ss ++ strays)
unfolding scan_tokens
scan_tokens-lines held count [] strays ts h room e =
    subst (λ n. scan_tokens held n ts ≡ some strays) (omega arith) e
scan_tokens-lines held count (s ∷ ss) strays ts h room e =
    let here : leb student_room count ≡ false = ground (arith, room) in
    let counted : count + suc (length ss) ≡ count + 1 + length ss = omega arith in
    let rest =
      scan_tokens-lines held (count + 1) ss strays ts h.1 (omega (arith, room))
        (subst (λ n. scan_tokens held n ts ≡ some strays) counted e) in
    rw (here, scan_student-line (held count) s h.0, rest) refl

print_students-lines :
    (ss : List Student) → print_students ss ≡ written_lines (map line_of_student ss)
unfolding print_students written_lines
print_students-lines [] = refl
print_students-lines (s ∷ ss) =
    rw (print_students-lines ss) (
      sym
        (append_assoc s.name (comma ∷ s.grade) (newline ∷ written_lines (map line_of_student ss))))

grade_no_newline : (c : ℕ) → is_space c ≡ false → c ≢ newline
grade_no_newline c h e = ground (arith, h, e)

line_of_student-IsLine : (s : Student) → IsStudent s → IsLine (line_of_student s)
line_of_student-IsLine s h = (
  omega (arith, length-append s.name (comma ∷ s.grade)),
  All-append (λ c. c ≢ newline) s.name (comma ∷ s.grade) (All-map s.name (λ c k. k.1) h.name)
      (ground arith, All-map s.grade (λ c k. grade_no_newline c k.0) h.grade),
  All-append (λ c. c ≢ 0) s.name (comma ∷ s.grade) (All-map s.name (λ c k. k.2) h.name)
      (ground arith, All-map s.grade (λ c k. k.1) h.grade),
)

lines-AreLines : (ss : List Student) → All IsStudent ss → All IsLine (map line_of_student ss)
lines-AreLines [] h = tt
lines-AreLines (s ∷ ss) h = (line_of_student-IsLine s h.0, lines-AreLines ss h.1)

read_rounds-nil :
    (held : ℕ → Student) (fuel : ℕ) (memory : List ℕ) (count : ℕ)
    → read_rounds held fuel [] memory count ≡ some []
unfolding read_rounds
read_rounds-nil held zero memory count = refl
read_rounds-nil held (suc fuel) memory count = refl

length-map : {A B : Type 0} (f : A → B) (xs : List A) → length (map f xs) ≡ length xs
length-map f [] = refl
length-map f (x ∷ xs) = ap suc (length-map f xs)

read_students-single :
    (held : ℕ → Student) (memory file : List ℕ) (ss : List Student)
    → 0 < length file
    → drop report_size file ≡ []
    → scan_tokens held 0 (tokens_in (read_into (take report_size file) memory)) ≡ some ss
    → read_students held memory file ≡ some ss
unfolding read_students read_rounds
read_students-single held memory [] ss h whole e = absurd (omega arith)
read_students-single held memory (c ∷ rest) ss h whole e =
    let buffer : List ℕ = read_into (take report_size (c ∷ rest)) memory in
    rw
      (
        read_students,
        read_rounds,
        e,
        whole,
        read_rounds-nil held (length rest) (cut false buffer) (0 + length ss),
      )
      (ap some (append-nil ss))

-- `readStudentsFromFile` reads the students of a file that fits its buffer, and those that the memory behind
-- the text gives.
pub read_students-print_students :
    (held : ℕ → Student) (memory : List ℕ) (ss strays : List Student)
    → All IsStudent ss
    → 0 < length ss
    → length ss ≤ student_room
    → length (print_students ss) ≤ report_size
    → scan_tokens held (length ss) (tokens_in (drop (length (print_students ss)) memory))
      ≡ some strays
    → read_students held memory (print_students ss) ≡ some (ss ++ strays)
read_students-print_students held memory ss strays h some_student room fits behind =
    let ls : List (List ℕ) = map line_of_student ss in
    let file : print_students ss ≡ written_lines ls = print_students-lines ss in
    let some_byte : 0 < length (print_students ss) = omega (
      arith,
      ap length file,
      length-written_lines ls,
      length-map line_of_student ss,
      some_student,
    ) in
    let tokens : tokens_in (read_into (take report_size (print_students ss)) memory)
        ≡ ls ++ tokens_in (drop (length (print_students ss)) memory) =
      subst
        (λ f.
          tokens_in (read_into (take report_size f) memory)
          ≡ ls ++ tokens_in (drop (length f) memory))
        (sym file)
        (tokens_in-read report_size ls memory (lines-AreLines ss h)
          (subst (λ f. length f ≤ report_size) file fits)) in
    read_students-single held memory (print_students ss) (ss ++ strays) some_byte
      (drop_all report_size (print_students ss) fits)
      (ap (scan_tokens held 0) tokens
        ∙ scan_tokens-lines held 0 ss strays (tokens_in (drop (length (print_students ss)) memory))
            h (omega (arith, room))
            (subst
              (λ n.
                scan_tokens held n (tokens_in (drop (length (print_students ss)) memory))
                ≡ some strays)
              (omega arith) behind))

-- The text is printed: it is of the students, in the order of the flag, behind a heading.
abbrev pub IsReport : (heading : List ℕ) (flag : ℕ) (ss : List Student) → Option (List ℕ) → Type 0
IsReport heading flag ss printed =
    (sorted : List Student) × (printed ≡ some (heading ++ print_students sorted))
    × IsSorted (out_of_order flag) sorted
    × Perm sorted ss

-- On a file of at most 100 students that fits the buffer, each with a name and a grade that fit their arrays,
-- the choice 3 of `sortAll` prints the students
-- upwards by grade, and the choice 4 downwards, with no write past an array. Among them are the students
-- that are scanned from the memory behind the text, none where it starts with a zero byte; they must fit the
-- arrays too.
pub sort_all-by_grade :
    (qsort : Compare → List (List ℕ) → List (List ℕ)) (held : ℕ → Student) (memory : List ℕ)
    (ss strays : List Student)
    → All IsStudent ss
    → 0 < length ss
    → length ss ≤ student_room
    → length (print_students ss) ≤ report_size
    → scan_tokens held (length ss) (tokens_in (drop (length (print_students ss)) memory))
      ≡ some strays
    → IsReport
        (codes "Grade Ascending Order\n")
        1
        (ss ++ strays)
        (sort_all qsort held memory (print_students ss) 3)
      × IsReport
          (codes "Grade Descending Order\n")
          0
          (ss ++ strays)
          (sort_all qsort held memory (print_students ss) 4)
unfolding sort_all
sort_all-by_grade qsort held memory ss strays h some_student room fits behind =
    let same = read_students-print_students held memory ss strays h some_student room fits behind in
    let (up, up_same) = sort_by_grade-IsSorted (ss ++ strays) 1 in
    let (down, down_same) = sort_by_grade-IsSorted (ss ++ strays) 0 in
    (
      (sort_by_grade (ss ++ strays) 1, rw same refl, up, up_same),
      (sort_by_grade (ss ++ strays) 0, rw same refl, down, down_same),
    )
