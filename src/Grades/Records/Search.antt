-- ===== src/Grades/Records/Search.antt =====
-- `addStudentGrade` and `searchStudent` of Homework1/main.c on a file of entries.
use mathlib.Core.List.{append_assoc}
use cse344system_programming.Prelude.{
  ℕ, zero, suc, ◌+◌, ◌-◌, ◌<◌, ◌≤◌, ◌≡◌, ◌≢◌, ◌==◌, refl, sym, ap, ◌∙◌, if◌then◌else◌, true, false,
  some, List, [], ◌∷◌, ◌++◌, length, length-append, append-nil, str_eq, str_eq_iff, newline, All,
  All-append, arith, Bool-cases, inl, inr,
}
use cse344system_programming.Grades.Records.{
  comma, name_of, add_student_grade, first_line, past, up_to, strtok, max_line_length, Found, found,
  not_found, grade_in, search_line, search_from, search_student,
}

pub record Entry : Type 0 where
  pub name : List ℕ
  pub grade : List ℕ

abbrev pub line_of_entry : Entry → List ℕ
line_of_entry e = e.name ++ (comma ∷ (e.grade ++ (newline ∷ [])))

abbrev pub Plain : ℕ → Type 0
Plain c = (c ≢ comma) × (c ≢ newline)

-- A name and a grade that hold neither a comma nor a newline, and fit the buffer of `searchStudent`.
pub record IsEntry (e : Entry) : Type 0 where
  pub name_some : 0 < length e.name
  pub name_plain : All Plain e.name
  pub grade_some : 0 < length e.grade
  pub grade_plain : All Plain e.grade
  pub fits : length e.name + length e.grade + 3 ≤ max_line_length

abbrev pub file_of : List Entry → List ℕ
file_of [] = []
file_of (e ∷ es) = line_of_entry e ++ file_of es

-- The search among the entries, of which `n` stand in front.
abbrev pub find_entry : (name : List ℕ) (n : ℕ) → List Entry → Found
find_entry name n [] = not_found
find_entry name n (e ∷ es) =
    if str_eq e.name name
    then found (n + 1) (some (e.grade ++ (newline ∷ [])))
    else find_entry name (n + 1) es

first_line-newline :
    (room : ℕ) (l rest : List ℕ)
    → All (λ c. c ≢ newline) l
    → length l < room
    → first_line room (l ++ (newline ∷ rest)) ≡ (l ++ (newline ∷ []), rest)
unfolding first_line
first_line-newline zero l rest h k = absurd (omega (arith, k))
first_line-newline (suc room) [] rest h k = refl
first_line-newline (suc room) (c ∷ l) rest h k =
    let other : (c == newline) ≡ false = ground (arith, h.0) in
    rw (other, first_line-newline room l rest h.1 (omega (arith, k))) refl

pub up_to-sep :
    (sep : ℕ) (t rest : List ℕ) → All (λ c. c ≢ sep) t → up_to sep (t ++ (sep ∷ rest)) ≡ (t, rest)
unfolding up_to
up_to-sep sep [] rest h = let here : (sep == sep) ≡ true = ground arith in rw here refl
up_to-sep sep (c ∷ t) rest h =
    let other : (c == sep) ≡ false = ground (arith, h.0) in
    rw (other, up_to-sep sep t rest h.1) refl

up_to-end : (sep : ℕ) (t : List ℕ) → All (λ c. c ≢ sep) t → up_to sep t ≡ (t, [])
unfolding up_to
up_to-end sep [] h = refl
up_to-end sep (c ∷ t) h =
    let other : (c == sep) ≡ false = ground (arith, h.0) in rw (other, up_to-end sep t h.1) refl

past-other : (sep c : ℕ) (cs : List ℕ) → c ≢ sep → past sep (c ∷ cs) ≡ c ∷ cs
unfolding past
past-other sep c cs h = let other : (c == sep) ≡ false = ground (arith, h) in rw other refl

-- The first token is all up to the delimiter.
pub strtok-sep :
    (sep : ℕ) (t rest : List ℕ)
    → 0 < length t
    → All (λ c. c ≢ sep) t
    → strtok sep (t ++ (sep ∷ rest)) ≡ some (t, rest)
unfolding strtok
strtok-sep sep [] rest h k = absurd (omega (arith, h))
strtok-sep sep (c ∷ t) rest h k =
    rw (strtok, past-other sep c (t ++ (sep ∷ rest)) k.0) (ap some (up_to-sep sep (c ∷ t) rest k))

strtok-end :
    (sep : ℕ) (t : List ℕ) → 0 < length t → All (λ c. c ≢ sep) t → strtok sep t ≡ some (t, [])
unfolding strtok
strtok-end sep [] h k = absurd (omega (arith, h))
strtok-end sep (c ∷ t) h k = rw (strtok, past-other sep c t k.0) (ap some (up_to-end sep (c ∷ t) k))

All-map : {P Q : ℕ → Type 0} (l : List ℕ) → ((c : ℕ) → P c → Q c) → All P l → All Q l
All-map [] f h = tt
All-map (c ∷ l) f h = (f c h.0, All-map l f h.1)

newline_no_comma : (c : ℕ) → c ≡ newline → c ≢ comma
newline_no_comma c e h = omega (arith, e, h)

-- The line of an entry is read whole.
first_line-entry :
    (e : Entry) (rest : List ℕ)
    → IsEntry e
    → first_line (max_line_length - 1) (line_of_entry e ++ rest) ≡ (line_of_entry e, rest)
first_line-entry e rest h =
    let l : List ℕ = e.name ++ (comma ∷ e.grade) in
    let plain : All (λ c. c ≢ newline) l =
      All-append (λ c. c ≢ newline) e.name (comma ∷ e.grade)
        (All-map e.name (λ c p. p.1) h.name_plain)
        ((λ q. omega (arith, q)), All-map e.grade (λ c p. p.1) h.grade_plain) in
    let same : line_of_entry e ≡ l ++ (newline ∷ []) =
      sym (append_assoc e.name (comma ∷ e.grade) (newline ∷ [])) in
    rw (same, append_assoc l (newline ∷ []) rest)
      (first_line-newline (max_line_length - 1) l rest plain
        (omega (arith, h.fits, length-append e.name (comma ∷ e.grade))))

-- Its tokens are the name, and the grade with the newline.
strtok-entry :
    (e : Entry)
    → IsEntry e
    → strtok comma (line_of_entry e) ≡ some (e.name, e.grade ++ (newline ∷ []))
strtok-entry e h =
    strtok-sep comma e.name (e.grade ++ (newline ∷ [])) h.name_some
      (All-map e.name (λ c p. p.0) h.name_plain)

grade_in-entry :
    (e : Entry)
    → IsEntry e
    → grade_in (e.grade ++ (newline ∷ [])) ≡ some (e.grade ++ (newline ∷ []))
grade_in-entry e h =
    rw
      (
        grade_in,
        strtok-end comma (e.grade ++ (newline ∷ []))
            (omega (arith, length-append e.grade (newline ∷ [])))
            (All-append (λ c. c ≢ comma) e.grade (newline ∷ [])
              (All-map e.grade (λ c p. p.0) h.grade_plain) ((λ q. omega (arith, q)), tt)),
      )
      refl

search_line-token :
    (name : List ℕ) (n : ℕ) (line token behind : List ℕ) (later : Found)
    → strtok comma line ≡ some (token, behind)
    → search_line name n line later
      ≡ (if str_eq token name then found n (grade_in behind) else later)
unfolding search_line
search_line-token name n line token behind later f = rw (search_line, f) refl

search_from-step :
    (fuel : ℕ) (name : List ℕ) (n : ℕ) (cs line rest token behind : List ℕ)
    → 0 < length cs
    → first_line (max_line_length - 1) cs ≡ (line, rest)
    → strtok comma line ≡ some (token, behind)
    → search_from (suc fuel) name n cs ≡ (
        if str_eq token name
        then found (n + 1) (grade_in behind)
        else search_from fuel name (n + 1) rest)
unfolding search_from
search_from-step fuel name n [] line rest token behind h e f = absurd (omega (arith, h))
search_from-step fuel name n (c ∷ cs) line rest token behind h e f =
    ap (λ (r : List ℕ × List ℕ). search_line name (n + 1) r.0 (search_from fuel name (n + 1) r.1)) e
    ∙ search_line-token name (n + 1) line token behind (search_from fuel name (n + 1) rest) f

search_from-cons :
    (fuel : ℕ) (name : List ℕ) (n : ℕ) (e : Entry) (rest : List ℕ)
    → IsEntry e
    → search_from (suc fuel) name n (line_of_entry e ++ rest) ≡ (
        if str_eq e.name name
        then found (n + 1) (some (e.grade ++ (newline ∷ [])))
        else search_from fuel name (n + 1) rest)
search_from-cons fuel name n e rest h =
    search_from-step fuel name n (line_of_entry e ++ rest) (line_of_entry e) rest e.name
      (e.grade ++ (newline ∷ []))
      (omega (
        arith,
        h.name_some,
        length-append (line_of_entry e) rest,
        length-append e.name (comma ∷ (e.grade ++ (newline ∷ []))),
      ))
      (first_line-entry e rest h) (strtok-entry e h)
    ∙ rw (grade_in-entry e h) refl

search_from-file_of :
    (es : List Entry) (fuel : ℕ) (name : List ℕ) (n : ℕ)
    → All IsEntry es
    → length es ≤ fuel
    → search_from fuel name n (file_of es) ≡ find_entry name n es
unfolding search_from
search_from-file_of [] zero name n h k = refl
search_from-file_of [] (suc fuel) name n h k = refl
search_from-file_of (e ∷ es) zero name n h k = absurd (omega (arith, k))
search_from-file_of (e ∷ es) (suc fuel) name n h k =
    search_from-cons fuel name n e (file_of es) h.0
    ∙ rw (search_from-file_of es fuel name (n + 1) h.1 (omega (arith, k))) refl

length-file_of : (es : List Entry) → length es ≤ length (file_of es)
length-file_of [] = omega arith
length-file_of (e ∷ es) = omega (
  arith,
  length-file_of es,
  length-append (line_of_entry e) (file_of es),
  length-append e.name (comma ∷ (e.grade ++ (newline ∷ []))),
)

-- In a file of entries, each with a name and a grade without commas and newlines that fit the buffer,
-- `searchStudent` finds the first with the name: its line, and its grade with the newline.
pub search_student-file_of :
    (es : List Entry) (name : List ℕ)
    → All IsEntry es
    → search_student (some (file_of es)) name ≡ some (find_entry name 0 es)
unfolding search_student
search_student-file_of es name h =
    ap some (search_from-file_of es (length (file_of es)) name 0 h (length-file_of es))

file_of-append :
    (es : List Entry) (e : Entry) → file_of (es ++ (e ∷ [])) ≡ file_of es ++ line_of_entry e
file_of-append [] e = append-nil (line_of_entry e)
file_of-append (d ∷ es) e =
    ap (λ l. line_of_entry d ++ l) (file_of-append es e)
    ∙ sym (append_assoc (line_of_entry d) (file_of es) (line_of_entry e))

find_entry-last :
    (es : List Entry) (e : Entry) (n : ℕ)
    → All (λ (d : Entry). d.name ≢ e.name) es
    → find_entry e.name n (es ++ (e ∷ []))
      ≡ found (n + length es + 1) (some (e.grade ++ (newline ∷ [])))
find_entry-last [] e n h =
    let here : str_eq e.name e.name ≡ true = (str_eq_iff e.name e.name).1 refl in
    rw here (ap (λ k. found k (some (e.grade ++ (newline ∷ [])))) (omega arith))
find_entry-last (d ∷ es) e n h = elim (Bool-cases (str_eq d.name e.name)) [
  | inl q ↦ absurd (h.0 ((str_eq_iff d.name e.name).0 q))
  | inr q ↦ rw q (
      find_entry-last es e (n + 1) h.1
      ∙ ap (λ k. found k (some (e.grade ++ (newline ∷ [])))) (omega arith))
]

-- An entry whose name is not in the file yet, added by `addStudentGrade`, is found by `searchStudent` in the
-- line behind the others, its grade with the newline; all the entries are as above.
pub search_student-add_student_grade :
    (es : List Entry) (tokens : List (List ℕ)) (grade : List ℕ)
    → All IsEntry es
    → IsEntry (record { name = name_of tokens; grade = grade })
    → All (λ (d : Entry). d.name ≢ name_of tokens) es
    → search_student (add_student_grade true (some (file_of es)) tokens grade) (name_of tokens)
      ≡ some (found (length es + 1) (some (grade ++ (newline ∷ []))))
unfolding add_student_grade
search_student-add_student_grade es tokens grade hs h new =
    let e : Entry = record { name = name_of tokens; grade = grade } in
    rw (sym (file_of-append es e)) (
      search_student-file_of (es ++ (e ∷ [])) (name_of tokens)
        (All-append IsEntry es (e ∷ []) hs (h, tt))
      ∙ ap some (
          find_entry-last es e 0 new
          ∙ ap (λ k. found k (some (grade ++ (newline ∷ [])))) (omega arith)))
