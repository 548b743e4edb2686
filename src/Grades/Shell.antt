-- ===== src/Grades/Shell.antt =====
-- Reading a command line: the loop of `main` that splits it into tokens, `trim`, `cmdSize`, and the
-- choice of the command, of Homework1/main.c. malloc succeeds.
pub mod Words
mod Tests
use cse344system_programming.Prelude.{
  ℕ, zero, suc, ◌+◌, ◌-◌, ◌==◌, ltb, leb, if◌then◌else◌, Bool, true, false, ◌&&◌, ◌||◌, Option,
  none, some, List, [], ◌∷◌, ◌++◌, length, newline, space, str_eq, codes, not,
}

abbrev pub quote : ℕ
quote = b'"'

abbrev pub max_tokens : ℕ
max_tokens = 10

-- `cmdSize`.
unfoldable pub cmd_size : List ℕ → ℕ
cmd_size [] = 0
cmd_size (c ∷ cs) = cmd_size cs + 1

abbrev pub is_space : ℕ → Bool
is_space c = c == space || (leb 9 c && leb c 13)

-- `trim` takes white space off the end.
unfoldable pub trim : List ℕ → List ℕ
trim [] = []
trim (c ∷ cs) = elim (trim cs) [ [] ↦ if is_space c then [] else c ∷ [] | d ∷ ds ↦ c ∷ d ∷ ds ]

-- The bytes up to the closing quote, and those behind it; `none` where no quote closes: there the code
-- reads on behind the end of the buffer.
unfoldable pub quoted : List ℕ → Option (List ℕ × List ℕ)
quoted [] = none
quoted (c ∷ cs) =
    let rest = quoted cs in
    if c == quote
    then some ([], cs)
    else (elim rest [ none ↦ none | some (t, r) ↦ some (c ∷ t, r) ])

-- The bytes up to a space, and those behind it. A newline is a byte of the token.
unfoldable pub unquoted : List ℕ → List ℕ × List ℕ
unquoted [] = ([], [])
unquoted (c ∷ cs) = let (t, r) = unquoted cs in if c == space then ([], cs) else (c ∷ t, r)

-- The tokens from here on, with the room that is left in `tokens`, or `none` for a read behind the end
-- of the buffer. Every round takes a byte at least, which bounds the fuel.
unfoldable pub split_from : (fuel room : ℕ) → List ℕ → Option (List (List ℕ))
split_from zero room cs = some []
split_from (suc fuel) zero cs = some []
split_from (suc fuel) (suc room) [] = some []
split_from (suc fuel) (suc room) (c ∷ cs) =
    let skip = split_from fuel (suc room) cs in
    let word = (unquoted (c ∷ cs)).0 in
    let behind_word = split_from fuel room (unquoted (c ∷ cs)).1 in
    let in_quotes : Option (List (List ℕ)) = elim (quoted cs) [
      | none ↦ none
      | some (t, r) ↦ elim (split_from fuel room r) [ none ↦ none | some ts ↦ some (t ∷ ts) ]
    ] in
    if c == newline
    then some []
    else if c == quote
    then in_quotes
    else if c == space
    then skip
    else (elim behind_word [ none ↦ none | some ts ↦ some (word ∷ ts) ])

unfoldable pub split_tokens : List ℕ → Option (List (List ℕ))
unfolding split_from quoted unquoted
split_tokens buffer = split_from (length buffer) max_tokens buffer

-- The command that the shell runs, by the name and the number of tokens.
pub data Command : Type 0 where
  leave empty_line print_help bad_count not_found : Command
  create_file : (name : List ℕ) → Command
  add_grade : (name grade file : List ℕ) → Command
  search_student : (name file : List ℕ) → Command
  sort_all show_all list_grades : (file : List ℕ) → Command
  list_some : (entries page file : List ℕ) → Command

unfoldable pub grades_command : List (List ℕ) → Command
grades_command [] = print_help
grades_command (f ∷ []) = create_file f
grades_command _ = bad_count

unfoldable pub add_command : List (List ℕ) → Command
add_command (n ∷ g ∷ f ∷ []) = add_grade n g f
add_command _ = bad_count

unfoldable pub search_command : List (List ℕ) → Command
search_command (n ∷ f ∷ []) = search_student n f
search_command _ = bad_count

unfoldable pub file_command : (List ℕ → Command) → List (List ℕ) → Command
file_command run (f ∷ []) = run f
file_command run _ = bad_count

unfoldable pub some_command : List (List ℕ) → Command
some_command (n ∷ p ∷ f ∷ []) = list_some n p f
some_command _ = bad_count

-- The chain of strcmp over the trimmed first token.
unfoldable pub choose_command : List (List ℕ) → Command
choose_command [] = empty_line
choose_command (w ∷ args) =
    let name = trim w in
    if str_eq name (codes "q")
    then leave
    else if str_eq name (codes "gtuStudentGrades")
    then grades_command args
    else if str_eq name (codes "addStudentGrade")
    then add_command args
    else if str_eq name (codes "searchStudent")
    then search_command args
    else if str_eq name (codes "sortAll")
    then file_command sort_all args
    else if str_eq name (codes "showAll")
    then file_command show_all args
    else if str_eq name (codes "listGrades")
    then file_command list_grades args
    else if str_eq name (codes "listSome")
    then some_command args
    else not_found
