-- ===== src/Grades/Shell/Tests.antt =====
-- Command lines of the shell.
use native.Mathlib.Omega.{arith}
use mathlib.Core.Path.{◌≡◌, refl}
use mathlib.Core.Option.{none}
use mathlib.Core.List.{List, [], ◌∷◌}
use Prim.Native.Nat.{ℕ}
use cse344system_programming.Prelude.{codes, All}
use cse344system_programming.Prelude.{str_eq, strcmp}
use cse344system_programming.Grades.Shell.{
  split_tokens, split_from, quoted, unquoted, trim, choose_command, add_command, add_grade,
}
use cse344system_programming.Grades.Shell.Words.{IsQuotable}

abbrev words : List (List ℕ)
words = codes "addStudentGrade" ∷ codes "Ada L" ∷ codes "AA" ∷ []

words-IsQuotable : All IsQuotable words
words-IsQuotable = ground arith

adds-grade :
    choose_command (codes "addStudentGrade" ∷ codes "Ada" ∷ codes "AA" ∷ codes "f" ∷ [])
    ≡ add_grade (codes "Ada") (codes "AA") (codes "f")
unfolding choose_command trim add_command str_eq strcmp
adds-grade = refl

-- No quote closes.
unclosed : split_tokens (codes "\"ab") ≡ none
unfolding split_tokens split_from quoted unquoted
unclosed = refl
