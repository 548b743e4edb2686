-- ===== src/Grades/Paging/Tests.antt =====
-- Pages of a file of six entries.
use native.Mathlib.Omega.{arith}
use mathlib.Core.Path.{◌≡◌, refl}
use mathlib.Core.List.{List, [], ◌∷◌, ◌++◌}
use mathlib.Core.Logic.{inl}
use Prim.Native.Nat.{ℕ}
use cse344system_programming.Prelude.{codes, newline, take, drop, length, All, false, ◌+◌, ◌*◌, ◌≤◌}
use cse344system_programming.Grades.Paging.{cut, written_lines, list_grades, list_some}
use cse344system_programming.Grades.Paging.Tokens.{IsLine}
use cse344system_programming.Grades.Paging.Pages.{list_grades-first_lines, list_some-page}

abbrev entries : List (List ℕ)
entries =
    codes "a,AA" ∷ codes "b,BB" ∷ codes "c,CC" ∷ codes "d,AA" ∷ codes "e,BA" ∷ codes "f,NA" ∷ []

abbrev junk : List ℕ
junk = codes "junk"

entries-IsLine : All IsLine entries
entries-IsLine = ground arith

cuts_token : cut false (newline ∷ b'a' ∷ newline ∷ newline ∷ []) ≡ newline ∷ b'a' ∷ 0 ∷ newline ∷ []
unfolding cut
cuts_token = refl

entries-fit : length (written_lines entries) ≤ 256
unfolding written_lines
entries-fit = omega arith

list_grades-first_lines_example :
    list_grades junk (written_lines entries ++ []) ≡ written_lines (take 5 entries)
list_grades-first_lines_example =
    list_grades-first_lines junk entries [] entries-IsLine (omega arith) entries-fit
      (inl (omega arith))

list_some-page_example :
    list_some junk 2 (1 + 1) (written_lines entries ++ [])
    ≡ written_lines (take 2 (drop (1 * 2) entries))
list_some-page_example =
    list_some-page junk 2 1 entries [] entries-IsLine (omega arith) entries-fit (inl (omega arith))
      (omega arith)
