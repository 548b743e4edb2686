-- ===== src/FileServer/Reading/Tests.antt =====
-- Reading lines of a small file, and a line that fills its memory.
use native.Mathlib.Omega.{arith}
use mathlib.Core.Path.{◌≡◌, refl}
use mathlib.Core.Logic.{◌≢◌}
use mathlib.Core.Option.{none, some}
use mathlib.Core.List.{List, [], ◌∷◌, ◌++◌}
use Prim.Native.Nat.{ℕ, zero, suc}
use cse344system_programming.Prelude.{newline, length, length-replicate, replicate, All}
use cse344system_programming.FileServer.Reading.{
  find_line, seek_line, seek_from, read_next_line, read_line_from,
}
use cse344system_programming.FileServer.Reading.Lines.{terminator_overflows}

abbrev poem : List ℕ
poem = b'a' ∷ newline ∷ b'b' ∷ b'c' ∷ newline ∷ b'd' ∷ []

second-line : find_line poem 2 ≡ some (b'b' ∷ b'c' ∷ newline ∷ [])
unfolding find_line seek_line seek_from read_next_line read_line_from
second-line = refl

no-line : find_line poem 5 ≡ none
unfolding find_line seek_line seek_from read_next_line read_line_from
no-line = refl

replicate-All : (n : ℕ) → All (λ c. c ≢ newline) (replicate n b'a')
replicate-All zero = tt
replicate-All (suc n) = (omega arith, replicate-All n)

-- 1023 letters and a newline.
terminator_overflows_example :
    let r = read_next_line (replicate 1023 b'a' ++ newline ∷ poem) in length r.line ≡ r.line_size
terminator_overflows_example =
    terminator_overflows (replicate 1023 b'a') poem (replicate-All 1023)
      (omega (arith, length-replicate {A = ℕ} 1023 b'a'))
