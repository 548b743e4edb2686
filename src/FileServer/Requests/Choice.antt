-- ===== src/FileServer/Requests/Choice.antt =====
-- Which action a request comes to.

use cse344system_programming.Prelude.{
  ℕ, ◌+◌, ◌-◌, ◌*◌, ◌<◌, ◌^◌, ◌≡◌, refl, if◌then◌else◌, true, none, some, List, [], ◌∷◌, All, arith,
  leb,
}
use cse344system_programming.FileServer.Requests.{is_digit, digits_from, str_to_int, line_argument}

-- The number that decimal digits write, behind the value of the digits before them.
unfoldable pub decimal : ℕ → List ℕ → ℕ
decimal value [] = value
decimal value (c ∷ cs) = decimal (value * 10 + (c - b'0')) cs

digits_from-decimal :
    (cs : List ℕ) (value : ℕ)
    → All (λ c. is_digit c ≡ true) cs
    → digits_from value cs ≡ (decimal value cs, [])
unfolding digits_from decimal
digits_from-decimal [] value h = refl
digits_from-decimal (c ∷ cs) value h = rw h.0 (digits_from-decimal cs (value * 10 + (c - b'0')) h.1)

-- A line number whose decimal digits write a number below 2 ^ 31 is accepted just where that is positive,
-- and as that number.
line_argument_of_digits :
    (c : ℕ) (cs : List ℕ)
    → All (λ d. is_digit d ≡ true) (c ∷ cs)
    → decimal 0 (c ∷ cs) < 2 ^ 31
    → line_argument (c ∷ cs)
      ≡ (if leb 1 (decimal 0 (c ∷ cs)) then some (decimal 0 (c ∷ cs)) else none)
unfolding line_argument str_to_int
line_argument_of_digits c cs h k = rw (digits_from-decimal (c ∷ cs) 0 h) (ground (arith, h.0))
