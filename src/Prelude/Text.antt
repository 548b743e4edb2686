-- ===== src/Prelude/Text.antt =====
-- C strings as lists of bytes without the terminator: strcmp, literals, and bytes by name.
use Prim.Native.Nat.{ℕ, compare, Ordering}
use Prim.Native.Char.{code}
use Prim.Native.String.{String}
use mathlib.Core.Path.{◌≡◌, refl}
use mathlib.Core.Logic.{◌↔◌}
use mathlib.Core.Bool.{Bool, true, false}
use mathlib.Core.List.{List, [], ◌∷◌}
use native.Mathlib.Omega.{arith}
use cse344system_programming.Prelude.Tests.{if◌then◌else◌, ◌==◌}

-- The bytes of an ASCII literal.
abbrev pub codes : String → List ℕ
codes String.[] = []
codes (String.◌∷◌ c s) = code c ∷ codes s

-- The sign of strcmp.
unfoldable pub strcmp : List ℕ → List ℕ → Ordering
strcmp [] [] = Ordering.eq
strcmp [] (y ∷ ys) = Ordering.lt
strcmp (x ∷ xs) [] = Ordering.gt
strcmp (x ∷ xs) (y ∷ ys) = elim (compare x y) [
  | Ordering.lt ↦ Ordering.lt
  | Ordering.eq ↦ strcmp xs ys
  | Ordering.gt ↦ Ordering.gt
]

-- `strcmp(a, b) == 0`
unfoldable pub str_eq : List ℕ → List ℕ → Bool
unfolding strcmp
str_eq a b = elim (strcmp a b) [ Ordering.eq ↦ true | _ ↦ false ]

pub strcmp_refl : (a : List ℕ) → strcmp a a ≡ Ordering.eq
unfolding strcmp
strcmp_refl [] = refl
strcmp_refl (x ∷ xs) = ground (arith, strcmp_refl xs)

pub eq_of_strcmp : (a b : List ℕ) → strcmp a b ≡ Ordering.eq → a ≡ b
unfolding strcmp
eq_of_strcmp [] [] h = refl
eq_of_strcmp [] (y ∷ ys) h = ground arith
eq_of_strcmp (x ∷ xs) [] h = ground arith
eq_of_strcmp (x ∷ xs) (y ∷ ys) h = ground (arith, eq_of_strcmp xs ys)

-- The two orders of arguments agree.
pub strcmp_flip : (a b : List ℕ) → strcmp a b ≡ Ordering.lt → strcmp b a ≡ Ordering.gt
unfolding strcmp
strcmp_flip [] [] h = ground arith
strcmp_flip [] (y ∷ ys) h = refl
strcmp_flip (x ∷ xs) [] h = ground arith
strcmp_flip (x ∷ xs) (y ∷ ys) h = ground (arith, strcmp_flip xs ys)

pub strcmp_trans :
    (a b c : List ℕ)
    → strcmp a b ≡ Ordering.lt
    → strcmp b c ≡ Ordering.lt
    → strcmp a c ≡ Ordering.lt
unfolding strcmp
strcmp_trans [] [] c h k = ground arith
strcmp_trans [] (y ∷ ys) [] h k = ground arith
strcmp_trans [] (y ∷ ys) (z ∷ zs) h k = refl
strcmp_trans (x ∷ xs) [] c h k = ground arith
strcmp_trans (x ∷ xs) (y ∷ ys) [] h k = ground arith
strcmp_trans (x ∷ xs) (y ∷ ys) (z ∷ zs) h k = ground (arith, strcmp_trans xs ys zs)

pub str_eq_iff : (a b : List ℕ) → (str_eq a b ≡ true) ↔ (a ≡ b)
unfolding str_eq
str_eq_iff a b = (λ h. eq_of_strcmp a b (ground arith), λ e. ground (arith, strcmp_refl a))

abbrev pub newline : ℕ
newline = 10

abbrev pub space : ℕ
space = 32

-- A C string ends before the first 0.
unfoldable pub c_string : List ℕ → List ℕ
c_string [] = []
c_string (c ∷ cs) = let rest = c_string cs in if c == 0 then [] else c ∷ rest
