-- ===== src/Pipes/Bytes.antt =====
-- The bytes of ints in the FIFOs of Homework2/main.c.
use cse344system_programming.Prelude.{
  ℕ, ◌+◌, ◌*◌, ◌/◌, ◌%◌, ◌<◌, ◌≡◌, refl, sym, ap, ◌∙◌, some, List, [], ◌∷◌, ◌++◌, length, All,
  append_assoc, arith,
}
use cse344system_programming.Pipes.{int_range, bytes_of_int, read_int, bytes_of_ints, read_ints}

abbrev pub IsInt : ℕ → Type 0
IsInt n = n < int_range

four_bytes :
    (n : ℕ)
    → n < int_range
    → n % 256 + n / 256 % 256 * 256 + n / 65536 % 256 * 65536 + n / 16777216 % 256 * 16777216 ≡ n
four_bytes n h = omega (arith, h)

pub read_int-bytes_of_int :
    (n : ℕ) (rest : List ℕ) → IsInt n → read_int (bytes_of_int n ++ rest) ≡ some (n, rest)
unfolding read_int bytes_of_int
read_int-bytes_of_int n rest h = ap (λ k. some (k, rest)) (four_bytes n h)

pub read_ints-bytes_of_ints :
    (ns : List ℕ) → All IsInt ns → read_ints (length ns) (bytes_of_ints ns) ≡ some ns
unfolding read_ints bytes_of_ints
read_ints-bytes_of_ints [] h = refl
read_ints-bytes_of_ints (n ∷ ns) h =
    rw (read_ints, read_int-bytes_of_int n (bytes_of_ints ns) h.0, read_ints-bytes_of_ints ns h.1)
      refl

pub bytes_of_ints-append :
    (ns ms : List ℕ) → bytes_of_ints (ns ++ ms) ≡ bytes_of_ints ns ++ bytes_of_ints ms
unfolding bytes_of_ints
bytes_of_ints-append [] ms = refl
bytes_of_ints-append (n ∷ ns) ms =
    ap (λ l. bytes_of_int n ++ l) (bytes_of_ints-append ns ms)
    ∙ sym (append_assoc (bytes_of_int n) (bytes_of_ints ns) (bytes_of_ints ms))
