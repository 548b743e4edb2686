-- ===== src/FileServer/Client/Lines.antt =====
-- What a command line and an answer come to.
use cse344system_programming.Prelude.{
  ℕ, zero, suc, ◌-◌, ◌<◌, ◌≡◌, refl, ap, false, List, [], ◌∷◌, ◌++◌, length, length-append, take,
  get_or, newline, All, arith,
}
use cse344system_programming.FileServer.Client.{is_line_end, kept_length, read_command_line}

get_or-last : (cs : List ℕ) (c d : ℕ) → get_or (cs ++ c ∷ []) (length cs) d ≡ c
get_or-last [] c d = refl
get_or-last (x ∷ cs) c d = get_or-last cs c d

get_or-append : (cs ds : List ℕ) (i d : ℕ) → i < length cs → get_or (cs ++ ds) i d ≡ get_or cs i d
get_or-append [] ds i d h = absurd (omega arith)
get_or-append (x ∷ cs) ds zero d h = refl
get_or-append (x ∷ cs) ds (suc i) d h = get_or-append cs ds i d (omega arith)

take-length : (cs ds : List ℕ) → take (length cs) (cs ++ ds) ≡ cs
take-length [] ds = refl
take-length (c ∷ cs) ds = ap (λ l. c ∷ l) (take-length cs ds)

get_or-All :
    (cs : List ℕ) (i : ℕ)
    → All (λ c. is_line_end c ≡ false) cs
    → i < length cs
    → is_line_end (get_or cs i 0) ≡ false
get_or-All [] i h k = absurd (omega arith)
get_or-All (c ∷ cs) zero h k = h.0
get_or-All (c ∷ cs) (suc i) h k = get_or-All cs i h.1 (omega arith)

kept :
    (c : ℕ) (cs : List ℕ)
    → All (λ d. is_line_end d ≡ false) (c ∷ cs)
    → kept_length ((c ∷ cs) ++ newline ∷ []) ≡ length (c ∷ cs)
unfolding kept_length
kept c cs h =
    let n : length ((c ∷ cs) ++ newline ∷ []) ≡ suc (suc (length cs)) =
      omega (arith, length-append cs (newline ∷ [])) in
    let a : suc (suc (length cs)) - 2 ≡ length cs = omega arith in
    let b : suc (suc (length cs)) - 1 ≡ suc (length cs) = omega arith in
    let before : is_line_end (get_or ((c ∷ cs) ++ newline ∷ []) (length cs) 0) ≡ false =
      rw (get_or-append (c ∷ cs) (newline ∷ []) (length cs) 0 (omega arith))
        (get_or-All (c ∷ cs) (length cs) h (omega arith)) in
    let end : get_or ((c ∷ cs) ++ newline ∷ []) (suc (length cs)) 0 ≡ newline =
      get_or-last (c ∷ cs) newline 0 in
    rw (n, a, b) (rw (before, end) (ground arith))

-- `read_command_line` returns a command that is not empty and has no line end of its own, without the
-- newline behind it.
read_command_line-newline :
    (c : ℕ) (cs : List ℕ)
    → All (λ d. is_line_end d ≡ false) (c ∷ cs)
    → read_command_line ((c ∷ cs) ++ newline ∷ []) ≡ c ∷ cs
unfolding read_command_line
read_command_line-newline c cs h = rw (kept c cs h) (take-length (c ∷ cs) (newline ∷ []))
