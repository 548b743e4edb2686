-- ===== src/Grades/Paging/Tokens.antt =====
-- The tokens of a text of lines.
use cse344system_programming.Prelude.{
  ℕ, zero, suc, ◌+◌, ◌-◌, ◌<◌, ◌≤◌, ◌≡◌, ◌≢◌, refl, sym, false, ap, ◌∙◌, ◌==◌, List, [], ◌∷◌, ◌++◌,
  length, length-append, append_assoc, newline, c_string, append-nil, All, arith, take, drop,
  take_all, none, some,
}
use cse344system_programming.Grades.Records.{strtok, past, up_to}
use cse344system_programming.Grades.Records.Search.{strtok-sep}
use cse344system_programming.Grades.Paging.{read_into, tokens_of, tokens_in, written_lines}

-- A line without its newline: not empty, and with no newline and no zero byte in it.
abbrev pub IsLine : List ℕ → Type 0
IsLine l = (0 < length l) × All (λ c. c ≢ newline) l × All (λ c. c ≢ 0) l

tokens_of-written_lines :
    (total fuel : ℕ) (ls : List (List ℕ)) (rest : List ℕ)
    → total ≡ length ls + fuel
    → All IsLine ls
    → tokens_of total (written_lines ls ++ rest) ≡ ls ++ tokens_of fuel rest
unfolding tokens_of written_lines
tokens_of-written_lines total fuel [] rest e h = ap (λ n. tokens_of n rest) (omega (arith, e))
tokens_of-written_lines zero fuel (l ∷ ls) rest e h = absurd (omega (arith, e))
tokens_of-written_lines (suc total) fuel (l ∷ ls) rest e h =
    let cut_off = strtok-sep newline l (written_lines ls ++ rest) h.0.0 h.0.1 in
    rw (append_assoc l (newline ∷ written_lines ls) rest, tokens_of, cut_off)
      (ap (λ ts. l ∷ ts) (tokens_of-written_lines total fuel ls rest (omega (arith, e)) h.1))

tokens_of-nil : (fuel : ℕ) → tokens_of fuel [] ≡ []
unfolding tokens_of strtok past
tokens_of-nil zero = refl
tokens_of-nil (suc fuel) = refl

c_string-nonzero :
    (cs behind : List ℕ) → All (λ c. c ≢ 0) cs → c_string (cs ++ behind) ≡ cs ++ c_string behind
unfolding c_string
c_string-nonzero [] behind h = refl
c_string-nonzero (c ∷ cs) behind h =
    let other : (c == 0) ≡ false = ground (arith, h.0) in
    rw (other, c_string-nonzero cs behind h.1) refl

c_string-written_lines :
    (ls : List (List ℕ)) (behind : List ℕ)
    → All IsLine ls
    → c_string (written_lines ls ++ behind) ≡ written_lines ls ++ c_string behind
unfolding written_lines c_string
c_string-written_lines [] behind h = refl
c_string-written_lines (l ∷ ls) behind h =
    rw
      (
        append_assoc l (newline ∷ written_lines ls) behind,
        append_assoc l (newline ∷ written_lines ls) (c_string behind),
      )
      (c_string-nonzero l (newline ∷ written_lines ls ++ behind) h.0.2
        ∙ ap (λ t. l ++ (newline ∷ t)) (c_string-written_lines ls behind h.1))

-- No line is longer than the text.
pub length-written_lines : (ls : List (List ℕ)) → length ls ≤ length (written_lines ls)
unfolding written_lines
length-written_lines [] = omega arith
length-written_lines (l ∷ ls) =
    omega (arith, length-written_lines ls, length-append l (newline ∷ written_lines ls))

-- The tokens of a buffer that begins with lines are these lines, and others behind them if there is a text
-- behind.
pub tokens_in-written_lines :
    (ls : List (List ℕ)) (behind : List ℕ)
    → All IsLine ls
    → (others : List (List ℕ)) × (tokens_in (written_lines ls ++ behind) ≡ ls ++ others)
      × (c_string behind ≡ [] → others ≡ [])
unfolding tokens_in
tokens_in-written_lines ls behind h =
    let memory : List ℕ = written_lines ls ++ behind in
    let left : ℕ = length memory - length ls in
    let whole : length memory ≡ length ls + left =
      omega (arith, length-append (written_lines ls) behind, length-written_lines ls) in
    (
      tokens_of left (c_string behind),
      ap (tokens_of (length memory)) (c_string-written_lines ls behind h)
          ∙ tokens_of-written_lines (length memory) left ls (c_string behind) whole h,
      λ e. ap (tokens_of left) e ∙ tokens_of-nil left,
    )

length-past : (sep : ℕ) (cs : List ℕ) → length (past sep cs) ≤ length cs
unfolding past
length-past sep [] = omega arith
length-past sep (c ∷ cs) = ground (arith, length-past sep cs)

length-up_to : (sep : ℕ) (cs : List ℕ) → length (up_to sep cs).1 ≤ length cs - 1
unfolding up_to
length-up_to sep [] = omega arith
length-up_to sep (c ∷ cs) = ground (arith, length-up_to sep cs)

length-c_string : (cs : List ℕ) → length (c_string cs) ≤ length cs
unfolding c_string
length-c_string [] = omega arith
length-c_string (c ∷ cs) = ground (arith, length-c_string cs)

tokens_of-past :
    (n : ℕ) (text : List ℕ) (c : ℕ) (from : List ℕ)
    → past newline text ≡ c ∷ from
    → let t = up_to newline (c ∷ from) in tokens_of (suc n) text ≡ t.0 ∷ tokens_of n t.1
unfolding tokens_of strtok
tokens_of-past n text c from e =
    let t : strtok newline text ≡ some (up_to newline (c ∷ from)) = rw (strtok, e) refl in
    rw (tokens_of, t) refl

tokens_of-past_all : (n : ℕ) (text : List ℕ) → past newline text ≡ [] → tokens_of (suc n) text ≡ []
unfolding tokens_of strtok
tokens_of-past_all n text e =
    let t : strtok newline text ≡ none = rw (strtok, e) refl in rw (tokens_of, t) refl

tokens_of-next :
    (n m : ℕ) (text from : List ℕ)
    → ((rest : List ℕ) → length rest ≤ n → length rest ≤ m → tokens_of n rest ≡ tokens_of m rest)
    → past newline text ≡ from
    → length from ≤ suc n
    → length from ≤ suc m
    → tokens_of (suc n) text ≡ tokens_of (suc m) text
tokens_of-next n m text [] later e h k =
    tokens_of-past_all n text e ∙ sym (tokens_of-past_all m text e)
tokens_of-next n m text (c ∷ from) later e h k =
    let t = up_to newline (c ∷ from) in
    tokens_of-past n text c from e
    ∙ ap (λ ts. t.0 ∷ ts)
        (later t.1 (omega (arith, length-up_to newline (c ∷ from), h))
          (omega (arith, length-up_to newline (c ∷ from), k)))
    ∙ sym (tokens_of-past m text c from e)

-- A call of strtok takes a byte at least, so fuel as long as the text is enough.
tokens_of-fuel :
    (n m : ℕ) (text : List ℕ)
    → length text ≤ n
    → length text ≤ m
    → tokens_of n text ≡ tokens_of m text
tokens_of-fuel zero m [] h k = tokens_of-nil zero ∙ sym (tokens_of-nil m)
tokens_of-fuel zero m (c ∷ text) h k = absurd (omega arith)
tokens_of-fuel (suc n) zero [] h k = tokens_of-nil (suc n) ∙ sym (tokens_of-nil zero)
tokens_of-fuel (suc n) zero (c ∷ text) h k = absurd (omega arith)
tokens_of-fuel (suc n) (suc m) text h k =
    tokens_of-next n m text (past newline text) (λ rest. tokens_of-fuel n m rest) refl
      (omega (arith, length-past newline text)) (omega (arith, length-past newline text))

-- The tokens of a buffer that begins with lines are these lines, and those of what stands behind them.
pub tokens_in-behind :
    (ls : List (List ℕ)) (behind : List ℕ)
    → All IsLine ls
    → tokens_in (written_lines ls ++ behind) ≡ ls ++ tokens_in behind
unfolding tokens_in
tokens_in-behind ls behind h =
    let memory : List ℕ = written_lines ls ++ behind in
    let left : ℕ = length memory - length ls in
    let some_left : length memory ≡ length ls + left =
      omega (arith, length-append (written_lines ls) behind, length-written_lines ls) in
    ap (tokens_of (length memory)) (c_string-written_lines ls behind h)
    ∙ tokens_of-written_lines (length memory) left ls (c_string behind) some_left h
    ∙ ap (λ ts. ls ++ ts)
        (tokens_of-fuel left (length behind) (c_string behind)
          (omega (
            arith,
            length-c_string behind,
            length-append (written_lines ls) behind,
            length-written_lines ls,
          ))
          (length-c_string behind))

-- The tokens of a buffer that takes a whole text of lines, and of the memory behind it.
pub tokens_in-read :
    (size : ℕ) (ls : List (List ℕ)) (memory : List ℕ)
    → All IsLine ls
    → length (written_lines ls) ≤ size
    → tokens_in (read_into (take size (written_lines ls)) memory)
      ≡ ls ++ tokens_in (drop (length (written_lines ls)) memory)
unfolding read_into
tokens_in-read size ls memory h fits =
    let file : List ℕ = written_lines ls in
    rw (take_all size file fits) (tokens_in-behind ls (drop (length file) memory) h)

-- The tokens of a buffer that takes a whole text of lines, with a zero byte behind it.
pub tokens_in-whole :
    (size : ℕ) (ls : List (List ℕ)) (memory : List ℕ)
    → All IsLine ls
    → length (written_lines ls) ≤ size
    → c_string (drop (length (written_lines ls)) memory) ≡ []
    → tokens_in (read_into (take size (written_lines ls)) memory) ≡ ls
unfolding tokens_in
tokens_in-whole size ls memory h fits ends =
    let behind : List ℕ = drop (length (written_lines ls)) memory in
    tokens_in-read size ls memory h fits
    ∙ ap (λ t. ls ++ tokens_of (length behind) t) ends
    ∙ ap (λ ts. ls ++ ts) (tokens_of-nil (length behind))
    ∙ append-nil ls
