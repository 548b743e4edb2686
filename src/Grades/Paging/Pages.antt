-- ===== src/Grades/Paging/Pages.antt =====
-- The lines that `listGrades` and `listSome` of Homework1/main.c write.
use cse344system_programming.Prelude.{
  ℕ, zero, suc, ◌+◌, ◌-◌, ◌*◌, ◌<◌, ◌≤◌, ◌≡◌, refl, ap, ◌∙◌, ◌==◌, ltb, leb, true, false, List, [],
  ◌∷◌, ◌++◌, length, length-append, append_assoc, append-nil, newline, take, drop, take-append,
  take-drop_append, drop_all, length-take, if_lem, c_string, All, arith, ◌⊎◌, inl, inr,
}
use cse344system_programming.Grades.Records.{read_size}
use cse344system_programming.Grades.Paging.{
  read_into, tokens_in, cut, written_lines, listed, list_rounds, list_grades, some_from, list_some,
}
use cse344system_programming.Grades.Paging.Tokens.{
  IsLine, tokens_in-whole, tokens_in-written_lines, length-written_lines,
}

-- From an entry of the page on, of which `n` are left.
some_from-in_page :
    (entries page current n : ℕ) (ts : List (List ℕ))
    → current + suc n ≡ page * entries
    → page * entries ≤ current + entries
    → some_from entries page current ts ≡ written_lines (take (suc n) ts)
unfolding some_from written_lines
some_from-in_page entries page current n [] e h = refl
some_from-in_page entries page current zero (t ∷ ts) e h =
    let from : leb (page * entries) (current + entries) ≡ true = ground (arith, h) in
    let upto : ltb current (page * entries) ≡ true = ground (arith, e) in
    let over : (current + 1 == page * entries) ≡ true = ground (arith, e) in
    rw (from, upto, over) refl
some_from-in_page entries page current (suc n) (t ∷ ts) e h =
    let from : leb (page * entries) (current + entries) ≡ true = ground (arith, h) in
    let upto : ltb current (page * entries) ≡ true = ground (arith, e) in
    let over : (current + 1 == page * entries) ≡ false = ground (arith, e) in
    rw
      (
        from,
        upto,
        over,
        some_from-in_page entries page (current + 1) n ts (omega (arith, e)) (omega (arith, h)),
      )
      (append_assoc t (newline ∷ []) (written_lines (take (suc n) ts)))

-- From an entry before the page on.
some_from-page :
    (entries page current before : ℕ) (ts : List (List ℕ))
    → current + before + suc entries ≡ page * suc entries
    → some_from (suc entries) page current ts ≡ written_lines (take (suc entries) (drop before ts))
unfolding some_from written_lines
some_from-page entries page current zero ts e =
    some_from-in_page (suc entries) page current entries ts (omega (arith, e)) (omega (arith, e))
some_from-page entries page current (suc before) [] e = refl
some_from-page entries page current (suc before) (t ∷ ts) e =
    let from : leb (page * suc entries) (current + suc entries) ≡ false = ground (arith, e) in
    let over : (current + 1 == page * suc entries) ≡ false = ground (arith, e) in
    rw (from, over) (some_from-page entries page (current + 1) before ts (omega (arith, e)))

-- The buffer behind a read of a file that begins with a text that fits.
read_into-front :
    (text rest memory : List ℕ)
    → length text ≤ read_size
    → read_into (take read_size (text ++ rest)) memory
      ≡ text
        ++ (take (read_size - length text) rest
            ++ drop (length (take read_size (text ++ rest))) memory)
unfolding read_into
read_into-front text rest memory h =
    let front = take-append read_size text rest h in
    ap (λ t. t ++ drop (length (take read_size (text ++ rest))) memory) front
    ∙ append_assoc text (take (read_size - length text) rest)
        (drop (length (take read_size (text ++ rest))) memory)

-- There are as many lines as are needed, or these are the whole file and the buffer holds a zero byte behind.
abbrev pub AreEnough : (needed : ℕ) (ls : List (List ℕ)) (rest memory : List ℕ) → Type 0
AreEnough needed ls rest memory =
    (needed ≤ length ls) ⊎ ((rest ≡ []) × (c_string (drop (length (written_lines ls)) memory) ≡ []))

-- A segment of the tokens in the buffer.
tokens_in-segment :
    (memory : List ℕ) (ls : List (List ℕ)) (rest : List ℕ) (n m : ℕ)
    → All IsLine ls
    → length (written_lines ls) ≤ read_size
    → AreEnough (m + n) ls rest memory
    → take n (drop m (tokens_in (read_into (take read_size (written_lines ls ++ rest)) memory)))
      ≡ take n (drop m ls)
tokens_in-segment memory ls rest n m h k (inl enough) =
    let (others, tokens, ended) =
      tokens_in-written_lines ls
        (take (read_size - length (written_lines ls)) rest
          ++ drop (length (take read_size (written_lines ls ++ rest))) memory)
        h in
    rw (read_into-front (written_lines ls) rest memory k, tokens)
      (take-drop_append n m ls others enough)
tokens_in-segment memory ls rest n m h k (inr (whole, ends)) =
    rw (whole, append-nil (written_lines ls), tokens_in-whole read_size ls memory h k ends) refl

list_some-read :
    (memory : List ℕ) (entries page : ℕ) (file : List ℕ)
    → 0 < length file
    → list_some memory entries page file
      ≡ some_from entries page 0 (tokens_in (read_into (take read_size file) memory))
unfolding list_some
list_some-read memory entries page [] h = absurd (omega arith)
list_some-read memory entries page (c ∷ file) h = refl

-- `listSome` writes the lines of the page, the pages having `entries` lines and the first being page 1, where
-- the lines up to the end of the page, or all that the file has with a zero byte in the buffer behind them,
-- stand in the bytes that are read.
pub list_some-page :
    (memory : List ℕ) (entries page : ℕ) (ls : List (List ℕ)) (rest : List ℕ)
    → All IsLine ls
    → 0 < length ls
    → length (written_lines ls) ≤ read_size
    → AreEnough (page * entries + entries) ls rest memory
    → 0 < entries
    → list_some memory entries (page + 1) (written_lines ls ++ rest)
      ≡ written_lines (take entries (drop (page * entries) ls))
list_some-page memory zero page ls rest h some_line k enough pos = absurd (omega arith)
list_some-page memory (suc entries) page ls rest h some_line k enough pos =
    let file : List ℕ = written_lines ls ++ rest in
    list_some-read memory (suc entries) (page + 1) file
      (omega (arith, length-append (written_lines ls) rest, length-written_lines ls))
    ∙ some_from-page entries (page + 1) 0 (page * suc entries)
        (tokens_in (read_into (take read_size file) memory)) (omega arith)
    ∙ ap written_lines
        (tokens_in-segment memory ls rest (suc entries) (page * suc entries) h k enough)

list_rounds-nil : (fuel : ℕ) (memory : List ℕ) (count : ℕ) → list_rounds fuel [] memory count ≡ []
unfolding list_rounds
list_rounds-nil zero memory count = refl
list_rounds-nil (suc fuel) memory count = refl

-- Where the first round finds five entries or reads the whole file, it writes all that is written.
list_rounds-first :
    (fuel : ℕ) (rest memory : List ℕ) (shown : List (List ℕ))
    → 0 < length rest
    → take listed (tokens_in (read_into (take read_size rest) memory)) ≡ shown
    → (length shown ≡ listed) ⊎ (drop read_size rest ≡ [])
    → list_rounds (suc fuel) rest memory 0 ≡ written_lines shown
unfolding list_rounds
list_rounds-first fuel [] memory shown h e k = absurd (omega arith)
list_rounds-first fuel (c ∷ rest) memory shown h e (inl full) =
    let done : (0 + length shown == listed) ≡ true = ground (arith, full) in rw (e, done) refl
list_rounds-first fuel (c ∷ rest) memory shown h e (inr whole) =
    let buffer = read_into (take read_size (c ∷ rest)) memory in
    rw e (
      if_lem (λ t. t ≡ written_lines shown) (0 + length shown == listed) refl
        (ap (λ l. written_lines shown ++ l)
            (ap (λ l. list_rounds fuel l (cut false buffer) (0 + length shown)) whole
              ∙ list_rounds-nil fuel (cut false buffer) (0 + length shown))
          ∙ append-nil (written_lines shown)))

-- `listGrades` writes the first five lines of a file, where these, or all that the file has with a zero byte
-- in the buffer behind them, stand in the first bytes that are read.
pub list_grades-first_lines :
    (memory : List ℕ) (ls : List (List ℕ)) (rest : List ℕ)
    → All IsLine ls
    → 0 < length ls
    → length (written_lines ls) ≤ read_size
    → AreEnough listed ls rest memory
    → list_grades memory (written_lines ls ++ rest) ≡ written_lines (take listed ls)
unfolding list_grades
list_grades-first_lines memory ls rest h some_line k enough =
    let file : List ℕ = written_lines ls ++ rest in
    let shown : take listed (tokens_in (read_into (take read_size file) memory)) ≡ take listed ls =
      tokens_in-segment memory ls rest listed 0 h k enough in
    let some_byte : 0 < length file =
      omega (arith, length-append (written_lines ls) rest, length-written_lines ls) in
    let fuel : length file ≡ suc (length file - 1) = omega (arith, some_byte) in
    ap (λ n. list_rounds n file memory 0) fuel
    ∙ list_rounds-first (length file - 1) file memory (take listed ls) some_byte shown
        (elim enough [
          | inl five ↦ inl (omega (arith, five, length-take listed ls))
          | inr (whole, ends) ↦
              inr (
                rw (whole, append-nil (written_lines ls)) (drop_all read_size (written_lines ls) k))
        ])
