-- ===== src/FileServer/Reading/Lines.antt =====
-- The line that is found is the line of that number, and the memory that holds it.

use cse344system_programming.Prelude.{
  ℕ, zero, suc, ◌+◌, ◌<◌, ◌≡◌, ◌≢◌, refl, sym, ◌==◌, if◌then◌else◌, true, false, some, List, [],
  ◌∷◌, ◌++◌, newline, get_elem?, length, length-append, All, arith, Bool-cases, inl, inr,
}
use cse344system_programming.FileServer.Reading.{
  found, seek_from, seek_line, buff_size, grow_line, read_line_from, read_next_line, line_at,
  find_line,
}

-- A byte in front of the first line.
abbrev onto_first : ℕ → List (List ℕ) → List (List ℕ)
onto_first c [] = (c ∷ []) ∷ []
onto_first c (l ∷ ls) = (c ∷ l) ∷ ls

-- The lines of a file: each newline ends one, and what is behind the last newline is one more.
unfoldable pub lines_of : List ℕ → List (List ℕ)
lines_of [] = [] ∷ []
lines_of (c ∷ cs) = if c == newline then (c ∷ []) ∷ lines_of cs else onto_first c (lines_of cs)

onto_first-zero :
    (c : ℕ) (ls : List (List ℕ)) {l : List ℕ}
    → get_elem? ls 0 ≡ some l
    → get_elem? (onto_first c ls) 0 ≡ some (c ∷ l)
onto_first-zero c [] e = cc
onto_first-zero c (l ∷ ls) e = cc

onto_first-suc :
    (c : ℕ) (ls : List (List ℕ)) (d : ℕ)
    → get_elem? (onto_first c ls) (suc d) ≡ get_elem? ls (suc d)
onto_first-suc c [] d = refl
onto_first-suc c (l ∷ ls) d = refl

-- `read_next_line` reads the first line, whatever memory it holds already.
read_line_from-first :
    (cs : List ℕ) (n size : ℕ) → get_elem? (lines_of cs) 0 ≡ some (read_line_from cs n size).line
unfolding lines_of read_line_from
read_line_from-first [] n size = refl
read_line_from-first (c ∷ cs) n size = elim (Bool-cases (c == newline)) [
  | inl e ↦ rw e
  | inr e ↦
      rw e (onto_first-zero c (lines_of cs) (read_line_from-first cs (n + 1) (grow_line n size)))
]

line_at-newline :
    (cs : List ℕ) (line_no count k d : ℕ)
    → line_no ≡ count + suc d
    → ((d' : ℕ)
        → suc d' ≡ d
        → line_at (seek_from cs line_no (count + 1) (k + 1)) ≡ get_elem? (lines_of cs) d)
    → line_at
        (if count + 1 == line_no then found k cs else seek_from cs line_no (count + 1) (k + 1))
      ≡ get_elem? (lines_of cs) d
unfolding read_next_line
line_at-newline cs line_no count k zero e ih =
    let here : (count + 1 == line_no) ≡ true = ground arith in
    rw here (sym (read_line_from-first cs 0 0))
line_at-newline cs line_no count k (suc d) e ih =
    let on : (count + 1 == line_no) ≡ false = ground arith in rw on (ih d refl)

seek_from-line :
    (cs : List ℕ) (line_no count k d : ℕ)
    → line_no ≡ count + suc d
    → line_at (seek_from cs line_no count k) ≡ get_elem? (lines_of cs) (suc d)
unfolding lines_of seek_from
seek_from-line [] line_no count k d e = refl
seek_from-line (c ∷ cs) line_no count k d e = elim (Bool-cases (c == newline)) [
  | inl here ↦ rw here (
      line_at-newline cs line_no count k d e
        λ d' ed. rw (← ed) (seek_from-line cs line_no (count + 1) (k + 1) d' (omega arith)))
  | inr on ↦ rw (on, onto_first-suc) (seek_from-line cs line_no count (k + 1) d e)
]

-- `cmd_readF` finds the line of the number asked for, counted from 1, with its newline, and finds
-- none just where the file has fewer lines.
pub find_line-lines_of :
    (content : List ℕ) (n : ℕ) → find_line content (suc n) ≡ get_elem? (lines_of content) n
unfolding find_line seek_line read_next_line
find_line-lines_of content zero = sym (read_line_from-first content 0 0)
find_line-lines_of content (suc n) =
    let on : (suc (suc n) == 1) ≡ false = ground arith in
    rw on (seek_from-line content (suc (suc n)) 1 0 n (omega arith))

-- A line within the first piece of memory: the terminator's index is the line's length, the size is
-- `buff_size`.
pub line_size_of_short :
    (body rest : List ℕ) (n : ℕ)
    → All (λ c. c ≢ newline) body
    → n + length body < buff_size
    → 0 < n
    → let r = read_line_from (body ++ newline ∷ rest) n buff_size in
      (r.line ≡ body ++ newline ∷ []) × (r.rest ≡ rest) × (r.line_size ≡ buff_size)
unfolding read_line_from
line_size_of_short [] rest n h lt pos = ground arith
line_size_of_short (c ∷ body) rest n h lt pos =
    ground (arith, line_size_of_short body rest (n + 1) h.1)

-- A line whose bytes, its newline included, fill the first piece of memory exactly: the terminator is
-- written one byte behind the memory.
pub terminator_overflows :
    (body rest : List ℕ)
    → All (λ c. c ≢ newline) body
    → length body + 1 ≡ buff_size
    → let r = read_next_line (body ++ newline ∷ rest) in length r.line ≡ r.line_size
unfolding read_next_line read_line_from
terminator_overflows [] rest h e = absurd (omega arith)
terminator_overflows (c ∷ body) rest h e =
    ground (arith, h.0, line_size_of_short body rest 1 h.1, length-append body (newline ∷ []))
