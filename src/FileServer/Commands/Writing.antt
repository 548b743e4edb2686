-- ===== src/FileServer/Commands/Writing.antt =====
-- What `cmd_writeT` does to a file, and what it reports.
use cse344system_programming.Prelude.{
  ℕ, zero, suc, ◌+◌, ◌-◌, ◌<◌, ◌≤◌, ◌≡◌, refl, ap, ◌∙◌, ◌==◌, if◌then◌else◌, Bool, true, false,
  some, List, [], ◌∷◌, ◌++◌, length, take, drop, length-append, arith, Bool-cases, inl, inr, ◌⊎◌,
  newline,
}
use cse344system_programming.FileServer.Reading.{Seek, found, exceeded, seek_from, seek_line}
use cse344system_programming.FileServer.Commands.{
  Written, write_and_answer, write_at, write_found, write_text,
}

-- The number of newlines in a text.
unfoldable pub newlines : List ℕ → ℕ
newlines [] = 0
newlines (c ∷ cs) = if c == newline then suc (newlines cs) else newlines cs

-- A text behind which a line starts: it is empty, or ends in a newline.
unfoldable pub EndsLine : List ℕ → Type 0
EndsLine [] = Unit
EndsLine (c ∷ []) = c ≡ newline
EndsLine (c ∷ d ∷ cs) = EndsLine (d ∷ cs)

-- What a search for the line leaves behind the offset: a line starts there, and the text before it has `gap`
-- newlines.
abbrev pub Splits : List ℕ → ℕ → Seek → Type 0
Splits content gap (found k rest) =
    (before : List ℕ) × (content ≡ before ++ rest) × (newlines before ≡ gap) × EndsLine before
Splits content gap (exceeded count) = newlines content < gap

EndsLine-newline : (c : ℕ) (before : List ℕ) → c ≡ newline → EndsLine before → EndsLine (c ∷ before)
unfolding EndsLine
EndsLine-newline c [] e h = e
EndsLine-newline c (d ∷ before) e h = h

EndsLine-newlines :
    (c : ℕ) (before : List ℕ) → 0 < newlines before → EndsLine before → EndsLine (c ∷ before)
unfolding EndsLine newlines
EndsLine-newlines c [] pos h = absurd (omega arith)
EndsLine-newlines c (d ∷ before) pos h = h

Splits-newline :
    (c : ℕ) (cs : List ℕ) (gap : ℕ) (s : Seek)
    → (c == newline) ≡ true
    → Splits cs gap s
    → Splits (c ∷ cs) (suc gap) s
unfolding newlines
Splits-newline c cs gap (found k rest) e (before, whole, n, ends) =
    (c ∷ before, ap (λ l. c ∷ l) whole, ground arith, EndsLine-newline c before (ground arith) ends)
Splits-newline c cs gap (exceeded count) e h = ground arith

Splits-other :
    (c : ℕ) (cs : List ℕ) (gap : ℕ) (s : Seek)
    → (c == newline) ≡ false
    → Splits cs (suc gap) s
    → Splits (c ∷ cs) (suc gap) s
unfolding newlines
Splits-other c cs gap (found k rest) e (before, whole, n, ends) = (
  c ∷ before,
  ap (λ l. c ∷ l) whole,
  ground arith,
  EndsLine-newlines c before (omega (arith, n)) ends,
)
Splits-other c cs gap (exceeded count) e h = ground arith

Splits-here :
    (cs : List ℕ) (line_no count k d : ℕ)
    → line_no ≡ count + suc d
    → ((d' : ℕ) → suc d' ≡ d → Splits cs d (seek_from cs line_no (count + 1) (k + 1)))
    → Splits cs d
        (if count + 1 == line_no then found k cs else seek_from cs line_no (count + 1) (k + 1))
unfolding newlines EndsLine
Splits-here cs line_no count k zero e ih =
    let here : (count + 1 == line_no) ≡ true = ground arith in rw here ([], refl, refl, tt)
Splits-here cs line_no count k (suc d) e ih =
    let on : (count + 1 == line_no) ≡ false = ground arith in rw on (ih d refl)

seek_from-Splits :
    (cs : List ℕ) (line_no count k d : ℕ)
    → line_no ≡ count + suc d
    → Splits cs (suc d) (seek_from cs line_no count k)
unfolding seek_from newlines
seek_from-Splits [] line_no count k d e = omega arith
seek_from-Splits (c ∷ cs) line_no count k d e = elim (Bool-cases (c == newline)) [
  | inl here ↦ rw here (
      Splits-newline c cs d _ here (
        Splits-here cs line_no count k d e
          λ d' ed. rw (← ed) (seek_from-Splits cs line_no (count + 1) (k + 1) d' (omega arith))))
  | inr on ↦ rw on (Splits-other c cs d _ on (seek_from-Splits cs line_no count (k + 1) d e))
]

-- `seek_line` finds line `n + 1` just where the file has `n` newlines or more, and leaves the offset behind the
-- `n`th of them.
seek_line-Splits : (content : List ℕ) (n : ℕ) → Splits content n (seek_line content (suc n))
unfolding seek_line newlines EndsLine
seek_line-Splits content zero = ([], refl, refl, tt)
seek_line-Splits content (suc n) =
    let on : (suc (suc n) == 1) ≡ false = ground arith in
    rw on (seek_from-Splits content (suc (suc n)) 1 0 n (omega arith))

take-before : (before rest : List ℕ) → take (length before) (before ++ rest) ≡ before
take-before [] rest = refl
take-before (c ∷ before) rest = ap (λ l. c ∷ l) (take-before before rest)

drop-before :
    (before rest : List ℕ) (n : ℕ) → drop (length before + n) (before ++ rest) ≡ drop n rest
drop-before [] rest n = ap (λ m. drop m rest) (omega arith)
drop-before (c ∷ before) rest n =
    let e : suc (length before) + n ≡ suc (length before + n) = omega arith in
    rw e (drop-before before rest n)

write_at-before :
    (before rest str : List ℕ) (off : ℕ)
    → off ≡ length before
    → write_at (before ++ rest) off str ≡ before ++ str ++ drop (length str) rest
unfolding write_at
write_at-before before rest str off e = rw (e, take-before, drop-before)

-- What `cmd_writeT` leaves where line `n + 1` is asked for: the text before the line, which is empty or
-- ends in a newline, as it was, the new text over as many bytes of the old, and a success; or, in a file with
-- fewer lines, nothing changed and a failure.
abbrev pub Overwrites : List ℕ → List ℕ → ℕ → Written → Type 0
Overwrites content str n w =
    ((before : List ℕ) × (rest : List ℕ) × (content ≡ before ++ rest)
      × (newlines before ≡ n)
      × EndsLine before
      × (w.file ≡ some (before ++ str ++ drop (length str) rest))
      × (w.success ≡ true))
    ⊎ ((newlines content < n) × (w.file ≡ some content) × (w.success ≡ false))

write_found-Overwrites :
    (content str : List ℕ) (n : ℕ) (answer_ok : Bool) (s : Seek)
    → Splits content n s
    → Overwrites content str n (write_found true answer_ok content str s)
unfolding write_found write_and_answer
write_found-Overwrites content str n answer_ok (found k rest) (before, e, m, ends) = inl (
  before,
  rest,
  e,
  m,
  ends,
  ap some (
      ap (λ l. write_at l (length content - length rest) str) e
      ∙ write_at-before before rest str _ (omega (arith, ap length e, length-append before rest))),
  refl,
)
write_found-Overwrites content str n answer_ok (exceeded count) h = inr (h, refl, refl)

-- `cmd_writeT` with a line number overwrites from the start of that line, which is the start of the file or
-- stands behind the newline of the line before, when write succeeds; in a file with fewer lines it fails and
-- changes nothing.
pub write_text-Overwrites :
    (content str : List ℕ) (n : ℕ) (answer_ok : Bool)
    → Overwrites content str n (write_text true answer_ok (some content) str (suc n))
unfolding write_text
write_text-Overwrites content str n answer_ok =
    write_found-Overwrites content str n answer_ok (seek_line content (suc n))
      (seek_line-Splits content n)

write_found_fails :
    (content str : List ℕ) (n : ℕ) (answer_ok : Bool) (s : Seek)
    → Splits content n s
    → n ≤ newlines content
    → write_found false answer_ok content str s
      ≡ record { file = some content; answered = false; success = true }
unfolding write_found write_and_answer
write_found_fails content str n answer_ok (found k rest) h le = refl
write_found_fails content str n answer_ok (exceeded count) h le = absurd (omega arith)

-- A write that fails in a file that has the line leaves the file alone and sends nothing, and
-- `cmd_writeT` reports success all the same.
write_text_fails :
    (content str : List ℕ) (n : ℕ) (answer_ok : Bool)
    → n ≤ newlines content
    → write_text false answer_ok (some content) str (suc n)
      ≡ record { file = some content; answered = false; success = true }
unfolding write_text
write_text_fails content str n answer_ok h =
    write_found_fails content str n answer_ok (seek_line content (suc n))
      (seek_line-Splits content n) h
