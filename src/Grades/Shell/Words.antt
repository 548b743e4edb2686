-- ===== src/Grades/Shell/Words.antt =====
-- The tokens of a command line, with words in quotes and a plain word at its end.
use cse344system_programming.Prelude.{
  ℕ, zero, suc, ◌+◌, ◌≤◌, ◌<◌, ◌≡◌, ◌≢◌, refl, ap, some, List, [], ◌∷◌, ◌++◌, length, length-append,
  All, append-nil, newline, space, arith,
}
use cse344system_programming.Grades.Shell.{
  quote, max_tokens, quoted, unquoted, split_from, split_tokens, trim, choose_command,
}

-- Words in quotes, with a space behind each, and then the end of the line.
unfoldable pub line_of : List (List ℕ) → List ℕ → List ℕ
line_of [] end = end
line_of (w ∷ ws) end = quote ∷ (w ++ quote ∷ space ∷ line_of ws end)

abbrev pub IsQuotable : List ℕ → Type 0
IsQuotable w = All (λ c. c ≢ quote) w

-- A byte of a plain word.
abbrev pub IsPlain : ℕ → Type 0
IsPlain c = (c ≢ quote) × (c ≢ space) × (c ≢ newline)

quoted_lem : (w rest : List ℕ) → IsQuotable w → quoted (w ++ quote ∷ rest) ≡ some (w, rest)
unfolding quoted
quoted_lem [] rest h = refl
quoted_lem (c ∷ w) rest h = ground (arith, h.0, quoted_lem w rest h.1)

unquoted_lem : (w : List ℕ) → All IsPlain w → unquoted (w ++ newline ∷ []) ≡ (w ++ newline ∷ [], [])
unfolding unquoted
unquoted_lem [] h = refl
unquoted_lem (c ∷ w) h = ground (arith, h.0, unquoted_lem w h.1)

split_from-nil : (fuel room : ℕ) → split_from fuel room [] ≡ some []
unfolding split_from
split_from-nil zero room = refl
split_from-nil (suc fuel) zero = refl
split_from-nil (suc fuel) (suc room) = refl

split_from-space :
    (fuel room : ℕ) (cs : List ℕ)
    → split_from (suc fuel) room (space ∷ cs) ≡ split_from fuel room cs
unfolding split_from
split_from-space zero zero cs = refl
split_from-space (suc fuel) zero cs = refl
split_from-space fuel (suc room) cs = refl

-- If the end of the line has the tokens `ts`, for which it needs room for `k`, the whole line has the
-- words in front of them.
split_from-line_of :
    (ws : List (List ℕ)) (end : List ℕ) (ts : List (List ℕ)) (k fuel room : ℕ)
    → ((f r : ℕ) → length end ≤ f → k ≤ r → split_from f r end ≡ some ts)
    → All IsQuotable ws
    → length (line_of ws end) ≤ fuel
    → length ws + k ≤ room
    → split_from fuel room (line_of ws end) ≡ some (ws ++ ts)
unfolding line_of split_from
split_from-line_of [] end ts k fuel room at_end h lf lr = at_end fuel room lf (omega (arith, lr))
split_from-line_of (w ∷ ws) end ts k zero room at_end h lf lr = absurd (omega (arith, lf))
split_from-line_of (w ∷ ws) end ts k (suc fuel) zero at_end h lf lr = absurd (omega (arith, lr))
split_from-line_of (w ∷ ws) end ts k (suc zero) (suc room) at_end h lf lr =
    absurd (omega (arith, lf, length-append w (quote ∷ space ∷ line_of ws end)))
split_from-line_of (w ∷ ws) end ts k (suc (suc fuel)) (suc room) at_end h lf lr = rw (
  quoted_lem w (space ∷ line_of ws end) h.0,
  split_from-space fuel room (line_of ws end),
  split_from-line_of ws end ts k fuel room at_end h.1
      (omega (arith, lf, length-append w (quote ∷ space ∷ line_of ws end))) (omega (arith, lr)),
)

at_newline : (f r : ℕ) → 1 ≤ f → 0 ≤ r → split_from f r (newline ∷ []) ≡ some []
unfolding split_from
at_newline zero r h k = refl
at_newline (suc f) zero h k = refl
at_newline (suc f) (suc r) h k = refl

at_plain :
    (c : ℕ) (p : List ℕ) (f r : ℕ)
    → All IsPlain (c ∷ p)
    → length ((c ∷ p) ++ newline ∷ []) ≤ f
    → 1 ≤ r
    → split_from f r ((c ∷ p) ++ newline ∷ []) ≡ some (((c ∷ p) ++ newline ∷ []) ∷ [])
unfolding split_from
at_plain c p zero r h lf lr = absurd (omega (arith, lf))
at_plain c p (suc f) zero h lf lr = absurd (omega (arith, lr))
at_plain c p (suc f) (suc r) h lf lr =
    ground (arith, h.0, unquoted_lem (c ∷ p) h, split_from-nil f r)

-- A line of at most ten words in quotes, each with a space behind it, has these words as its tokens,
-- spaces in them included.
split_tokens-line_of :
    (ws : List (List ℕ))
    → All IsQuotable ws
    → length ws ≤ max_tokens
    → split_tokens (line_of ws (newline ∷ [])) ≡ some ws
unfolding split_tokens
split_tokens-line_of ws h le =
    rw
      (split_from-line_of ws (newline ∷ []) [] 0 (length (line_of ws (newline ∷ []))) max_tokens
        at_newline h (omega arith) (omega (arith, le)))
      (ap some (append-nil ws))

-- Where a plain word ends the line, behind at most nine words in quotes, its token keeps the newline.
split_tokens-plain_last :
    (ws : List (List ℕ)) (c : ℕ) (p : List ℕ)
    → All IsQuotable ws
    → All IsPlain (c ∷ p)
    → length ws < max_tokens
    → split_tokens (line_of ws ((c ∷ p) ++ newline ∷ []))
      ≡ some (ws ++ ((c ∷ p) ++ newline ∷ []) ∷ [])
unfolding split_tokens
split_tokens-plain_last ws c p h plain lt =
    split_from-line_of ws ((c ∷ p) ++ newline ∷ []) (((c ∷ p) ++ newline ∷ []) ∷ []) 1
      (length (line_of ws ((c ∷ p) ++ newline ∷ []))) max_tokens (λ f r. at_plain c p f r plain) h
      (omega arith) (omega (arith, lt))

trim-newline : (w : List ℕ) → trim (w ++ newline ∷ []) ≡ trim w
unfolding trim
trim-newline [] = refl
trim-newline (c ∷ w) = rw (trim-newline w)

-- The newline that a last token keeps makes no difference to the choice of the command by the first.
choose_command-newline :
    (w : List ℕ) (args : List (List ℕ))
    → choose_command ((w ++ newline ∷ []) ∷ args) ≡ choose_command (w ∷ args)
unfolding choose_command
choose_command-newline w args = rw (trim-newline w)
