-- ===== src/FileServer/Requests/Tokens.antt =====
-- The words of a request come back as they were written.
use cse344system_programming.Prelude.{
  ℕ, zero, suc, ◌<◌, ◌≤◌, ◌≡◌, ◌≢◌, refl, ap, List, [], ◌∷◌, ◌++◌, space, length, All,
  length-append, arith,
}
use cse344system_programming.FileServer.Requests.{
  token_end, skip_spaces, tokens_from, parse_command,
}

-- A word has bytes, and none of them is a space.
abbrev pub IsWord : List ℕ → Type 0
IsWord w = (0 < length w) × All (λ c. c ≢ space) w

-- The words of a line, with one space behind each but the last.
pub join_words : List (List ℕ) → List ℕ
join_words [] = []
join_words (w ∷ []) = w
join_words (w ∷ v ∷ ws) = w ++ space ∷ join_words (v ∷ ws)

token_end-word :
    (w rest : List ℕ) → All (λ c. c ≢ space) w → token_end (w ++ space ∷ rest) ≡ (w, rest)
unfolding token_end
token_end-word [] rest h = refl
token_end-word (c ∷ w) rest h = ground (arith, h.0, token_end-word w rest h.1)

token_end-last : (w : List ℕ) → All (λ c. c ≢ space) w → token_end w ≡ (w, [])
unfolding token_end
token_end-last [] h = refl
token_end-last (c ∷ w) h = ground (arith, h.0, token_end-last w h.1)

tokens_from-nil : (fuel : ℕ) → tokens_from fuel [] ≡ []
unfolding tokens_from skip_spaces
tokens_from-nil zero = refl
tokens_from-nil (suc fuel) = refl

tokens_from-cons :
    (fuel c : ℕ) (cs : List ℕ)
    → c ≢ space
    → tokens_from (suc fuel) (c ∷ cs)
      ≡ (token_end (c ∷ cs)).0 ∷ tokens_from fuel (token_end (c ∷ cs)).1
unfolding tokens_from skip_spaces
tokens_from-cons fuel c cs h = ground arith

tokens_from-join :
    (ws : List (List ℕ)) (fuel : ℕ)
    → All IsWord ws
    → length (join_words ws) ≤ fuel
    → tokens_from fuel (join_words ws) ≡ ws
unfolding join_words
tokens_from-join [] fuel h k = tokens_from-nil fuel
tokens_from-join ([] ∷ ws) fuel h k = absurd (omega (arith, h.0.0))
tokens_from-join ((c ∷ w) ∷ []) zero h k = absurd (omega arith)
tokens_from-join ((c ∷ w) ∷ []) (suc fuel) h k =
    rw (tokens_from-cons fuel c w h.0.1.0, token_end-last (c ∷ w) h.0.1)
      (ap (λ l. (c ∷ w) ∷ l) (tokens_from-nil fuel))
tokens_from-join ((c ∷ w) ∷ v ∷ ws) zero h k = absurd (omega arith)
tokens_from-join ((c ∷ w) ∷ v ∷ ws) (suc fuel) h k =
    rw
      (
        tokens_from-cons fuel c (w ++ space ∷ join_words (v ∷ ws)) h.0.1.0,
        token_end-word (c ∷ w) (join_words (v ∷ ws)) h.0.1,
      )
      (ap (λ l. (c ∷ w) ∷ l)
        (tokens_from-join (v ∷ ws) fuel h.1
          (omega (arith, length-append w (space ∷ join_words (v ∷ ws))))))

-- `parse_command` returns the words of a line in which single spaces join them.
pub parse_command-join_words :
    (ws : List (List ℕ)) → All IsWord ws → parse_command (join_words ws) ≡ ws
unfolding parse_command
parse_command-join_words ws h = tokens_from-join ws (length (join_words ws)) h (omega arith)
