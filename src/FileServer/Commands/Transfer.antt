-- ===== src/FileServer/Commands/Transfer.antt =====
-- What copying a file and sending a whole file transfer.
use cse344system_programming.Prelude.{
  ℕ, zero, suc, ◌+◌, ◌<◌, ◌≤◌, ◌≡◌, refl, ap, ◌∙◌, if◌then◌else◌, Bool, true, false, none, some,
  List, [], ◌∷◌, ◌++◌, length, take, drop, take-append-drop, All, length-drop, length-append, arith,
  ltb, leb, subst, copy_loop-Copies,
}
use cse344system_programming.FileServer.Reading.{buff_size}
use cse344system_programming.FileServer.Commands.{
  resp_ok, resp_cont, Response, copy_file, send_round, send_chunks, read_whole_file,
}

-- `copy_file` appends to the destination what there is room for, and returns the number of bytes just
-- when that is the whole source, and -1 otherwise.
pub copy_file_lem :
    (src dest : List ℕ) (room : ℕ)
    → copy_file src dest room
      ≡ (dest ++ take room src, if leb (length src) room then some (length src) else none)
unfolding copy_file
copy_file_lem src dest room = ground (
  arith,
  copy_loop-Copies buff_size (length src) src room
      (record { failed = false; dest = dest; bytes = 0 }) (omega arith) (omega arith) refl,
)

-- The bodies of the responses, one behind the other.
unfoldable pub joined : List Response → List ℕ
joined [] = []
joined (r ∷ rs) = r.body ++ joined rs

-- Each response but the last says that more follow.
abbrev pub IsStream : List Response → Type 0
IsStream [] = ⊥
IsStream (r ∷ []) = r.stat ≡ resp_ok
IsStream (r ∷ s ∷ rs) = (r.stat ≡ resp_cont) × IsStream (s ∷ rs)

IsStream-cons :
    (r : Response) (rs : List Response) → r.stat ≡ resp_cont → IsStream rs → IsStream (r ∷ rs)
IsStream-cons r [] e h = absurd h
IsStream-cons r (s ∷ rs) e h = (e, h)

-- What the loop sends for the bytes `rest` that are left.
abbrev Sends : List ℕ → List Response × Bool → Type 0
Sends rest (sent, failed) = IsStream sent × (joined sent ≡ rest) × (failed ≡ false)

send_round-Sends :
    (b r : List ℕ) (num_read st_size : ℕ) (more : List Response × Bool)
    → num_read + length (b ++ r) ≡ st_size
    → (0 < length r → Sends r more)
    → Sends (b ++ r) (send_round true (num_read + length b) st_size b more)
unfolding send_round joined
send_round-Sends b [] num_read st_size more e h =
    let last : ltb (num_read + length b) st_size ≡ false = ground (arith, length-append b []) in
    rw last (refl, refl, refl)
send_round-Sends b (c ∷ r) num_read st_size more e h =
    let on : ltb (num_read + length b) st_size ≡ true = ground (arith, length-append b (c ∷ r)) in
    let (stream, text, fine) = h (omega arith) in
    rw on (
      IsStream-cons (record { stat = resp_cont; body = b }) more.0 refl stream,
      ap (λ l. b ++ l) text,
      fine,
    )

send_chunks-Sends :
    (fuel : ℕ) (accepts : ℕ → Bool) (k : ℕ) (rest : List ℕ) (st_size num_read : ℕ)
    → ((i : ℕ) → accepts i ≡ true)
    → 0 < length rest
    → length rest ≤ fuel
    → num_read + length rest ≡ st_size
    → Sends rest (send_chunks fuel accepts k rest st_size num_read)
unfolding send_chunks
send_chunks-Sends zero accepts k rest st_size num_read all pos le e = absurd (omega arith)
send_chunks-Sends (suc fuel) accepts k [] st_size num_read all pos le e = absurd (omega arith)
send_chunks-Sends (suc fuel) accepts k (c ∷ rest) st_size num_read all pos le e =
    let b : List ℕ = take buff_size (c ∷ rest) in
    let r : List ℕ = drop buff_size (c ∷ rest) in
    let whole : b ++ r ≡ c ∷ rest = take-append-drop buff_size (c ∷ rest) in
    rw (all k) (
      subst
        (λ l. Sends l (
          send_round true (num_read + length b) st_size b
            (send_chunks fuel accepts (k + 1) r st_size (num_read + length b))))
        whole
        (send_round-Sends b r num_read st_size
          (send_chunks fuel accepts (k + 1) r st_size (num_read + length b))
          (ap (λ l. num_read + length l) whole ∙ e)
          (λ some_left.
            send_chunks-Sends fuel accepts (k + 1) r st_size (num_read + length b) all some_left
              (omega (arith, length-drop buff_size (c ∷ rest)))
              (omega (arith, e, ap length whole, length-append b r)))))

-- When every response is accepted, `cmd_readF` sends a file that is not empty whole and in order, each
-- response but the last saying that more follow; yet the value that it returns is not initialised.
pub read_whole_file-Sends :
    (accepts : ℕ → Bool) (content : List ℕ)
    → ((i : ℕ) → accepts i ≡ true)
    → 0 < length content
    → let (sent, status) = read_whole_file accepts content in
      IsStream sent × (joined sent ≡ content) × (status ≡ none)
unfolding read_whole_file
read_whole_file-Sends accepts content all pos =
    let (stream, text, fine) =
      send_chunks-Sends (length content) accepts 0 content (length content) 0 all pos (omega arith)
        (omega arith) in
    (stream, text, rw fine)

unfoldable pub bodies : List Response → List (List ℕ)
bodies [] = []
bodies (r ∷ rs) = r.body ∷ bodies rs

-- A text in parts of the size of the buffer, the last of what is left.
unfoldable pub parts_from : (fuel : ℕ) → List ℕ → List (List ℕ)
parts_from zero text = []
parts_from (suc fuel) [] = []
parts_from (suc fuel) (c ∷ text) =
    let text' = c ∷ text in take buff_size text' ∷ parts_from fuel (drop buff_size text')

-- No part is empty.
pub parts_from-some : (fuel : ℕ) (text : List ℕ) → All (λ b. 0 < length b) (parts_from fuel text)
unfolding parts_from
parts_from-some zero text = tt
parts_from-some (suc fuel) [] = tt
parts_from-some (suc fuel) (c ∷ text) =
    (omega arith, parts_from-some fuel (drop buff_size (c ∷ text)))

parts_from-nil : (fuel : ℕ) → parts_from fuel [] ≡ []
unfolding parts_from
parts_from-nil zero = refl
parts_from-nil (suc fuel) = refl

send_round-parts :
    (fuel : ℕ) (b r : List ℕ) (num_read st_size : ℕ) (more : List Response × Bool)
    → num_read + length (b ++ r) ≡ st_size
    → bodies more.0 ≡ parts_from fuel r
    → bodies (send_round true (num_read + length b) st_size b more).0 ≡ b ∷ parts_from fuel r
unfolding send_round bodies
send_round-parts fuel b [] num_read st_size more e h =
    let last : ltb (num_read + length b) st_size ≡ false = ground (arith, length-append b []) in
    rw (last, parts_from-nil fuel) refl
send_round-parts fuel b (c ∷ r) num_read st_size more e h =
    let on : ltb (num_read + length b) st_size ≡ true = ground (arith, length-append b (c ∷ r)) in
    rw on (ap (λ ps. b ∷ ps) h)

send_chunks-parts :
    (fuel : ℕ) (accepts : ℕ → Bool) (k : ℕ) (rest : List ℕ) (st_size num_read : ℕ)
    → ((i : ℕ) → accepts i ≡ true)
    → length rest ≤ fuel
    → num_read + length rest ≡ st_size
    → bodies (send_chunks fuel accepts k rest st_size num_read).0 ≡ parts_from fuel rest
unfolding send_chunks bodies parts_from
send_chunks-parts zero accepts k rest st_size num_read all le e = refl
send_chunks-parts (suc fuel) accepts k [] st_size num_read all le e = refl
send_chunks-parts (suc fuel) accepts k (c ∷ rest) st_size num_read all le e =
    let b : List ℕ = take buff_size (c ∷ rest) in
    let r : List ℕ = drop buff_size (c ∷ rest) in
    let whole : b ++ r ≡ c ∷ rest = take-append-drop buff_size (c ∷ rest) in
    rw (all k) (
      send_round-parts fuel b r num_read st_size
        (send_chunks fuel accepts (k + 1) r st_size (num_read + length b))
        (ap (λ l. num_read + length l) whole ∙ e)
        (send_chunks-parts fuel accepts (k + 1) r st_size (num_read + length b) all
          (omega (arith, length-drop buff_size (c ∷ rest)))
          (omega (arith, e, ap length whole, length-append b r))))

-- The parts in which a file is sent.
pub read_whole_file-parts :
    (accepts : ℕ → Bool) (content : List ℕ)
    → ((i : ℕ) → accepts i ≡ true)
    → bodies (read_whole_file accepts content).0 ≡ parts_from (length content) content
unfolding read_whole_file
read_whole_file-parts accepts content all =
    send_chunks-parts (length content) accepts 0 content (length content) 0 all (omega arith)
      (omega arith)
