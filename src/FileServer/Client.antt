-- ===== src/FileServer/Client.antt =====
-- What the client does with a line of input: `lower`, `read_command_line` and `get_approve` of
-- MidtermProject/client.c. A line is what fgets returns: its bytes, the newline among them.
pub mod Lines
mod Tests
use cse344system_programming.Prelude.{
  ℕ, zero, suc, ◌+◌, ◌-◌, ◌==◌, ltb, leb, if◌then◌else◌, Bool, true, false, ◌&&◌, ◌||◌, Option,
  none, some, List, [], ◌∷◌, length, take, get_or, str_eq, codes, newline, map,
}

abbrev pub lower_byte : ℕ → ℕ
lower_byte c = if leb b'A' c && leb c b'Z' then b'a' + c - b'A' else c

-- `lower`; the value that it returns is the length.
unfoldable pub lower : List ℕ → List ℕ
lower [] = []
lower (c ∷ cs) = lower_byte c ∷ lower cs

abbrev pub carriage_return : ℕ
carriage_return = 13

abbrev pub is_line_end : ℕ → Bool
is_line_end c = c == carriage_return || c == newline

-- The number of bytes that `read_command_line` keeps, which it returns.
unfoldable pub kept_length : List ℕ → ℕ
kept_length buff =
    let len = length buff in
    if ltb 1 len && is_line_end (get_or buff (len - 2) 0)
    then len - 2
    else if ltb 1 len && is_line_end (get_or buff (len - 1) 0)
    then len - 1
    else len

unfoldable pub read_command_line : List ℕ → List ℕ
unfolding kept_length
read_command_line buff = take (kept_length buff) buff

-- The loop of `get_approve` over the lines of the input: -1 as `none` at the end of the input.
unfoldable pub get_approve : List (List ℕ) → Option Bool
unfolding lower
get_approve [] = none
get_approve (line ∷ lines) =
    let resp = take (length line - 1) (lower line) in
    if str_eq resp (codes "yes")
    then some true
    else if str_eq resp (codes "no")
    then some false
    else get_approve lines
