-- ===== src/FileServer/Reading.antt =====
-- Lines of a served file: `seek_line` and `read_next_line` of MidtermProject/server.c. An open file is
-- its bytes and those behind the offset; reading a byte succeeds until the end of the file.
pub mod Lines
mod Tests
use cse344system_programming.Prelude.{
  ℕ, zero, suc, ◌+◌, ◌-◌, ◌*◌, ◌==◌, if◌then◌else◌, Bool, true, false, Option, none, some, List, [],
  ◌∷◌, newline,
}

-- The result of `seek_line`: the number that it returns with the bytes behind the offset, or -1 with
-- the line count that it reports in the error message.
pub data Seek : Type 0 where
  found : (num_read : ℕ) (rest : List ℕ) → Seek
  exceeded : (line_count : ℕ) → Seek

-- The loop of `seek_line` over the bytes that are left.
unfoldable pub seek_from : List ℕ → (line_no line_count num_read : ℕ) → Seek
seek_from [] line_no line_count num_read = exceeded line_count
seek_from (c ∷ rest) line_no line_count num_read =
    let count = if c == newline then line_count + 1 else line_count in
    let go_on = seek_from rest line_no count (num_read + 1) in
    if c == newline then (if count == line_no then found num_read rest else go_on) else go_on

-- `seek_line` on a file just opened. Both callers ask for a positive line, so its test for a negative
-- one is not met.
unfoldable pub seek_line : (content : List ℕ) (line_no : ℕ) → Seek
unfolding seek_from
seek_line content line_no = if line_no == 1 then found 0 content else seek_from content line_no 1 0

abbrev pub buff_size : ℕ
buff_size = 1024

-- What `read_next_line` leaves: the line with its newline, the bytes behind it, and the size of the
-- memory that holds the line.
pub record NextLine : Type 0 where
  pub line : List ℕ
  pub rest : List ℕ
  pub line_size : ℕ

-- The size after the test at the head of the loop.
abbrev pub grow_line : (num_read line_size : ℕ) → ℕ
grow_line num_read line_size =
    if num_read == line_size
    then (if line_size == 0 then buff_size else line_size * 2)
    else line_size

-- The loop of `read_next_line`, realloc and read succeeding; the terminator goes to index `num_read`.
unfoldable pub read_line_from : List ℕ → (num_read line_size : ℕ) → NextLine
read_line_from [] num_read line_size = record {
  line = [];
  rest = [];
  line_size = grow_line num_read line_size;
}
read_line_from (c ∷ rest) num_read line_size =
    let size = grow_line num_read line_size in
    let more = read_line_from rest (num_read + 1) size in
    if c == newline
    then record { line = c ∷ []; rest = rest; line_size = size }
    else record more { line = c ∷ more.line }

unfoldable pub read_next_line : List ℕ → NextLine
unfolding read_line_from
read_next_line rest = read_line_from rest 0 0

-- The line that `cmd_readF` reads after its search for a line number, if there is one.
abbrev pub line_at : Seek → Option (List ℕ)
line_at (found num_read rest) = some (read_next_line rest).line
line_at (exceeded line_count) = none

unfoldable pub find_line : (content : List ℕ) (line_no : ℕ) → Option (List ℕ)
find_line content line_no = line_at (seek_line content line_no)
