-- ===== src/Grades/Paging.antt =====
-- `listGrades` and `listSome` of Homework1/main.c for a file that is opened. A buffer is a list of bytes
-- that goes on with the memory behind the array; strtok finds the end of the text by a zero byte in it.
pub mod Tokens
pub mod Pages
mod Tests
use cse344system_programming.Prelude.{
  ℕ, zero, suc, ◌+◌, ◌-◌, ◌*◌, ◌==◌, ltb, leb, if◌then◌else◌, Bool, true, false, ◌&&◌, none, some,
  List, [], ◌∷◌, ◌++◌, length, take, drop, newline, c_string,
}
use cse344system_programming.Grades.Records.{strtok, read_size}

-- read() into a buffer: the bytes read replace as many.
unfoldable pub read_into : (bytes memory : List ℕ) → List ℕ
read_into bytes memory = bytes ++ drop (length bytes) memory

-- The tokens that the calls of strtok return one after another. A call takes a byte at least, so the length
-- is enough fuel.
unfoldable pub tokens_of : (fuel : ℕ) → List ℕ → List (List ℕ)
tokens_of zero text = []
tokens_of (suc fuel) text = elim (strtok newline text) [
  | none ↦ []
  | some t ↦ t.0 ∷ tokens_of fuel t.1
]

-- The tokens in a buffer.
unfoldable pub tokens_in : (memory : List ℕ) → List (List ℕ)
tokens_in memory = tokens_of (length memory) (c_string memory)

-- What the calls of strtok leave of a buffer: the separator behind each token is overwritten by 0.
-- `in_token` tells whether the byte before is one of a token.
unfoldable pub cut : (in_token : Bool) → (memory : List ℕ) → List ℕ
cut in_token [] = []
cut in_token (c ∷ cs) =
    let behind = cut true cs in
    let next = cut false cs in
    if c == 0
    then c ∷ cs
    else if c == newline
    then (if in_token then 0 else c) ∷ next
    else c ∷ behind

-- What is written for some tokens.
unfoldable pub written_lines : List (List ℕ) → List ℕ
written_lines [] = []
written_lines (t ∷ ts) = t ++ (newline ∷ written_lines ts)

abbrev pub listed : ℕ
listed = 5

-- The loop of `listGrades` over the rest of the file, with the buffer and the count.
unfoldable pub list_rounds : (fuel : ℕ) (rest memory : List ℕ) (count : ℕ) → List ℕ
list_rounds zero rest memory count = []
list_rounds (suc fuel) [] memory count = []
list_rounds (suc fuel) (c ∷ rest) memory count =
    let buffer = read_into (take read_size (c ∷ rest)) memory in
    let shown = take (listed - count) (tokens_in buffer) in
    let more =
      list_rounds fuel (drop read_size (c ∷ rest)) (cut false buffer) (count + length shown) in
    if count + length shown == listed then written_lines shown else written_lines shown ++ more

-- `listGrades`; `memory` is what the buffer and the memory behind it hold at the start.
unfoldable pub list_grades : (memory file : List ℕ) → List ℕ
list_grades memory file = list_rounds (length file) file memory 0

-- The loop of `listSome` over the tokens, with `current`. The tests against `start`, which may be negative,
-- have the number of entries added on both sides.
unfoldable pub some_from : (entries page current : ℕ) → List (List ℕ) → List ℕ
some_from entries page current [] = []
some_from entries page current (t ∷ ts) =
    let end = page * entries in
    let here = if leb end (current + entries) && ltb current end then t ++ (newline ∷ []) else [] in
    let more = some_from entries page (current + 1) ts in
    if current + 1 == end then here else here ++ more

-- `listSome`, with what atoi makes of its arguments where that is not negative.
unfoldable pub list_some : (memory : List ℕ) (entries page : ℕ) (file : List ℕ) → List ℕ
list_some memory entries page [] = []
list_some memory entries page (c ∷ file) =
    some_from entries page 0 (tokens_in (read_into (take read_size (c ∷ file)) memory))
