-- ===== src/FileServer/Commands.antt =====
-- The commands of the server that work on files: `copy_file`, `cmd_readF`, `cmd_writeT`, `cmd_list`,
-- `cmd_quit` and `cmd_kill_server` of MidtermProject/server.c, and the responses of MidtermProject/common.h.
-- A file is its bytes; the outcome of a system call that may fail is an argument.
pub mod Transfer
pub mod Writing
pub mod Reply
mod Tests
use cse344system_programming.Prelude.{
  ℕ, zero, suc, ◌+◌, ◌-◌, ◌*◌, ◌==◌, ltb, leb, if◌then◌else◌, Bool, true, false, ◌&&◌, ◌||◌, Option,
  none, some, List, [], ◌∷◌, ◌++◌, length, take, drop, newline, codes, str_eq, not, Copied,
  copy_loop,
}
use cse344system_programming.FileServer.Reading.{
  Seek, found, exceeded, buff_size, seek_line, line_at,
}

-- `enum resp_status`.
pub data RespStatus : Type 0 where
  resp_ok resp_error resp_cont resp_approve resp_connect resp_disconnect : RespStatus

-- A header and the body that `write_response` sends behind it; the header's `data_size` is the length.
pub record Response : Type 0 where
  pub stat : RespStatus
  pub body : List ℕ

-- What a call of `write_response` puts into the FIFO: header and body in turn, each cut off by a
-- failing write. The result says whether the call returns 0.
unfoldable pub write_response : (header_ok body_ok : Bool) → Response → Bool × List Response
write_response false body_ok r = (false, [])
write_response true false r = (false, record r { body = [] } ∷ [])
write_response true true r = (true, r ∷ [])

-- `copy_file` behind the lock of the file: the destination, and the bytes transferred or `none` for -1.
-- The fuel is the length of the source, since every round reads a byte at least.
unfoldable pub copy_file : (src dest : List ℕ) (room : ℕ) → List ℕ × Option ℕ
copy_file src dest room =
    let c =
      copy_loop buff_size (length src) src room
        (record { failed = false; dest = dest; bytes = 0 }) in
    (c.dest, if c.failed then none else some c.bytes)

-- One round of the loop of `cmd_readF` for a whole file: `total` bytes are read with this buffer, and
-- `more` is what the rounds behind it send. The result is what was sent, and whether a failing
-- `write_response` set the status to -1.
unfoldable pub send_round :
    (accepted : Bool) (total st_size : ℕ) (buff : List ℕ) (more : List Response × Bool)
    → List Response × Bool
send_round false total st_size buff more = ([], true)
send_round true total st_size buff more =
    if ltb total st_size
    then (record { stat = resp_cont; body = buff } ∷ more.0, more.1)
    else (record { stat = resp_ok; body = buff } ∷ [], false)

-- The loop from round `k`, with the bytes left, the size that fstat gave and the bytes read.
-- `accepts k` is the success of `write_response` in that round.
unfoldable pub send_chunks :
    (fuel : ℕ) (accepts : ℕ → Bool) (k : ℕ) (rest : List ℕ) (st_size num_read : ℕ)
    → List Response × Bool
unfolding send_round
send_chunks zero accepts k rest st_size num_read = ([], false)
send_chunks (suc fuel) accepts k [] st_size num_read = ([], false)
send_chunks (suc fuel) accepts k (c ∷ rest) st_size num_read =
    let buff = take buff_size (c ∷ rest) in
    let total = num_read + length buff in
    send_round (accepts k) total st_size buff
      (send_chunks fuel accepts (k + 1) (drop buff_size (c ∷ rest)) st_size total)

-- `cmd_readF` for a whole file: what is sent, and the return value, -1 as `some false`. The variable
-- `status` is set by a failure alone, so otherwise the value returned is not initialised: `none`.
unfoldable pub read_whole_file :
    (accepts : ℕ → Bool) (content : List ℕ) → List Response × Option Bool
unfolding send_chunks
read_whole_file accepts content =
    let (sent, failed) = send_chunks (length content) accepts 0 content (length content) 0 in
    (sent, if failed then some false else none)

-- `cmd_readF` for a positive line number, the call of `write_response` given by its outcome: what is
-- sent, the line with its terminator, and whether the return value is 0. A line holds no zero byte.
unfoldable pub read_file_line :
    (accepts : Bool) (content : List ℕ) (line_no : ℕ) → List Response × Bool
read_file_line accepts content line_no = elim (line_at (seek_line content line_no)) [
  | none ↦ ([], false)
  | some line ↦
      if accepts then (record { stat = resp_ok; body = line ++ 0 ∷ [] } ∷ [], true) else ([], false)
]

-- write() at an offset of a file.
unfoldable pub write_at : (content : List ℕ) (offset : ℕ) (str : List ℕ) → List ℕ
write_at content offset str = take offset content ++ str ++ drop (offset + length str) content

-- What `cmd_writeT` leaves: the file, whether a response was sent, and whether the value is 0.
pub record Written : Type 0 where
  pub file : Option (List ℕ)
  pub answered : Bool
  pub success : Bool

-- The branch behind the search for the line: the two calls may fail, and the status is 0 all the same.
unfoldable pub write_and_answer : (write_ok answer_ok : Bool) (before after : List ℕ) → Written
write_and_answer false answer_ok before after = record {
  file = some before;
  answered = false;
  success = true;
}
write_and_answer true answer_ok before after = record {
  file = some after;
  answered = answer_ok;
  success = true;
}

-- `cmd_writeT` behind the search for a line. The offset is the bytes that the search has passed.
unfoldable pub write_found : (write_ok answer_ok : Bool) (content str : List ℕ) → Seek → Written
unfolding write_and_answer write_at
write_found write_ok answer_ok content str (exceeded line_count) = record {
  file = some content;
  answered = false;
  success = false;
}
write_found write_ok answer_ok content str (found num_read rest) =
    write_and_answer write_ok answer_ok content
      (write_at content (length content - length rest) str)

-- `cmd_writeT`: `file` is `none` where the directory holds no such file, for open does not create it;
-- `line_no` is 0 for the argument -1.
unfoldable pub write_text :
    (write_ok answer_ok : Bool) (file : Option (List ℕ)) (str : List ℕ) (line_no : ℕ) → Written
unfolding write_found write_and_answer
write_text write_ok answer_ok none str line_no = record {
  file = none;
  answered = false;
  success = false;
}
write_text write_ok answer_ok (some content) str zero =
    write_and_answer write_ok answer_ok content (content ++ str)
write_text write_ok answer_ok (some content) str (suc n) =
    write_found write_ok answer_ok content str (seek_line content (suc n))

-- The loop of `cmd_list`: a line for each entry but "." and "..".
unfoldable pub list_entries : List (List ℕ) → List ℕ
list_entries [] = []
list_entries (name ∷ names) =
    if not (str_eq name (codes ".")) && not (str_eq name (codes ".."))
    then name ++ newline ∷ list_entries names
    else list_entries names

-- The response of `cmd_list`, whose last byte becomes the terminator. The names fit the 512 bytes of the
-- buffer, which the code does not check. `none` stands for an empty list:
-- there the terminator is written before the buffer.
unfoldable pub list_response : List (List ℕ) → Option Response
unfolding list_entries
list_response names =
    let text = list_entries names in
    if length text == 0
    then none
    else some (record { stat = resp_ok; body = take (length text - 1) text ++ 0 ∷ [] })

-- `cmd_quit` and `cmd_kill_server`: a header alone; the flag is the success of the write. The second
-- result says whether SIGINT is sent to the server.
unfoldable pub cmd_quit : Bool → List Response
cmd_quit ok = if ok then record { stat = resp_disconnect; body = [] } ∷ [] else []

unfoldable pub cmd_kill_server : Bool → List Response × Bool
cmd_kill_server ok =
    if ok then (record { stat = resp_disconnect; body = [] } ∷ [], true) else ([], false)
