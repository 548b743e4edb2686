-- ===== src/FileServer/Exchange.antt =====
-- The commands of the server that take a whole file elsewhere: `cmd_copy`, and `cmd_archServer` with
-- `fork_exec`, of MidtermProject/server.c. What a system call may answer is an argument; closing succeeds.
pub mod Branches
pub mod Answering
mod Tests
use cse344system_programming.Prelude.{
  ℕ, zero, suc, ◌+◌, ◌%◌, ◌/◌, ltb, if◌then◌else◌, Bool, true, false, ◌&&◌, Option, none, some,
  List, [], ◌∷◌, ◌++◌, codes,
}
use cse344system_programming.FileServer.Commands.{
  Response, resp_ok, resp_approve, write_response, copy_file,
}

-- What printf writes for `%ld`, in front of `behind`. A number has no more digits than its value and one.
unfoldable pub digits : (fuel n : ℕ) (behind : List ℕ) → List ℕ
digits zero n behind = behind
digits (suc fuel) n behind =
    let here = (b'0' + n % 10) ∷ behind in
    let more = digits fuel (n / 10) here in if ltb n 10 then here else more

unfoldable pub transferred : ℕ → Response
transferred n = record {
  stat = resp_ok;
  body = digits (n + 1) n (codes " bytes transferred" ++ (0 ∷ []));
}

unfoldable pub question : (src_file : List ℕ) → Response
question src_file = record {
  stat = resp_approve;
  body =
      codes "The file "
      ++ (src_file
          ++ (codes
                " is already exist in the destination directory. Do you want to overwrite (yes/no)? "
              ++ (0 ∷ [])));
}

-- What the calls in `cmd_copy` answer: `source` is the content of the file that is opened, if it is;
-- `creates` is open with O_EXCL where there is no such file at the destination, `reopens` open with O_TRUNC;
-- `answer` is what is read of the client's answer; `locked` tells whether the table of locks has one for the
-- name; `room` is what the destination has room for; the others are the writes to the client.
pub record CopyCalls : Type 0 where
  pub source : Option (List ℕ)
  pub creates : Bool
  pub asks_header : Bool
  pub asks_body : Bool
  pub answer : Option Bool
  pub reopens : Bool
  pub locked : Bool
  pub room : ℕ
  pub reports_header : Bool
  pub reports_body : Bool

-- The file at the destination, what was sent, and whether the value is 0.
pub record Copying : Type 0 where
  pub dest : Option (List ℕ)
  pub sent : List Response
  pub success : Bool

-- Behind the copying, `sent` having been sent before.
unfoldable pub report :
    CopyCalls → (sent : List Response) (dest : List ℕ) (moved : Option ℕ) → Copying
report calls sent dest none = record { dest = some dest; sent = sent; success = false }
report calls sent dest (some n) =
    let (ok, reported) = write_response calls.reports_header calls.reports_body (transferred n) in
    record { dest = some dest; sent = sent ++ reported; success = ok }

-- Behind the opening of the destination, which is empty then.
unfoldable pub copy_opened : CopyCalls → (content : List ℕ) (sent : List Response) → Copying
copy_opened calls content sent =
    let (dest, moved) = copy_file content [] calls.room in
    if calls.locked
    then report calls sent dest moved
    else record { dest = some []; sent = sent; success = false }

-- Behind the question, by the answer.
unfoldable pub overwrite :
    CopyCalls
    → (content : List ℕ) (dest : Option (List ℕ)) (sent : List Response) → Option Bool
    → Copying
overwrite calls content dest sent none = record { dest = dest; sent = sent; success = false }
overwrite calls content dest sent (some false) = record { dest = dest; sent = sent; success = true }
overwrite calls content dest sent (some true) =
    if calls.reopens
    then copy_opened calls content sent
    else record { dest = dest; sent = sent; success = false }

unfoldable pub ask_overwrite :
    CopyCalls → (src_file content : List ℕ) (dest : Option (List ℕ)) → Copying
ask_overwrite calls src_file content dest =
    let (ok, sent) = write_response calls.asks_header calls.asks_body (question src_file) in
    if ok
    then overwrite calls content dest sent calls.answer
    else record { dest = dest; sent = sent; success = false }

-- The first open, which takes a file that is there, and any other failure, for one to overwrite.
unfoldable pub copy_to : CopyCalls → (src_file content : List ℕ) (dest : Option (List ℕ)) → Copying
copy_to calls src_file content (some there) = ask_overwrite calls src_file content (some there)
copy_to calls src_file content none =
    if calls.creates
    then copy_opened calls content []
    else ask_overwrite calls src_file content none

unfoldable pub cmd_copy : CopyCalls → (src_file : List ℕ) (dest : Option (List ℕ)) → Copying
cmd_copy calls src_file dest = elim calls.source [
  | none ↦ record { dest = dest; sent = []; success = false }
  | some content ↦ copy_to calls src_file content dest
]

-- `fork_exec`: whether it returns 0. What the child makes of the program does not matter to it.
unfoldable pub fork_exec : (forks waits : Bool) → Bool
fork_exec forks waits = forks && waits

-- `cmd_archServer`, with `named` false for a missing name; whether it returns 0, and what it sends.
unfoldable pub cmd_arch_server :
    (named opens forks waits header_ok body_ok : Bool) → Bool × List Response
cmd_arch_server named opens forks waits header_ok body_ok =
    if named && (opens && fork_exec forks waits)
    then write_response header_ok body_ok
        (record { stat = resp_ok; body = codes "Archive created successfully" ++ (0 ∷ []) })
    else (false, [])
