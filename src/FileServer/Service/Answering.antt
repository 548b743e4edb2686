-- ===== src/FileServer/Service/Answering.antt =====
-- What the commands that `server_request` in MidtermProject/server.c calls send.
use cse344system_programming.Prelude.{
  ℕ, ◌≡◌, refl, if_lem, Bool, true, false, if◌then◌else◌, Option, none, some, List, [], ◌∷◌, ◌++◌,
  ◌&&◌, ◌==◌, length, All, codes, if_lem,
}
use cse344system_programming.FileServer.Requests.{Action, read_whole, write_end, write_line, ignore}
use cse344system_programming.FileServer.Reading.{seek_line, line_at}
use cse344system_programming.FileServer.Commands.{
  Response, resp_ok, write_response, read_file_line, write_text, list_entries, list_response,
}
use cse344system_programming.FileServer.Commands.Reply.{is_last}
use cse344system_programming.FileServer.Exchange.{fork_exec, cmd_arch_server}
use cse344system_programming.FileServer.Exchange.Answering.{
  IsHeard, failed-Completes, single-Completes, Answered, Completes-Answered,
}
use cse344system_programming.FileServer.Service.{
  Directory, Calls, Served, written, serve_write, serve_read_whole, serve_line, serve_read_line,
  serve_archive, or_empty, serve_list,
}

-- The writes to the client succeed, and its answer is read.
pub record IsConnected (calls : Calls) (answer : Bool) : Type 0 where
  pub header_ok : calls.header_ok ≡ true
  pub body_ok : calls.body_ok ≡ true
  pub chunk_ok : (k : ℕ) → calls.chunk_ok k ≡ true
  pub heard : IsHeard calls.copy answer

-- The action is one that `server_request` answers, other than for a whole file that the directory has: not
-- a request that it ignores, nor one to write where the write fails.
abbrev pub IsAnswered : Calls → (server : Directory) → Action → Type 0
IsAnswered calls server (read_whole name) = server name ≡ none
IsAnswered calls server (write_end name str) = calls.write_ok ≡ true
IsAnswered calls server (write_line name str line_no) = calls.write_ok ≡ true
IsAnswered calls server ignore = ⊥
IsAnswered calls server action = Unit

abbrev pub AnsweredServed : (answer : Bool) → Served → Type 0
AnsweredServed answer served = Answered answer served.success served.sent

pub single-Answered :
    (answer : Bool) (r : Response) → is_last r.stat ≡ true → Answered answer true (r ∷ [])
single-Answered answer r last = Completes-Answered answer true (r ∷ []) (single-Completes r last)

pub failed-Answered : (answer : Bool) → Answered answer false []
failed-Answered answer = Completes-Answered answer false [] failed-Completes

judged-Answered :
    (answer : Bool) (r : Response) (success : Bool)
    → is_last r.stat ≡ true
    → Answered answer success (if success && true then r ∷ [] else [])
judged-Answered answer r true last = single-Answered answer r last
judged-Answered answer r false last = failed-Answered answer

pub serve_write-Answered :
    (calls : Calls) (answer : Bool) (server client : Directory) (name str : List ℕ) (line_no : ℕ)
    → IsConnected calls answer
    → calls.write_ok ≡ true
    → AnsweredServed answer (serve_write calls server client name str line_no)
unfolding serve_write write_response written
serve_write-Answered calls answer server client name str line_no h ok =
    rw (h.header_ok, h.body_ok, ok)
      (judged-Answered answer (written name str)
        (write_text true true (server name) str line_no).success refl)

pub serve_read_whole-Answered :
    (calls : Calls) (answer : Bool) (server client : Directory) (file : Option (List ℕ))
    → file ≡ none
    → AnsweredServed answer (serve_read_whole calls server client file)
unfolding serve_read_whole
serve_read_whole-Answered calls answer server client file missing =
    rw missing (failed-Answered answer)

read_file_line-at :
    (content : List ℕ) (line_no : ℕ) (line : Option (List ℕ))
    → line_at (seek_line content line_no) ≡ line
    → All (λ (r : Response). is_last r.stat ≡ true) (read_file_line true content line_no).0
unfolding read_file_line
read_file_line-at content line_no none e = rw (All, e) tt
read_file_line-at content line_no (some line) e = rw (All, e) (refl, tt)

serve_line-Answered :
    (calls : Calls) (answer : Bool) (server client : Directory) (lines : List Response)
    → IsConnected calls answer
    → All (λ (r : Response). is_last r.stat ≡ true) lines
    → AnsweredServed answer (serve_line calls server client lines)
unfolding serve_line write_response
serve_line-Answered calls answer server client [] h last = failed-Answered answer
serve_line-Answered calls answer server client (line ∷ lines) h last =
    rw (h.header_ok, h.body_ok) (single-Answered answer line last.0)

pub serve_read_line-Answered :
    (calls : Calls) (answer : Bool) (server client : Directory) (file : Option (List ℕ))
    (line_no : ℕ)
    → IsConnected calls answer
    → AnsweredServed answer (serve_read_line calls server client file line_no)
unfolding serve_read_line
serve_read_line-Answered calls answer server client none line_no h = failed-Answered answer
serve_read_line-Answered calls answer server client (some content) line_no h =
    serve_line-Answered calls answer server client (read_file_line true content line_no).0 h
      (read_file_line-at content line_no (line_at (seek_line content line_no)) refl)

pub serve_archive-Answered :
    (calls : Calls) (answer : Bool) (server client : Directory) (file : Option (List ℕ))
    → IsConnected calls answer
    → AnsweredServed answer (serve_archive calls server client file)
unfolding serve_archive cmd_arch_server write_response
serve_archive-Answered calls answer server client none h = failed-Answered answer
serve_archive-Answered calls answer server client (some name) h =
    rw (h.header_ok, h.body_ok)
      (if_lem (λ (p : Bool × List Response). Answered answer p.0 p.1)
        (calls.tar_opens && fork_exec calls.forks calls.waits)
        (single-Answered answer
          (record { stat = resp_ok; body = codes "Archive created successfully" ++ (0 ∷ []) }) refl)
        (failed-Answered answer))

pub serve_list-Answered :
    (calls : Calls) (answer : Bool) (server client : Directory)
    → IsConnected calls answer
    → AnsweredServed answer (serve_list calls server client)
unfolding serve_list list_response write_response
serve_list-Answered calls answer server client h =
    rw (h.header_ok, h.body_ok)
      (single-Answered answer (or_empty (list_response calls.names)) (
        if_lem (λ o. is_last (or_empty o).stat ≡ true) (length (list_entries calls.names) == 0) refl
          refl))
