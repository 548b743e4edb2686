-- ===== src/FileServer/Conversation/Reading.antt =====
-- Requests for a file or a line of it (`readF`), in MidtermProject/server.c and MidtermProject/client.c.
use cse344system_programming.Prelude.{
  ℕ, newline, ap, suc, ◌<◌, ◌≡◌, ◌≢◌, refl, sym, subst, ◌∙◌, Bool, true, false, Bool-cases, inl,
  inr, if◌then◌else◌, some, List, [], ◌∷◌, ◌++◌, length, All, get_elem?, append-nil,
}
use cse344system_programming.FileServer.Requests.{read_whole, read_line, request_action}
use cse344system_programming.FileServer.Reading.{seek_line, line_at, find_line}
use cse344system_programming.FileServer.Reading.Lines.{lines_of, find_line-lines_of}
use cse344system_programming.FileServer.Commands.{
  Response, resp_ok, resp_error, write_response, read_whole_file, read_file_line,
}
use cse344system_programming.FileServer.Commands.Transfer.{
  read_whole_file-Sends, read_whole_file-parts, parts_from, parts_from-some, bodies,
}
use cse344system_programming.FileServer.Service.{
  Directory, Calls, serve_read_whole, serve_line, serve_read_line, serve, answer_error,
  server_request,
}
use cse344system_programming.FileServer.Service.Answering.{IsConnected}
use cse344system_programming.FileServer.Terminal.{shown, approval}
use cse344system_programming.FileServer.Terminal.Rounds.{
  shown_all, shown_all-lined, lined, with_strays, read_up, shown-terminated, converse-IsStream,
}
use cse344system_programming.FileServer.Conversation.{talk}

-- The error response that follows where the status of `cmd_readF` happens to be -1.
abbrev pub unasked : Calls → List Response
unasked calls =
    if calls.garbage
    then record { stat = resp_error; body = calls.err_msg ++ (0 ∷ []) } ∷ []
    else []

whole_sent :
    (calls : Calls) (answer : Bool) (server client : Directory) (cmd name content : List ℕ)
    → IsConnected calls answer
    → request_action cmd ≡ read_whole name
    → server name ≡ some content
    → 0 < length content
    → (server_request calls server client cmd).sent
      ≡ (read_whole_file calls.chunk_ok content).0 ++ unasked calls
unfolding server_request answer_error serve serve_read_whole write_response
whole_sent calls answer server client cmd name content h e f pos =
    let rs = (read_whole_file calls.chunk_ok content).0 in
    let (stream, text, fine) = read_whole_file-Sends calls.chunk_ok content h.chunk_ok pos in
    elim (Bool-cases calls.garbage) [
      | inl bad ↦ rw (e, f, fine, bad, h.header_ok, h.body_ok) refl
      | inr good ↦ rw (e, f, fine, good) (sym (append-nil rs))
    ]

line_sent :
    (calls : Calls) (answer : Bool) (server client : Directory) (cmd name content line : List ℕ)
    (n : ℕ)
    → IsConnected calls answer
    → request_action cmd ≡ read_line name n
    → server name ≡ some content
    → find_line content n ≡ some line
    → (server_request calls server client cmd).sent
      ≡ record { stat = resp_ok; body = line ++ (0 ∷ []) } ∷ []
unfolding server_request answer_error serve serve_read_line serve_line read_file_line write_response
    find_line
line_sent calls answer server client cmd name content line n h e f g =
    let r : Response = record { stat = resp_ok; body = line ++ (0 ∷ []) } in
    let at : line_at (seek_line content n) ≡ some line = g in
    let found : read_file_line true content n ≡ (r ∷ [], true) = rw (read_file_line, at) refl in
    rw (e, f, serve_read_line, found, serve_line, h.header_ok, h.body_ok) refl

-- Where the writes to the client succeed, a request for a whole file that is not empty and holds no zero byte
-- prints this file at the client, in parts of the size of the server's buffer with a newline before each;
-- behind each part comes the byte that malloc left behind its block, where it is not zero. The client waits
-- for no more responses. None is left to read, but where the status that the server did not initialise
-- happens to be -1: then an error response is.
pub file_shown :
    (memory : ℕ → ℕ → ℕ) (answers : List (List ℕ)) (calls : Calls) (server client : Directory)
    (cmd name content : List ℕ)
    → IsConnected calls (approval answers)
    → request_action cmd ≡ read_whole name
    → server name ≡ some content
    → 0 < length content
    → All (λ c. c ≢ 0) content
    → let heard = talk memory answers calls server client cmd in
      (heard.printed ≡ lined (with_strays (memory 0) 0 (parts_from (length content) content)))
      × (heard.rest ≡ unasked calls)
      × (heard.found_empty ≡ false)
unfolding talk read_up
file_shown memory answers calls server client cmd name content h e f pos bytes =
    let rs = (read_whole_file calls.chunk_ok content).0 in
    let (stream, text, fine) = read_whole_file-Sends calls.chunk_ok content h.chunk_ok pos in
    let parts = read_whole_file-parts calls.chunk_ok content h.chunk_ok in
    let some_bytes : All (λ b. 0 < length b) (bodies rs) =
      subst (All (λ b. 0 < length b)) (sym parts) (parts_from-some (length content) content) in
    rw
      (
        whole_sent calls (approval answers) server client cmd name content h e f pos,
        converse-IsStream memory answers rs (unasked calls) stream,
      )
      (
        shown_all-lined (memory 0) 0 rs some_bytes (subst (All (λ c. c ≢ 0)) (sym text) bytes)
            ∙ ap (λ ps. lined (with_strays (memory 0) 0 ps)) parts,
        refl,
        refl,
      )

-- Where the writes to the client succeed, a request for a line by its number prints a newline and this
-- line of the file at the client, its own newline included, whatever the memory of the client holds; the
-- line has no zero byte.
pub line_shown :
    (memory : ℕ → ℕ → ℕ) (answers : List (List ℕ)) (calls : Calls) (server client : Directory)
    (cmd name content line : List ℕ) (n : ℕ)
    → IsConnected calls (approval answers)
    → request_action cmd ≡ read_line name (suc n)
    → server name ≡ some content
    → get_elem? (lines_of content) n ≡ some line
    → All (λ c. c ≢ 0) line
    → (talk memory answers calls server client cmd).printed ≡ newline ∷ line
unfolding talk shown_all read_up
line_shown memory answers calls server client cmd name content line n h e f g bytes =
    let r : Response = record { stat = resp_ok; body = line ++ (0 ∷ []) } in
    rw
      (
        line_sent calls (approval answers) server client cmd name content line (suc n) h e f
            (find_line-lines_of content n ∙ g),
        converse-IsStream memory answers (r ∷ []) [] refl,
      )
      (ap (λ t. newline ∷ t)
        (append-nil (shown (memory 0 0) r.body) ∙ shown-terminated (memory 0 0) line bytes))
