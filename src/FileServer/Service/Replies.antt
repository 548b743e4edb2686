-- ===== src/FileServer/Service/Replies.antt =====
-- The responses of `server_request` in MidtermProject/server.c to one request.
use cse344system_programming.Prelude.{
  ℕ, ◌≡◌, refl, Bool, true, false, if◌then◌else◌, Option, none, some, List, [], ◌∷◌, ◌++◌,
}
use cse344system_programming.FileServer.Requests.{
  Action, quit, kill_server, list_files, help_on, read_whole, read_line, write_end, write_line,
  upload, download, archive, refuse, ignore, request_action,
}
use cse344system_programming.FileServer.Commands.{
  Response, resp_ok, resp_error, write_response, resp_disconnect, cmd_quit, cmd_kill_server,
}
use cse344system_programming.FileServer.Commands.Reply.{Answers}
use cse344system_programming.FileServer.Help.{cmd_help, help_text}
use cse344system_programming.FileServer.Exchange.{CopyCalls}
use cse344system_programming.FileServer.Exchange.Answering.{IsHeard, cmd_copy-Answers}
use cse344system_programming.FileServer.Service.{
  Directory, Calls, Served, serve_upload, serve_download, serve, error_text, answer_error,
  server_request,
}
use cse344system_programming.FileServer.Service.Answering.{
  IsConnected, IsAnswered, AnsweredServed, single-Answered, failed-Answered, serve_write-Answered,
  serve_read_whole-Answered, serve_read_line-Answered, serve_archive-Answered, serve_list-Answered,
}

with_source :
    (calls : CopyCalls) (answer : Bool) (source : Option (List ℕ))
    → IsHeard calls answer
    → IsHeard (record calls { source = source }) answer
with_source calls answer source heard = record {
  answered = heard.answered;
  asks_header = heard.asks_header;
  asks_body = heard.asks_body;
  reports_header = heard.reports_header;
  reports_body = heard.reports_body;
}

serve-Answered :
    (calls : Calls) (answer : Bool) (server client : Directory) (action : Action)
    → IsConnected calls answer
    → IsAnswered calls server action
    → AnsweredServed answer (serve calls server client action)
unfolding serve cmd_quit cmd_kill_server serve_upload serve_download cmd_help write_response
serve-Answered calls answer server client quit h k =
    rw h.header_ok (single-Answered answer (record { stat = resp_disconnect; body = [] }) refl)
serve-Answered calls answer server client kill_server h k =
    rw h.header_ok (single-Answered answer (record { stat = resp_disconnect; body = [] }) refl)
serve-Answered calls answer server client list_files h k =
    serve_list-Answered calls answer server client h
serve-Answered calls answer server client (help_on topic) h k =
    rw (h.header_ok, h.body_ok)
      (single-Answered answer (record { stat = resp_ok; body = help_text topic ++ (0 ∷ []) }) refl)
serve-Answered calls answer server client (read_whole name) h k =
    serve_read_whole-Answered calls answer server client (server name) k
serve-Answered calls answer server client (read_line name line_no) h k =
    serve_read_line-Answered calls answer server client (server name) line_no h
serve-Answered calls answer server client (write_end name str) h k =
    serve_write-Answered calls answer server client name str 0 h k
serve-Answered calls answer server client (write_line name str line_no) h k =
    serve_write-Answered calls answer server client name str line_no h k
serve-Answered calls answer server client (upload none) h k = failed-Answered answer
serve-Answered calls answer server client (upload (some name)) h k = λ error e.
    cmd_copy-Answers (record calls.copy { source = client name }) answer name (server name) error
      (with_source calls.copy answer (client name) h.heard) e
serve-Answered calls answer server client (download none) h k = failed-Answered answer
serve-Answered calls answer server client (download (some name)) h k = λ error e.
    cmd_copy-Answers (record calls.copy { source = server name }) answer name (client name) error
      (with_source calls.copy answer (server name) h.heard) e
serve-Answered calls answer server client (archive file) h k =
    serve_archive-Answered calls answer server client file h
serve-Answered calls answer server client (refuse message) h k = failed-Answered answer
serve-Answered calls answer server client ignore h k = absurd k

sent-if :
    (test : Bool) (s t : Served) → (if test then s else t).sent ≡ (if test then s.sent else t.sent)
sent-if true s t = refl
sent-if false s t = refl

answer_error-Answers :
    (calls : Calls) (answer : Bool) (action : Action) (served : Served)
    → IsConnected calls answer
    → AnsweredServed answer served
    → Answers answer (answer_error calls action served).sent
unfolding answer_error write_response
answer_error-Answers calls answer action served h k =
    let error : Response = record {
      stat = resp_error;
      body = error_text calls.err_msg action ++ (0 ∷ []);
    } in
    rw
      (
        h.header_ok,
        h.body_ok,
        sent-if served.success served (record served { sent = served.sent ++ (error ∷ []) }),
      )
      (k error refl)

-- Where the writes to the client succeed and its answer is read, the responses to a request that the server
-- answers are a reply, or a question that is followed by a reply to a yes and by nothing to a no.
pub server_request-Answers :
    (calls : Calls) (answer : Bool) (server client : Directory) (cmd : List ℕ)
    → IsConnected calls answer
    → IsAnswered calls server (request_action cmd)
    → Answers answer (server_request calls server client cmd).sent
unfolding server_request
server_request-Answers calls answer server client cmd h k =
    let action = request_action cmd in
    answer_error-Answers calls answer action (serve calls server client action) h
      (serve-Answered calls answer server client action h k)
