-- ===== src/FileServer/Service.antt =====
-- `server_request` of MidtermProject/server.c: one round of its loop for a request that is read whole. The
-- log is left out. A directory is a function from names to the contents of files.
pub mod Answering
pub mod Replies
mod Tests
use cse344system_programming.Prelude.{
  ℕ, if◌then◌else◌, Bool, true, false, not, Option, none, some, List, [], ◌∷◌, ◌++◌, ◌+◌, ◌&&◌,
  length, codes, str_eq,
}
use cse344system_programming.FileServer.Requests.{
  Action, quit, kill_server, list_files, help_on, read_whole, read_line, write_end, write_line,
  upload, download, archive, refuse, ignore, request_action,
}
use cse344system_programming.FileServer.Commands.{
  Response, resp_ok, resp_error, write_response, read_whole_file, read_file_line, write_text,
  list_response, cmd_quit, cmd_kill_server,
}
use cse344system_programming.FileServer.Help.{cmd_help}
use cse344system_programming.FileServer.Exchange.{CopyCalls, cmd_copy, cmd_arch_server, digits}

abbrev pub Directory : Type 0
Directory = List ℕ → Option (List ℕ)

-- A directory after the file of a name is written.
abbrev pub with_file : Directory → (name : List ℕ) → Option (List ℕ) → Directory
with_file files name file other = if str_eq other name then file else files other

-- What the calls answer while a request is served: the writes of a response, `chunk_ok` those of a whole
-- file, round by round; the write to a file; the names that readdir gives; the calls of `cmd_copy`, but
-- for its source; the calls of `cmd_archServer`, and what tar has written to its file when it ends.
-- `err_msg` is the text that stands in the buffer of that name, and `garbage` tells whether a status that
-- is not initialised happens to be -1. Where the server opens a file, it gets its lock too.
pub record Calls : Type 0 where
  pub header_ok : Bool
  pub body_ok : Bool
  pub chunk_ok : ℕ → Bool
  pub write_ok : Bool
  pub names : List (List ℕ)
  pub copy : CopyCalls
  pub tar_opens : Bool
  pub forks : Bool
  pub waits : Bool
  pub tar_content : List ℕ
  pub err_msg : List ℕ
  pub garbage : Bool

-- What a command leaves: the directories of the server and of the client, what was sent, whether the status
-- is not -1, and whether the loop goes on.
pub record Served : Type 0 where
  pub server : Directory
  pub client : Directory
  pub sent : List Response
  pub success : Bool
  pub alive : Bool

abbrev pub no_change : Directory → Directory → (sent : List Response) (success : Bool) → Served
no_change server client sent success = record {
  server = server;
  client = client;
  sent = sent;
  success = success;
  alive = true;
}

-- `cmd_quit` and `cmd_kill_server` end the loop where their write succeeds.
abbrev pub farewell : Directory → Directory → (header_ok : Bool) (sent : List Response) → Served
farewell server client header_ok sent = record {
  server = server;
  client = client;
  sent = sent;
  success = header_ok;
  alive = not header_ok;
}

-- `cmd_writeT` writes in the server's directory, and tells the client how much.
unfoldable pub written : (name str : List ℕ) → Response
written name str = record {
  stat = resp_ok;
  body =
      digits (length str + 1) (length str)
        (codes " byte(s) written to file " ++ (name ++ (0 ∷ [])));
}

unfoldable pub serve_write :
    Calls → Directory → Directory → (name str : List ℕ) (line_no : ℕ) → Served
serve_write calls server client name str line_no =
    let (ok, answer) = write_response calls.header_ok calls.body_ok (written name str) in
    let w = write_text calls.write_ok ok (server name) str line_no in
    record {
      server = with_file server name w.file;
      client = client;
      sent = if w.success && calls.write_ok then answer else [];
      success = w.success;
      alive = true;
    }

-- `cmd_readF` for a file that the directory has or not.
unfoldable pub serve_read_whole : Calls → Directory → Directory → Option (List ℕ) → Served
serve_read_whole calls server client none = no_change server client [] false
serve_read_whole calls server client (some content) =
    let (sent, status) = read_whole_file calls.chunk_ok content in
    no_change server client sent (elim status [ none ↦ not calls.garbage | some ok ↦ ok ])

-- The line that is found, if any.
unfoldable pub serve_line : Calls → Directory → Directory → List Response → Served
serve_line calls server client [] = no_change server client [] false
serve_line calls server client (line ∷ _) =
    let (ok, sent) = write_response calls.header_ok calls.body_ok line in
    no_change server client sent ok

unfoldable pub serve_read_line : Calls → Directory → Directory → Option (List ℕ) → ℕ → Served
serve_read_line calls server client none line_no = no_change server client [] false
serve_read_line calls server client (some content) line_no =
    serve_line calls server client (read_file_line true content line_no).0

-- `upload` copies from the client's directory to the server's, `download` the other way.
unfoldable pub serve_upload : Calls → Directory → Directory → (name : List ℕ) → Served
serve_upload calls server client name =
    let c = cmd_copy (record calls.copy { source = client name }) name (server name) in
    record {
      server = with_file server name c.dest;
      client = client;
      sent = c.sent;
      success = c.success;
      alive = true;
    }

unfoldable pub serve_download : Calls → Directory → Directory → (name : List ℕ) → Served
serve_download calls server client name =
    let c = cmd_copy (record calls.copy { source = server name }) name (client name) in
    record {
      server = server;
      client = with_file client name c.dest;
      sent = c.sent;
      success = c.success;
      alive = true;
    }

-- `cmd_archServer`: where a name is given and the file opens, it is created or truncated, and holds then
-- what the child wrote.
unfoldable pub serve_archive : Calls → Directory → Directory → (file : Option (List ℕ)) → Served
serve_archive calls server client none = no_change server client [] false
serve_archive calls server client (some name) =
    let (ok, sent) =
      cmd_arch_server true calls.tar_opens calls.forks calls.waits calls.header_ok calls.body_ok in
    let tar : List ℕ = if calls.forks then calls.tar_content else [] in
    record {
      server = if calls.tar_opens then with_file server name (some tar) else server;
      client = client;
      sent = sent;
      success = ok;
      alive = true;
    }

-- `cmd_list`; for an empty directory it sends an empty response.
abbrev pub or_empty : Option Response → Response
or_empty none = record { stat = resp_ok; body = [] }
or_empty (some r) = r

unfoldable pub serve_list : Calls → Directory → Directory → Served
serve_list calls server client =
    let (ok, sent) =
      write_response calls.header_ok calls.body_ok (or_empty (list_response calls.names)) in
    no_change server client sent ok

-- The command that is chosen. A missing name is taken for one of no file.
unfoldable pub serve : Calls → (server client : Directory) → Action → Served
serve calls server client quit = farewell server client calls.header_ok (cmd_quit calls.header_ok)
serve calls server client kill_server =
    farewell server client calls.header_ok (cmd_kill_server calls.header_ok).0
serve calls server client list_files = serve_list calls server client
serve calls server client (help_on topic) =
    let (ok, sent) = cmd_help calls.header_ok calls.body_ok topic in no_change server client sent ok
serve calls server client (read_whole name) = serve_read_whole calls server client (server name)
serve calls server client (read_line name line_no) =
    serve_read_line calls server client (server name) line_no
serve calls server client (write_end name str) = serve_write calls server client name str 0
serve calls server client (write_line name str line_no) =
    serve_write calls server client name str line_no
serve calls server client (upload none) = no_change server client [] false
serve calls server client (upload (some name)) = serve_upload calls server client name
serve calls server client (download none) = no_change server client [] false
serve calls server client (download (some name)) = serve_download calls server client name
serve calls server client (archive file) = serve_archive calls server client file
serve calls server client (refuse message) = no_change server client [] false
serve calls server client ignore = no_change server client [] true

abbrev pub error_text : (err_msg : List ℕ) → Action → List ℕ
error_text err_msg (refuse message) = message
error_text err_msg action = err_msg

-- Where the status is -1, an error response follows.
unfoldable pub answer_error : Calls → Action → Served → Served
answer_error calls action served =
    let error : Response = record {
      stat = resp_error;
      body = error_text calls.err_msg action ++ (0 ∷ []);
    } in
    if served.success then served else record served {
      sent = served.sent ++ (write_response calls.header_ok calls.body_ok error).1;
    }

-- The round of the loop for a request.
unfoldable pub server_request : Calls → (server client : Directory) → (cmd : List ℕ) → Served
server_request calls server client cmd =
    let action = request_action cmd in answer_error calls action (serve calls server client action)
