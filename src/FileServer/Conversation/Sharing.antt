-- ===== src/FileServer/Conversation/Sharing.antt =====
-- Requests that copy files (`upload` and `download`), in MidtermProject/server.c.
use cse344system_programming.Prelude.{ℕ, ◌≡◌, refl, true, Option, some, List, str_eq_iff, if_lem}
use cse344system_programming.FileServer.Requests.{Action, upload, download, request_action}
use cse344system_programming.FileServer.Exchange.{CopyCalls, Copying, cmd_copy}
use cse344system_programming.FileServer.Exchange.Branches.{Succeeds, is_new, cmd_copy_lem}
use cse344system_programming.FileServer.Service.{
  Directory, with_file, Calls, Served, serve_upload, serve_download, serve, answer_error,
  server_request,
}

-- The content of the destination behind an upload or a download.
copied_dest :
    (calls : CopyCalls) (name content : List ℕ) (dest : Option (List ℕ))
    → Succeeds calls content
    → calls.answer ≡ some true
    → (cmd_copy calls name dest).dest ≡ some content
copied_dest calls name content dest h e =
    rw (cmd_copy_lem calls name content dest true h e)
      (if_lem (λ (c : Copying). c.dest ≡ some content) (is_new calls dest) refl refl)

with_file-same :
    (files : Directory) (name : List ℕ) (file : Option (List ℕ))
    → with_file files name file name ≡ file
with_file-same files name file = rw ((str_eq_iff name name).1 refl) refl

-- The calls of `cmd_copy` succeed, with a yes, for a file of this content.
abbrev pub Transfers : Calls → (content : List ℕ) → Type 0
Transfers calls content =
    Succeeds (record calls.copy { source = some content }) content × (calls.copy.answer ≡ some true)

answer_error-files :
    (calls : Calls) (action : Action) (served : Served)
    → let answered = answer_error calls action served in
      (answered.server ≡ served.server) × (answered.client ≡ served.client)
unfolding answer_error
answer_error-files calls action served =
    if_lem (λ (s : Served). (s.server ≡ served.server) × (s.client ≡ served.client)) served.success
      (refl, refl) (refl, refl)

uploaded :
    (calls : Calls) (server client : Directory) (cmd name content : List ℕ)
    → Transfers calls content
    → request_action cmd ≡ upload (some name)
    → client name ≡ some content
    → (server_request calls server client cmd).server name ≡ some content
unfolding server_request serve serve_upload
uploaded calls server client cmd name content h e f =
    let dest =
      copied_dest (record calls.copy { source = some content }) name content (server name) h.0
        h.1 in
    rw
      (
        e,
        (answer_error-files calls (upload (some name)) (serve_upload calls server client name)).0,
        f,
        dest,
      )
      (with_file-same server name (some content))

downloaded :
    (calls : Calls) (server client : Directory) (cmd name content : List ℕ)
    → Transfers calls content
    → request_action cmd ≡ download (some name)
    → server name ≡ some content
    → (server_request calls server client cmd).client name ≡ some content
unfolding server_request serve serve_download
downloaded calls server client cmd name content h e f =
    let dest =
      copied_dest (record calls.copy { source = some content }) name content (client name) h.0
        h.1 in
    rw
      (
        e,
        (answer_error-files calls (download (some name))
            (serve_download calls server client name)).1,
        f,
        dest,
      )
      (with_file-same client name (some content))

-- A file that one client uploads stands in the directory of another that downloads it then, where the calls
-- that this depends on succeed and both clients answer a question by yes.
pub upload-download :
    (first second : Calls) (server client_1 client_2 : Directory) (up down name content : List ℕ)
    → Transfers first content
    → Transfers second content
    → request_action up ≡ upload (some name)
    → request_action down ≡ download (some name)
    → client_1 name ≡ some content
    → (server_request second (server_request first server client_1 up).server client_2 down).client
        name
      ≡ some content
upload-download first second server client_1 client_2 up down name content h k e f g =
    let there = (server_request first server client_1 up).server in
    downloaded second there client_2 down name content k f
      (uploaded first server client_1 up name content h e g)
