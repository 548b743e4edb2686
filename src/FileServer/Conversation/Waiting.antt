-- ===== src/FileServer/Conversation/Waiting.antt =====
-- The client of MidtermProject/client.c as it waits for the responses of MidtermProject/server.c.
use cse344system_programming.Prelude.{ℕ, ◌≡◌, refl, true, false, List, [], All, str_eq}
use cse344system_programming.FileServer.Requests.{
  ignore, choose, parse_command, command_word, help_topics, request_action,
}
use cse344system_programming.FileServer.Service.{
  Directory, Calls, serve, answer_error, server_request,
}
use cse344system_programming.FileServer.Service.Answering.{IsConnected, IsAnswered}
use cse344system_programming.FileServer.Service.Replies.{server_request-Answers}
use cse344system_programming.FileServer.Terminal.{receive, approval, converse}
use cse344system_programming.FileServer.Terminal.Rounds.{IsSettled, converse-IsSettled}
use cse344system_programming.FileServer.Conversation.{talk}

-- Where the writes to the client succeed and its answer is read, and the request is one that the server
-- answers, other than for a whole file that it has, the client reads every response and waits for no more.
pub talk-IsSettled :
    (memory : ℕ → ℕ → ℕ) (answers : List (List ℕ)) (calls : Calls) (server client : Directory)
    (cmd : List ℕ)
    → IsConnected calls (approval answers)
    → IsAnswered calls server (request_action cmd)
    → IsSettled (talk memory answers calls server client cmd)
unfolding talk
talk-IsSettled memory answers calls server client cmd h k =
    converse-IsSettled memory answers (server_request calls server client cmd).sent
      (server_request-Answers calls (approval answers) server client cmd h k)

-- The word is not the name of a command of the server.
abbrev pub IsUnknown : (word : List ℕ) → Type 0
IsUnknown word = All (λ name. str_eq word name ≡ false) help_topics

choose-IsUnknown :
    (word : List ℕ) (argv : List (List ℕ)) → IsUnknown word → choose word argv ≡ ignore
unfolding choose
choose-IsUnknown word argv
      (is_list, (read, (help, (write, (up, (down, (quits, (kills, (arch, last))))))))) =
    rw (quits, kills, help, is_list, read, write, up, down, arch) refl

-- To a request whose word is not the name of a command, whatever the calls answer, the server sends nothing,
-- not even an error, and it goes on with both directories as they are; the client prints nothing and waits
-- for a response all the same.
pub unknown_is_silent :
    (memory : ℕ → ℕ → ℕ) (answers : List (List ℕ)) (calls : Calls) (server client : Directory)
    (cmd : List ℕ)
    → IsUnknown (command_word cmd)
    → let served = server_request calls server client cmd in
      let heard = talk memory answers calls server client cmd in
      (served.sent ≡ [])
      × (served.alive ≡ true)
      × (served.server ≡ server)
      × (served.client ≡ client)
      × (heard.printed ≡ [])
      × (heard.found_empty ≡ true)
unfolding talk converse receive server_request answer_error serve request_action
unknown_is_silent memory answers calls server client cmd h =
    rw (choose-IsUnknown (command_word cmd) (parse_command cmd) h)
      (refl, refl, refl, refl, refl, refl)
