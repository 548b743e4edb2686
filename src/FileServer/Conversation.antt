-- ===== src/FileServer/Conversation.antt =====
-- A request from the client's prompt to what it prints: `server_request` of MidtermProject/server.c with the
-- loop of MidtermProject/client.c over its responses.
pub mod Waiting
pub mod Reading
pub mod Sharing
mod Tests
use cse344system_programming.Prelude.{ℕ, List}
use cse344system_programming.FileServer.Service.{Directory, Calls, server_request}
use cse344system_programming.FileServer.Terminal.{Received, converse}

-- What the client makes of a request, answered by these lines.
unfoldable pub talk :
    (memory : ℕ → ℕ → ℕ) (answers : List (List ℕ))
    → Calls
    → (server client : Directory) → (cmd : List ℕ) → Received
talk memory answers calls server client cmd =
    converse memory answers (server_request calls server client cmd).sent
