-- ===== src/FileServer/Terminal.antt =====
-- The loop of `main` in MidtermProject/client.c, behind the connection: the prompt, the responses, and the
-- answer to a question. A response comes whole, and malloc and the writes to the server succeed.
pub mod Rounds
mod Tests
use cse344system_programming.Prelude.{
  ℕ, ◌+◌, ◌==◌, if◌then◌else◌, Bool, true, false, Option, none, some, List, [], ◌∷◌, ◌++◌, length,
  get_or, newline, c_string,
}
use cse344system_programming.FileServer.Commands.{
  RespStatus, resp_cont, resp_approve, resp_disconnect, Response,
}
use cse344system_programming.FileServer.Client.{read_command_line, get_approve}

-- What a round does first: it goes on to the next, or to the responses, or sends a command.
pub data Prompt : Type 0 where
  again skipped : Prompt
  request : (cmd : List ℕ) → Prompt

-- `typed` is the line that fgets gives, if any.
unfoldable pub prompt : (skip : Bool) (typed : Option (List ℕ)) → Prompt
prompt true typed = skipped
prompt false none = again
prompt false (some line) =
    let cmd = read_command_line line in if get_or cmd 0 0 == newline then again else request cmd

-- What is printed of a body. The terminator is written one byte too far, so the byte behind the body,
-- `garbage`, is what malloc left there.
unfoldable pub shown : (garbage : ℕ) (body : List ℕ) → List ℕ
shown garbage body = if length body == 0 then [] else c_string (body ++ (garbage ∷ 0 ∷ []))

-- What the loop over the responses leaves: the text, the responses that are not read yet, the status of the
-- last response, `connected`, and whether it came to a FIFO without a response, where it waits for the
-- server or finds that it has closed the FIFO.
pub record Received : Type 0 where
  pub printed : List ℕ
  pub rest : List Response
  pub last : Option RespStatus
  pub connected : Bool
  pub found_empty : Bool

-- One response, behind a newline; `later` is what the loop does behind it.
unfoldable pub received :
    (text : List ℕ) (rest : List Response) (later : Received) → RespStatus → Received
received text rest later resp_cont = record later { printed = newline ∷ text ++ later.printed }
received text rest later resp_disconnect = record {
  printed = newline ∷ [];
  rest = rest;
  last = some resp_disconnect;
  connected = false;
  found_empty = false;
}
received text rest later stat = record {
  printed = newline ∷ text;
  rest = rest;
  last = some stat;
  connected = true;
  found_empty = false;
}

-- `memory k` is the byte behind the `k`th body; where there is no response the FIFO is closed, and the
-- status is what it was.
unfoldable pub receive :
    (memory : ℕ → ℕ) (k : ℕ) (last : Option RespStatus) → List Response → Received
receive memory k last [] = record {
  printed = [];
  rest = [];
  last = last;
  connected = true;
  found_empty = true;
}
receive memory k last (r ∷ rs) =
    received (shown (memory k) r.body) rs (receive memory (k + 1) (some r.stat) rs) r.stat

abbrev pub asks : Option RespStatus → Bool
asks (some resp_approve) = true
asks _ = false

-- The answer that is sent to the server, and `skip`, by the lines that are typed. The end of the input
-- counts as no.
unfoldable pub approval : (answers : List (List ℕ)) → Bool
approval answers = elim (get_approve answers) [ none ↦ false | some answer ↦ answer ]

-- The rounds for one command: the responses, and where a question is answered by yes, the responses of the
-- next round, which skips the prompt.
unfoldable pub converse : (memory : ℕ → ℕ → ℕ) (answers : List (List ℕ)) → List Response → Received
converse memory answers responses =
    let first = receive (memory 0) 0 none responses in
    let second = receive (memory 1) 0 first.last first.rest in
    if asks first.last
    then (if approval answers
        then record second { printed = first.printed ++ second.printed }
        else first)
    else first
