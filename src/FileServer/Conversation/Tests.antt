-- ===== src/FileServer/Conversation/Tests.antt =====
-- Requests of one client to a server with two files.
use mathlib.Core.Path.{◌≡◌, refl, sym, ap}
use cse344system_programming.Prelude.{
  ℕ, true, false, none, some, List, [], ◌∷◌, ◌++◌, codes, newline, str_eq, strcmp, if◌then◌else◌,
  All, arith, ◌≢◌, get_elem?,
}
use cse344system_programming.FileServer.Requests.{
  parse_command, tokens_from, token_end, skip_spaces, command_word, request_action, choose,
  read_action, read_line, read_whole, upload, download, line_argument, str_to_int, digits_from,
}
use cse344system_programming.FileServer.Reading.Lines.{lines_of}
use cse344system_programming.FileServer.Service.{Directory, Calls, server_request}
use cse344system_programming.FileServer.Service.Answering.{IsConnected, IsAnswered}
use cse344system_programming.FileServer.Commands.Transfer.{parts_from}
use cse344system_programming.FileServer.Exchange.{CopyCalls}
use cse344system_programming.FileServer.Terminal.{approval}
use cse344system_programming.FileServer.Terminal.Rounds.{IsSettled, lined, with_strays}
use cse344system_programming.FileServer.Client.{get_approve, lower}
use cse344system_programming.FileServer.Conversation.{talk}
use cse344system_programming.FileServer.Conversation.Waiting.{
  talk-IsSettled, IsUnknown, unknown_is_silent,
}
use cse344system_programming.FileServer.Conversation.Reading.{unasked, file_shown, line_shown}
use cse344system_programming.FileServer.Conversation.Sharing.{Transfers, upload-download}

abbrev text : List ℕ
text = b'a' ∷ newline ∷ b'b' ∷ b'c' ∷ []

abbrev files : Directory
files name =
    if str_eq name (codes "f") then some text else if str_eq name (codes "e") then some [] else none

abbrev yes_typed : List (List ℕ)
yes_typed = (codes "Yes" ++ (newline ∷ [])) ∷ []

abbrev clear : ℕ → ℕ → ℕ
clear _ _ = 0

abbrev copy_calls : CopyCalls
copy_calls = record {
  source = some text;
  creates = true;
  asks_header = true;
  asks_body = true;
  answer = some true;
  reopens = true;
  locked = true;
  room = 100;
  reports_header = true;
  reports_body = true;
}

abbrev calls : Calls
calls = record {
  header_ok = true;
  body_ok = true;
  chunk_ok = λ _. true;
  write_ok = true;
  names = [];
  copy = copy_calls;
  tar_opens = true;
  forks = true;
  waits = true;
  tar_content = [];
  err_msg = [];
  garbage = true;
}

approves : approval yes_typed ≡ true
unfolding approval get_approve lower str_eq strcmp
approves = refl

calls-IsConnected : IsConnected calls (approval yes_typed)
calls-IsConnected = record {
  header_ok = refl;
  body_ok = refl;
  chunk_ok = λ _. refl;
  heard = record {
    answered = ap some (sym approves);
    asks_header = refl;
    asks_body = refl;
    reports_header = refl;
    reports_body = refl;
  };
}

reads_file : request_action (codes "readF f") ≡ read_whole (codes "f")
unfolding request_action choose read_action line_argument str_to_int digits_from command_word
    parse_command tokens_from token_end skip_spaces str_eq strcmp
reads_file = refl

reads_second : request_action (codes "readF f 2") ≡ read_line (codes "f") 2
unfolding request_action choose read_action line_argument str_to_int digits_from command_word
    parse_command tokens_from token_end skip_spaces str_eq strcmp
reads_second = refl

uploads : request_action (codes "upload f") ≡ upload (some (codes "f"))
unfolding request_action choose command_word parse_command tokens_from token_end skip_spaces str_eq
    strcmp
uploads = refl

downloads : request_action (codes "download f") ≡ download (some (codes "f"))
unfolding request_action choose command_word parse_command tokens_from token_end skip_spaces str_eq
    strcmp
downloads = refl

has_file : files (codes "f") ≡ some text
unfolding str_eq strcmp
has_file = refl

text-bytes : All (λ c. c ≢ 0) text
text-bytes = ground arith

upload-IsAnswered : IsAnswered calls files (request_action (codes "upload f"))
upload-IsAnswered = rw uploads tt

unknown : IsUnknown (command_word (codes "ls f"))
unfolding command_word parse_command tokens_from token_end skip_spaces str_eq strcmp
unknown = ground arith

text-Transfers : Transfers calls text
text-Transfers = ((refl, refl, refl, refl, refl, omega arith, refl, refl), refl)

talk-IsSettled_example : IsSettled (talk clear yes_typed calls files files (codes "upload f"))
talk-IsSettled_example =
    talk-IsSettled clear yes_typed calls files files (codes "upload f") calls-IsConnected
      upload-IsAnswered

unknown_is_silent_example :
    let served = server_request calls files files (codes "ls f") in
    let heard = talk clear yes_typed calls files files (codes "ls f") in
    (served.sent ≡ [])
    × (served.alive ≡ true)
    × (served.server ≡ files)
    × (served.client ≡ files)
    × (heard.printed ≡ [])
    × (heard.found_empty ≡ true)
unknown_is_silent_example =
    unknown_is_silent clear yes_typed calls files files (codes "ls f") unknown

-- The byte `!` behind the block.
abbrev dirty : ℕ → ℕ → ℕ
dirty _ _ = b'!'

file_shown_example :
    let heard = talk dirty yes_typed calls files files (codes "readF f") in
    (heard.printed ≡ lined (with_strays (dirty 0) 0 (parts_from 4 text)))
    × (heard.rest ≡ unasked calls)
    × (heard.found_empty ≡ false)
file_shown_example =
    file_shown dirty yes_typed calls files files (codes "readF f") (codes "f") text
      calls-IsConnected reads_file has_file (omega arith) text-bytes

abbrev second : List ℕ
second = b'b' ∷ b'c' ∷ []

second_line : get_elem? (lines_of text) 1 ≡ some second
unfolding lines_of
second_line = refl

line_shown_example :
    (talk clear yes_typed calls files files (codes "readF f 2")).printed ≡ newline ∷ second
line_shown_example =
    line_shown clear yes_typed calls files files (codes "readF f 2") (codes "f") text second 1
      calls-IsConnected reads_second has_file second_line (ground arith)

upload-download_example :
    (server_request calls
        (server_request calls files files (codes "upload f")).server
        (λ _. none)
        (codes "download f")).client
      (codes "f")
    ≡ some text
upload-download_example =
    upload-download calls calls files files (λ _. none) (codes "upload f") (codes "download f")
      (codes "f") text text-Transfers text-Transfers uploads downloads has_file
