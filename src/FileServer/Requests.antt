-- ===== src/FileServer/Requests.antt =====
-- Reading a request: `parse_command` of MidtermProject/common.c, `str_to_int` of
-- MidtermProject/server.c and the choice that `server_request` makes between the commands.
pub mod Tokens
pub mod Choice
mod Tests
use cse344system_programming.Prelude.{
  ℕ, zero, suc, ◌+◌, ◌-◌, ◌*◌, ◌%◌, ◌^◌, ◌==◌, ltb, leb, if◌then◌else◌, Bool, true, false, ◌&&◌,
  ◌||◌, Option, none, some, List, [], ◌∷◌, ◌++◌, length, space, codes, str_eq, not,
}

-- The bytes up to the next space, and those behind it (strtok overwrites that space).
unfoldable pub token_end : List ℕ → List ℕ × List ℕ
token_end [] = ([], [])
token_end (c ∷ cs) = let (t, rest) = token_end cs in if c == space then ([], cs) else (c ∷ t, rest)

unfoldable pub skip_spaces : List ℕ → List ℕ
skip_spaces [] = []
skip_spaces (c ∷ cs) = if c == space then skip_spaces cs else c ∷ cs

-- The tokens that repeated calls of `strtok(_, " ")` return. Each call takes a byte at least, so the
-- length of the text is fuel enough.
unfoldable pub tokens_from : ℕ → List ℕ → List (List ℕ)
tokens_from zero cs = []
tokens_from (suc fuel) cs = elim (skip_spaces cs) [
  | [] ↦ []
  | c ∷ rest ↦ (token_end (c ∷ rest)).0 ∷ tokens_from fuel (token_end (c ∷ rest)).1
]

-- `cmd_argv`; its length is the count that `parse_command` returns, but for an empty command, where
-- the count is 1 and `cmd_argv[0]` is NULL.
unfoldable pub parse_command : List ℕ → List (List ℕ)
unfolding tokens_from token_end skip_spaces
parse_command cmd = tokens_from (length cmd) cmd

-- What the buffer `cmd` holds behind the calls of strtok: the first token with the spaces before it.
unfoldable pub command_word : List ℕ → List ℕ
unfolding token_end
command_word [] = []
command_word (c ∷ cs) = if c == space then c ∷ command_word cs else (token_end (c ∷ cs)).0

abbrev pub is_digit : ℕ → Bool
is_digit c = leb b'0' c && leb c b'9'

-- The digits of strtol: the value so far, and the bytes behind the last digit.
unfoldable pub digits_from : ℕ → List ℕ → ℕ × List ℕ
digits_from value [] = (value, [])
digits_from value (c ∷ cs) =
    let more = digits_from (value * 10 + (c - b'0')) cs in
    if is_digit c then more else (value, c ∷ cs)

-- An `int` as its bit pattern.
abbrev pub int_mod : ℕ
int_mod = 2 ^ 32

-- `str_to_int` on a text with no leading white space: the number, and whether the status is not the
-- -1 of an error (a text that is no number, or is out of the range of a `long`).
unfoldable pub str_to_int : List ℕ → ℕ × Bool
unfolding digits_from
str_to_int [] = (0, true)
str_to_int (c ∷ cs) =
    let (signed, behind) = digits_from 0 cs in
    let whole = (length behind == 0) && not (length cs == 0) in
    let (plain, rest) = digits_from 0 (c ∷ cs) in
    if c == b'-'
    then ((int_mod - signed % int_mod) % int_mod, whole && leb signed (2 ^ 63))
    else if c == b'+'
    then (signed % int_mod, whole && ltb signed (2 ^ 63))
    else (plain % int_mod, (length rest == 0) && ltb plain (2 ^ 63))

-- The test of a line number in `server_request`: `status == -1 || n < 1` refuses it.
unfoldable pub line_argument : List ℕ → Option ℕ
unfolding str_to_int
line_argument str =
    let (n, ok) = str_to_int str in if ok && leb 1 n && ltb n (2 ^ 31) then some n else none

-- What `server_request` does with a request.
pub data Action : Type 0 where
  quit kill_server list_files : Action
  help_on : (topic : List ℕ) → Action
  read_whole : (file : List ℕ) → Action
  read_line : (file : List ℕ) (line_no : ℕ) → Action
  write_end : (file str : List ℕ) → Action
  write_line : (file str : List ℕ) (line_no : ℕ) → Action
  upload download archive : (file : Option (List ℕ)) → Action
  refuse : (message : List ℕ) → Action
  -- no call is made, and nothing is sent
  ignore : Action

abbrev pub help_topics : List (List ℕ)
help_topics =
    codes "list"
    ∷ codes "readF"
    ∷ codes "help"
    ∷ codes "writeT"
    ∷ codes "upload"
    ∷ codes "download"
    ∷ codes "quit"
    ∷ codes "killServer"
    ∷ codes "archServer"
    ∷ []

unfoldable pub mem_text : List ℕ → List (List ℕ) → Bool
mem_text t [] = false
mem_text t (x ∷ xs) = str_eq t x || mem_text t xs

unfoldable pub help_action : List (List ℕ) → Action
help_action (_ ∷ []) = help_on (codes " ")
help_action (_ ∷ topic ∷ []) =
    if mem_text topic help_topics then help_on topic else refuse (codes "Unknown command")
help_action _ = ignore

abbrev pub bad_line : Action
bad_line = refuse (codes "Please provide a positive integer for line #")

unfoldable pub read_action : List (List ℕ) → Action
read_action (_ ∷ file ∷ []) = read_whole file
read_action (_ ∷ file ∷ line ∷ []) = elim (line_argument line) [
  | none ↦ bad_line
  | some n ↦ read_line file n
]
read_action _ = ignore

unfoldable pub write_action : List (List ℕ) → Action
write_action (_ ∷ file ∷ str ∷ []) = write_end file str
write_action (_ ∷ file ∷ line ∷ str ∷ []) = elim (line_argument line) [
  | none ↦ bad_line
  | some n ↦ write_line file str n
]
write_action _ = ignore

-- `cmd_argv[1]`, which is NULL where there is no second token.
abbrev pub second : List (List ℕ) → Option (List ℕ)
second (_ ∷ file ∷ _) = some file
second _ = none

-- The chain of strcmp in `server_request`, over the word in `cmd` and `cmd_argv`.
unfoldable pub choose : (word : List ℕ) → (argv : List (List ℕ)) → Action
choose word argv =
    if str_eq word (codes "quit")
    then quit
    else if str_eq word (codes "killServer")
    then kill_server
    else if str_eq word (codes "help")
    then help_action argv
    else if str_eq word (codes "list")
    then list_files
    else if str_eq word (codes "readF")
    then read_action argv
    else if str_eq word (codes "writeT")
    then write_action argv
    else if str_eq word (codes "upload")
    then upload (second argv)
    else if str_eq word (codes "download")
    then download (second argv)
    else if str_eq word (codes "archServer")
    then archive (second argv)
    else ignore

unfoldable pub request_action : List ℕ → Action
unfolding choose parse_command command_word
request_action cmd = choose (command_word cmd) (parse_command cmd)
