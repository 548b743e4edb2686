-- ===== src/FileServer/Requests/Tests.antt =====
-- Requests and what they come to.
use native.Mathlib.Omega.{arith}
use mathlib.Core.Path.{◌≡◌, refl}
use mathlib.Core.Option.{some, none}
use mathlib.Core.List.{List, [], ◌∷◌}
use Prim.Native.Nat.{ℕ}
use cse344system_programming.Prelude.{codes, str_eq, strcmp, All}
use cse344system_programming.FileServer.Requests.{
  parse_command, tokens_from, token_end, skip_spaces, command_word, request_action, choose,
  read_action, read_line, ignore, line_argument, str_to_int, digits_from,
}
use cse344system_programming.FileServer.Requests.Tokens.{
  IsWord, join_words, parse_command-join_words,
}

abbrev words : List (List ℕ)
words = codes "readF" ∷ codes "a.txt" ∷ codes "12" ∷ []

words-IsWord : All IsWord words
words-IsWord = ground arith

reads-line : request_action (codes "readF a.txt 12") ≡ read_line (codes "a.txt") 12
unfolding request_action choose read_action line_argument str_to_int digits_from command_word
    parse_command tokens_from token_end skip_spaces str_eq strcmp
reads-line = refl

-- No answer at all.
ignores-short : request_action (codes "readF") ≡ ignore
unfolding request_action choose read_action command_word parse_command tokens_from token_end
    skip_spaces str_eq strcmp
ignores-short = refl

reads-signed : line_argument (codes "+5") ≡ some 5
unfolding line_argument str_to_int digits_from
reads-signed = refl

refuses-negative : line_argument (codes "-1") ≡ none
unfolding line_argument str_to_int digits_from
refuses-negative = refl

parse_command-join_words_example : parse_command (join_words words) ≡ words
parse_command-join_words_example = parse_command-join_words words words-IsWord
