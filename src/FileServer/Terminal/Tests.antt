-- ===== src/FileServer/Terminal/Tests.antt =====
-- Rounds of the client's loop.
use mathlib.Core.Path.{◌≡◌, refl}
use cse344system_programming.Prelude.{true, false, some, [], ◌∷◌, ◌++◌, codes, newline, c_string}
use cse344system_programming.FileServer.Client.{read_command_line, kept_length}
use cse344system_programming.FileServer.Terminal.{again, skipped, request, prompt, shown}

reads_command : prompt false (some (codes "list" ++ (newline ∷ []))) ≡ request (codes "list")
unfolding prompt read_command_line kept_length
reads_command = refl

skips_prompt : prompt true (some (codes "list")) ≡ skipped
unfolding prompt
skips_prompt = refl

asks_again : prompt false (some (newline ∷ [])) ≡ again
unfolding prompt read_command_line kept_length
asks_again = refl

-- A byte that malloc left is printed behind a body without a terminator.
prints_garbage : shown b'!' (codes "ab") ≡ codes "ab!"
unfolding shown c_string
prints_garbage = refl
