-- ===== src/FileServer/Commands/Tests.antt =====
-- Runs of the commands on small files.

use mathlib.Core.Path.{◌≡◌, refl}
use mathlib.Core.Option.{some}
use mathlib.Core.Bool.{true}
use mathlib.Core.List.{List, [], ◌∷◌}
use Prim.Native.Nat.{ℕ}
use cse344system_programming.Prelude.{codes, newline, str_eq, strcmp}
use cse344system_programming.FileServer.Reading.{seek_line, seek_from}
use cse344system_programming.FileServer.Commands.{
  resp_ok, list_response, list_entries, write_text, write_found, write_and_answer, write_at,
}
use cse344system_programming.FileServer.Commands.Writing.{Overwrites, write_text-Overwrites}

abbrev text : List ℕ
text = b'a' ∷ newline ∷ b'b' ∷ b'c' ∷ []

lists-two :
    list_response (codes "." ∷ codes "a" ∷ codes "b" ∷ [])
    ≡ some (record { stat = resp_ok; body = b'a' ∷ newline ∷ b'b' ∷ 0 ∷ [] })
unfolding list_response list_entries str_eq strcmp
lists-two = refl

overwrites-second :
    write_text true true (some text) (codes "x") 2
    ≡ record { file = some (b'a' ∷ newline ∷ b'x' ∷ b'c' ∷ []); answered = true; success = true }
unfolding write_text write_found write_and_answer write_at seek_line seek_from
overwrites-second = refl

write_text-Overwrites_example :
    Overwrites text (codes "x") 1 (write_text true true (some text) (codes "x") 2)
write_text-Overwrites_example = write_text-Overwrites text (codes "x") 1 true
