-- ===== src/FileServer/Client/Tests.antt =====
-- Lines of input.
use mathlib.Core.Path.{◌≡◌, refl}
use mathlib.Core.Option.{some}
use mathlib.Core.Bool.{true}
use mathlib.Core.List.{[], ◌∷◌, ◌++◌}
use cse344system_programming.Prelude.{codes, newline, str_eq, strcmp}
use cse344system_programming.FileServer.Client.{lower, get_approve}

approves :
    get_approve ((codes "what" ++ newline ∷ []) ∷ (codes "YES" ++ newline ∷ []) ∷ []) ≡ some true
unfolding get_approve lower str_eq strcmp
approves = refl
