-- ===== src/FileServer/SafeDir/Tests.antt =====
-- Runs of the table of locks.
use mathlib.Core.Path.{◌≡◌, refl}
use mathlib.Core.Bool.{true}
use mathlib.Core.Option.{some}
use mathlib.Core.List.{[], ◌∷◌}
use cse344system_programming.Prelude.{codes, str_eq, strcmp}
use cse344system_programming.FileServer.SafeFile.{fresh_sfile, init_sfile}
use cse344system_programming.FileServer.SafeDir.{
  SafeDir, find_sfile, get_sfile, keep_sfile, add_sfile, add_entries, init_sdir,
}

abbrev two_files : SafeDir
two_files = record { files = fresh_sfile (codes "a") ∷ fresh_sfile (codes "b") ∷ []; capa = 128 }

init-two : init_sdir (codes "." ∷ codes "a" ∷ codes ".." ∷ codes "b" ∷ []) ≡ (true, two_files)
unfolding init_sdir add_entries add_sfile keep_sfile init_sfile str_eq strcmp
init-two = refl

get-second : get_sfile two_files (codes "b") ≡ some 1
unfolding get_sfile find_sfile str_eq strcmp
get-second = refl
