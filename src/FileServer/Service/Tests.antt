-- ===== src/FileServer/Service/Tests.antt =====
-- The contents of a directory behind a write.
use mathlib.Core.Path.{◌≡◌, refl}
use cse344system_programming.Prelude.{none, some, codes, str_eq, strcmp}
use cse344system_programming.FileServer.Service.{with_file}

replaces : with_file (λ _. none) (codes "f") (some (codes "x")) (codes "f") ≡ some (codes "x")
unfolding str_eq strcmp
replaces = refl

keeps : with_file (λ _. none) (codes "f") (some (codes "x")) (codes "g") ≡ none
unfolding str_eq strcmp
keeps = refl
