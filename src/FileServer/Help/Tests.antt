-- ===== src/FileServer/Help/Tests.antt =====
-- Help for a topic, and for none.
use mathlib.Core.Path.{◌≡◌, refl}
use cse344system_programming.Prelude.{codes, str_eq, strcmp}
use cse344system_programming.FileServer.Help.{help_text, overview}

helps-all : help_text (codes " ") ≡ overview
unfolding help_text str_eq strcmp
helps-all = refl
