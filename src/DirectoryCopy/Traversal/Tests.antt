-- ===== src/DirectoryCopy/Traversal/Tests.antt =====
-- A directory with a file and a directory.
use native.Mathlib.Omega.{arith}
use mathlib.Core.Path.{◌≡◌, refl}
use mathlib.Core.Bool.{true}
use mathlib.Core.Option.{some}
use mathlib.Core.List.{[], ◌∷◌}
use cse344system_programming.Prelude.{codes, str_eq, strcmp}
use cse344system_programming.DirectoryCopy.Traversal.{
  Entries, end, entry, regular, directory, fifo, traverse_directory, traverse_entries, is_dots,
  path_in, opened_files,
}
use cse344system_programming.DirectoryCopy.Traversal.Mirror.{
  AreMirrored, reach_of, traverse_directory-AreMirrored,
}

abbrev home : Entries
home = entry (codes ".") (directory true true end) (
    entry (codes "x") (regular (some 3) (some 4)) (
      entry (codes "d") (directory true true (entry (codes "y") (regular (some 5) (some 6)) end))
        (entry (codes "p") (fifo true) end)))

traverses-home :
    traverse_directory true true (codes "s") (codes "t") home
    ≡ some (record {
      files =
          record { src_fd = 3; dst_fd = 4; src_name = codes "s/x"; dst_name = codes "t/x" }
          ∷ record { src_fd = 5; dst_fd = 6; src_name = codes "s/d/y"; dst_name = codes "t/d/y" }
          ∷ [];
      num_directories = 1;
      num_fifo_files = 1;
    })
unfolding traverse_directory traverse_entries is_dots path_in opened_files str_eq strcmp
traverses-home = refl

traverse_directory-AreMirrored_example :
    AreMirrored (codes "s") (codes "t") (traverse_directory true true (codes "s") (codes "t") home)
unfolding reach_of
traverse_directory-AreMirrored_example =
    traverse_directory-AreMirrored true true (codes "s") (codes "t") home (omega arith)
      (omega arith)
