-- ===== src/DirectoryCopy/Traversal.antt =====
-- `traverse_directory` of Homework4/200104004104_main.c, up to the handing on of a file: the files that the
-- manager opens, in order, and the counts of directories and FIFOs. What the system calls answer stands
-- in the tree. `none` is the end of the program in `handle_error`.
pub mod Mirror
mod Tests
use cse344system_programming.Prelude.{
  ℕ, ◌+◌, ◌-◌, Bool, true, false, ◌||◌, if◌then◌else◌, Option, none, some, List, [], ◌∷◌, ◌++◌,
  take, codes, str_eq,
}
use cse344system_programming.DirectoryCopy.Buffer.{FileInformation, path_max}

-- What stat and the calls behind it find of an entry: the descriptors of a file, where its two calls of
-- open give them; whether a directory is opened, and its copy made or there already; whether mkfifo
-- succeeds.
mutual
  pub data Node : Type 0 where
    no_stat other : Node
    regular : (src dst : Option ℕ) → Node
    directory : (opens makes : Bool) → Entries → Node
    fifo : (makes : Bool) → Node

  pub data Entries : Type 0 where
    end : Entries
    entry : (d_name : List ℕ) → Node → Entries → Entries

pub record Traversal : Type 0 where
  pub files : List FileInformation
  pub num_directories : ℕ
  pub num_fifo_files : ℕ

abbrev pub nothing_found : Traversal
nothing_found = record { files = []; num_directories = 0; num_fifo_files = 0 }

-- snprintf into `path_max` bytes, the last for the terminator.
unfoldable pub path_in : (dir name : List ℕ) → List ℕ
path_in dir name = take (path_max - 1) (dir ++ (codes "/" ++ name))

unfoldable pub is_dots : List ℕ → Bool
is_dots name = str_eq name (codes ".") || str_eq name (codes "..")

-- A file that both calls of open have opened is handed on.
unfoldable pub opened_files :
    (src_path dst_path : List ℕ) → (src dst : Option ℕ) → List FileInformation
opened_files src_path dst_path none dst = []
opened_files src_path dst_path (some src) none = []
opened_files src_path dst_path (some src) (some dst) =
    record { src_fd = src; dst_fd = dst; src_name = src_path; dst_name = dst_path } ∷ []

-- One part of the traversal behind another; the program may have ended in either.
abbrev pub joined : Option Traversal → Option Traversal → Option Traversal
joined (some a) (some b) = some (record {
  files = a.files ++ b.files;
  num_directories = a.num_directories + b.num_directories;
  num_fifo_files = a.num_fifo_files + b.num_fifo_files;
})
joined (some a) none = none
joined none b = none

-- A directory that is met in another counts.
abbrev pub counted : Option Traversal → Option Traversal
counted none = none
counted (some t) = some (record t { num_directories = t.num_directories + 1 })

unfoldable mutual
  unfolding path_in is_dots opened_files

  -- The loop over the entries of a directory.
  pub traverse_entries : (src_dir dst_dir : List ℕ) → Entries → Option Traversal
  traverse_entries src_dir dst_dir end = some nothing_found
  traverse_entries src_dir dst_dir (entry d_name node rest) =
      let here = traverse_node (path_in src_dir d_name) (path_in dst_dir d_name) node in
      let behind = traverse_entries src_dir dst_dir rest in
      if is_dots d_name then behind else joined here behind

  pub traverse_node : (src_path dst_path : List ℕ) → Node → Option Traversal
  traverse_node src_path dst_path no_stat = some nothing_found
  traverse_node src_path dst_path other = some nothing_found
  traverse_node src_path dst_path (regular src dst) =
      some (record nothing_found { files = opened_files src_path dst_path src dst })
  traverse_node src_path dst_path (directory false makes entries) = none
  traverse_node src_path dst_path (directory true false entries) = none
  traverse_node src_path dst_path (directory true true entries) =
      counted (traverse_entries src_path dst_path entries)
  traverse_node src_path dst_path (fifo makes) = some (record nothing_found { num_fifo_files = 1 })

-- The call in `manager_function`, for the entries of the source directory.
unfoldable pub traverse_directory :
    (opens makes : Bool) (src_dir dst_dir : List ℕ) → Entries → Option Traversal
traverse_directory false makes src_dir dst_dir entries = none
traverse_directory true false src_dir dst_dir entries = none
traverse_directory true true src_dir dst_dir entries = traverse_entries src_dir dst_dir entries
