-- ===== src/FileServer/SafeDir.antt =====
-- The table of the locks of the served files: `struct safe_dir` of MidtermProject/sync.h, and
-- `get_sfile`, `add_sfile`, `init_sdir` of MidtermProject/sync.c. The calls of sem_init succeed. The
-- result of a look-up is an index, where the code returns the address of that cell.
pub mod Lookup
mod Tests
use cse344system_programming.Prelude.{
  ℕ, zero, suc, ◌+◌, ◌==◌, if◌then◌else◌, Bool, true, false, ◌&&◌, Option, none, some, List, [],
  ◌∷◌, ◌++◌, length, str_eq, codes, not,
}
use cse344system_programming.FileServer.SafeFile.{SafeFile, fresh_sfile, init_sfile}

abbrev pub num_of_dir_file : ℕ
num_of_dir_file = 128

-- `struct safe_dir`: the cells in use, whose number is `size`, and `capa`.
pub record SafeDir : Type 0 where
  pub files : List SafeFile
  pub capa : ℕ

-- The loop of `get_sfile` from index `i`.
unfoldable pub find_sfile : ℕ → List SafeFile → List ℕ → Option ℕ
find_sfile i [] file = none
find_sfile i (f ∷ fs) file = if str_eq f.fname file then some i else find_sfile (i + 1) fs file

-- `none` is NULL.
unfoldable pub get_sfile : SafeDir → List ℕ → Option ℕ
unfolding find_sfile
get_sfile sdir file = find_sfile 0 sdir.files file

-- `add_sfile` behind the call of `init_sfile` for the first free cell.
unfoldable pub keep_sfile : Option SafeFile → SafeDir → Option ℕ × SafeDir
keep_sfile none sdir = (none, sdir)
keep_sfile (some f) sdir = (some (length sdir.files), record sdir { files = sdir.files ++ f ∷ [] })

unfoldable pub add_sfile : SafeDir → List ℕ → Option ℕ × SafeDir
unfolding keep_sfile init_sfile
add_sfile sdir fname =
    if length sdir.files == sdir.capa
    then (none, sdir)
    else keep_sfile (init_sfile true true true true fname) sdir

-- `get_sfile`, and where that fails `add_sfile`, as every command that opens a file calls them.
unfoldable pub obtain_sfile : SafeDir → List ℕ → Option ℕ × SafeDir
obtain_sfile sdir file = elim (get_sfile sdir file) [
  | some i ↦ (some i, sdir)
  | none ↦ add_sfile sdir file
]

-- The loop of `init_sdir` over the entries of the directory; false is the return value -1.
unfoldable pub add_entries : List (List ℕ) → SafeDir → Bool × SafeDir
add_entries [] sdir = (true, sdir)
add_entries (name ∷ names) sdir =
    let (added, sdir') = add_sfile sdir name in
    let more = add_entries names sdir' in
    let skipped = add_entries names sdir in
    if not (str_eq name (codes ".")) && not (str_eq name (codes ".."))
    then (elim added [ none ↦ (false, sdir') | some i ↦ more ])
    else skipped

unfoldable pub init_sdir : List (List ℕ) → Bool × SafeDir
unfolding add_entries
init_sdir names = add_entries names (record { files = []; capa = num_of_dir_file })
