-- ===== src/DirectoryCopy/Traversal/Mirror.antt =====
-- The copies lie as the sources do.
use cse344system_programming.Prelude.{
  take_all, ℕ, ◌+◌, ◌-◌, ◌<◌, ◌≡◌, refl, ap₂, subst, append-nil, ◌∙◌, Bool, true, false, Option,
  none, some, List, [], ◌++◌, append_assoc, codes, length, length-append, arith, All, All-append,
  Bool-cases, inl, inr,
}
use cse344system_programming.DirectoryCopy.Buffer.{FileInformation, path_max}
use cse344system_programming.DirectoryCopy.Buffer.Fifo.{kept}
use cse344system_programming.DirectoryCopy.Traversal.{
  Node, no_stat, other, regular, directory, fifo, Entries, end, entry, Traversal, path_in, is_dots,
  opened_files, joined, counted, traverse_entries, traverse_node, traverse_directory,
}

abbrev larger : ℕ → ℕ → ℕ
larger a b = a + (b - a)

-- The length of the longest path from a directory down, its first slash included.
unfoldable mutual
  pub reach_of : Entries → ℕ
  reach_of end = 0
  reach_of (entry d_name node rest) =
      larger (1 + length d_name + reach_of_node node) (reach_of rest)

  pub reach_of_node : Node → ℕ
  reach_of_node (directory opens makes entries) = reach_of entries
  reach_of_node no_stat = 0
  reach_of_node other = 0
  reach_of_node (regular src dst) = 0
  reach_of_node (fifo makes) = 0

-- The two names of a file come from one path below the two directories, and the buffer has room for them.
abbrev pub Mirrored : (src dst : List ℕ) → FileInformation → Type 0
Mirrored src dst f =
    (path : List ℕ) × (f.src_name ≡ src ++ path) × (f.dst_name ≡ dst ++ path) × (kept f ≡ f)

abbrev pub AreMirrored : (src dst : List ℕ) → Option Traversal → Type 0
AreMirrored src dst none = Unit {0}
AreMirrored src dst (some t) = All (Mirrored src dst) t.files

path_in_fits :
    (dir name : List ℕ)
    → length dir + 1 + length name < path_max
    → path_in dir name ≡ dir ++ (codes "/" ++ name)
unfolding path_in
path_in_fits dir name h =
    take_all (path_max - 1) (dir ++ (codes "/" ++ name))
      (omega (arith, length-append dir (codes "/" ++ name)))

joined-AreMirrored :
    (src dst : List ℕ) (a b : Option Traversal)
    → AreMirrored src dst a
    → AreMirrored src dst b
    → AreMirrored src dst (joined a b)
joined-AreMirrored src dst none b h k = tt
joined-AreMirrored src dst (some a) none h k = tt
joined-AreMirrored src dst (some a) (some b) h k = All-append (Mirrored src dst) a.files b.files h k

counted-AreMirrored :
    (src dst : List ℕ) (a : Option Traversal)
    → AreMirrored src dst a
    → AreMirrored src dst (counted a)
counted-AreMirrored src dst none h = tt
counted-AreMirrored src dst (some a) h = h

opened-Mirrored :
    (src dst path : List ℕ) (s d : Option ℕ)
    → length src + length path < path_max
    → length dst + length path < path_max
    → All (Mirrored src dst) (opened_files (src ++ path) (dst ++ path) s d)
unfolding opened_files
opened-Mirrored src dst path none d h k = tt
opened-Mirrored src dst path (some s) none h k = tt
opened-Mirrored src dst path (some s) (some d) h k = (
  (
    path,
    refl,
    refl,
    ap₂ (λ a b. record { src_fd = s; dst_fd = d; src_name = a; dst_name = b })
        (take_all path_max (src ++ path) (omega (arith, length-append src path)))
        (take_all path_max (dst ++ path) (omega (arith, length-append dst path))),
  ),
  tt,
)

path_below :
    (dir path name : List ℕ)
    → length dir + length path + 1 + length name < path_max
    → path_in (dir ++ path) name ≡ dir ++ (path ++ (codes "/" ++ name))
path_below dir path name h =
    path_in_fits (dir ++ path) name (omega (arith, length-append dir path))
    ∙ append_assoc dir path (codes "/" ++ name)

mutual
  unfolding traverse_entries reach_of

  entries-AreMirrored :
      (src dst path : List ℕ) (es : Entries)
      → length src + length path + reach_of es < path_max
      → length dst + length path + reach_of es < path_max
      → AreMirrored src dst (traverse_entries (src ++ path) (dst ++ path) es)
  entries-AreMirrored src dst path end h k = tt
  entries-AreMirrored src dst path (entry name node rest) h k = elim (Bool-cases (is_dots name)) [
    | inl e ↦ rw e (entries-AreMirrored src dst path rest (omega arith) (omega arith))
    | inr e ↦
        rw (e, path_below src path name (omega arith), path_below dst path name (omega arith))
          (joined-AreMirrored src dst
            (traverse_node (src ++ (path ++ (codes "/" ++ name)))
              (dst ++ (path ++ (codes "/" ++ name))) node)
            (traverse_entries (src ++ path) (dst ++ path) rest)
            (node-AreMirrored src dst (path ++ (codes "/" ++ name)) node
              (omega (arith, length-append path (codes "/" ++ name)))
              (omega (arith, length-append path (codes "/" ++ name))))
            (entries-AreMirrored src dst path rest (omega arith) (omega arith)))
  ]

  node-AreMirrored :
      (src dst path : List ℕ) (node : Node)
      → length src + length path + reach_of_node node < path_max
      → length dst + length path + reach_of_node node < path_max
      → AreMirrored src dst (traverse_node (src ++ path) (dst ++ path) node)
  node-AreMirrored src dst path no_stat h k = tt
  node-AreMirrored src dst path other h k = tt
  node-AreMirrored src dst path (regular s d) h k =
      opened-Mirrored src dst path s d (omega arith) (omega arith)
  node-AreMirrored src dst path (directory false makes es) h k = tt
  node-AreMirrored src dst path (directory true false es) h k = tt
  node-AreMirrored src dst path (directory true true es) h k =
      counted-AreMirrored src dst (traverse_entries (src ++ path) (dst ++ path) es)
        (entries-AreMirrored src dst path es h k)
  node-AreMirrored src dst path (fifo makes) h k = tt

-- Where no path is too long, and the traversal does not end the program, the two names of every file that
-- the manager hands on come from one path below the two directories, and `buffer_add` keeps them whole.
pub traverse_directory-AreMirrored :
    (opens makes : Bool) (src dst : List ℕ) (es : Entries)
    → length src + reach_of es < path_max
    → length dst + reach_of es < path_max
    → AreMirrored src dst (traverse_directory opens makes src dst es)
unfolding traverse_directory
traverse_directory-AreMirrored false makes src dst es h k = tt
traverse_directory-AreMirrored true false src dst es h k = tt
traverse_directory-AreMirrored true true src dst es h k =
    subst (λ l. AreMirrored src dst (traverse_entries l dst es)) (append-nil src)
      (subst (λ l. AreMirrored src dst (traverse_entries (src ++ []) l es)) (append-nil dst)
        (entries-AreMirrored src dst [] es (omega arith) (omega arith)))
