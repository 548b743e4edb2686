-- ===== src/DirectoryCopy/Pool/Whole.antt =====
-- `traverse_directory` and the threads of Homework4 and Homework5 together.
use cse344system_programming.Prelude.{
  ℕ, ◌+◌, ◌<◌, ◌≡◌, ap, ap₂, sym, ◌∙◌, Bool, some, List, [], ◌∷◌, length, All, sum_map, sum_map_nil,
  sum_map_cons, subst,
}
use cse344system_programming.DirectoryCopy.Buffer.{FileInformation, Buffer, path_max}
use cse344system_programming.DirectoryCopy.Buffer.Fifo.{IsValid, kept}
use cse344system_programming.DirectoryCopy.Pool.{Pool, System, Run, Reach}
use cse344system_programming.DirectoryCopy.Pool.Tally.{has_gone}
use cse344system_programming.DirectoryCopy.Pool.Ledger.{AreFaithful, weigh_copies}
use cse344system_programming.DirectoryCopy.Pool.Finish.{Complete, all_copied}
use cse344system_programming.DirectoryCopy.Traversal.{Entries, Traversal, traverse_directory}
use cse344system_programming.DirectoryCopy.Traversal.Mirror.{
  Mirrored, AreMirrored, reach_of, traverse_directory-AreMirrored,
}

sum_map-kept :
    (src dst : List ℕ) (w : FileInformation → ℕ) (fs : List FileInformation)
    → All (Mirrored src dst) fs
    → sum_map (λ f. w (kept f)) fs ≡ sum_map w fs
sum_map-kept src dst w [] h = sum_map_nil (λ f. w (kept f)) ∙ sym (sum_map_nil w)
sum_map-kept src dst w (f ∷ fs) ((path, s, d, e), hs) =
    sum_map_cons (λ g. w (kept g)) f fs
    ∙ ap₂ (λ a b. a + b) (ap w e) (sum_map-kept src dst w fs hs)
    ∙ sym (sum_map_cons w f fs)

-- What the copying of a directory comes to, for the files that the traversal has found.
pub record IsMirror (src dst : List ℕ) (content : FileInformation → List ℕ) (t : Traversal)
    (p : Pool) : Type 0 where
  -- their names lie alike below the two directories
  pub names : All (Mirrored src dst) t.files
  -- the files copied are just these, by any weight
  pub files : (w : FileInformation → ℕ) → weigh_copies w p ≡ sum_map w t.files
  pub faithful : AreFaithful content p.copies
  pub count : p.num_files_copied ≡ length t.files
  pub total_bytes : p.total_bytes_copied ≡ sum_map (λ f. length (content f)) t.files

-- A directory is copied: where no path is too long and the traversal does not end the program, once all
-- workers have gone, in a state reached with a worker at least from a valid buffer that is empty, the files
-- that were found have been copied, each as often as it was found and with the bytes of its source, to the
-- same path below the destination, and the counts of files and bytes are theirs.
pub directory_copied :
    (r : Run) (buffer : Buffer) (src dst : List ℕ) (opens makes : Bool) (es : Entries)
    (t : Traversal) {s : System}
    → IsValid buffer
    → 0 < r.num_workers
    → buffer.count ≡ 0
    → length src + reach_of es < path_max
    → length dst + reach_of es < path_max
    → traverse_directory opens makes src dst es ≡ some t
    → r.files ≡ t.files
    → Reach r buffer s
    → ((i : ℕ) → i < r.num_workers → has_gone (s.workers i) ≡ 1)
    → IsMirror src dst r.content t s.pool
directory_copied r buffer src dst opens makes es t {s} v pos fresh h k found same run gone =
    let mirrored : All (Mirrored src dst) t.files =
      subst (AreMirrored src dst) found
        (traverse_directory-AreMirrored opens makes src dst es h k) in
    let c : Complete r s.pool = all_copied r buffer v pos fresh run gone in
    record {
      names = mirrored;
      files = λ w.
          c.each w ∙ ap (sum_map (λ f. w (kept f))) same ∙ sum_map-kept src dst w t.files mirrored;
      faithful = c.faithful;
      count = c.count ∙ ap length same;
      total_bytes =
          c.total_bytes
          ∙ ap (sum_map (λ f. length (r.content (kept f)))) same
          ∙ sum_map-kept src dst (λ f. length (r.content f)) t.files mirrored;
    }
