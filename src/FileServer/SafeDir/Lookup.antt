-- ===== src/FileServer/SafeDir/Lookup.antt =====
-- Every name has one lock: the commands that open a file of one name come to one cell.
use cse344system_programming.Prelude.{
  ℕ, ◌+◌, ◌≡◌, refl, ap, sym, ◌∙◌, subst, ◌==◌, true, Option, none, some, List, [], ◌∷◌, ◌++◌,
  length, str_eq, str_eq_iff, arith, Bool-cases, inl, inr, Option-cases,
}
use cse344system_programming.FileServer.SafeFile.{SafeFile, fresh_sfile}
use cse344system_programming.FileServer.SafeDir.{
  SafeDir, find_sfile, get_sfile, add_sfile, obtain_sfile,
}

find_sfile-append :
    (i : ℕ) (fs : List SafeFile) (name : List ℕ)
    → find_sfile i fs name ≡ none
    → find_sfile i (fs ++ fresh_sfile name ∷ []) name ≡ some (i + length fs)
unfolding find_sfile
find_sfile-append i [] name h =
    let same : str_eq name name ≡ true = (str_eq_iff name name).1 refl in
    rw same (ap some (omega arith))
find_sfile-append i (f ∷ fs) name h = elim (Bool-cases (str_eq f.fname name)) [
  | inl e ↦ absurd (ground (arith, h, e))
  | inr e ↦ rw e (find_sfile-append (i + 1) fs name (rw e at h) ∙ ap some (omega arith))
]

-- What a command that obtains a lock comes to: the cell of that name, which every later look-up of the
-- name finds as well, with all cells that were there kept.
abbrev pub Obtained : SafeDir → List ℕ → Option ℕ × SafeDir → Type 0
Obtained sdir file (none, sdir') = (length sdir.files ≡ sdir.capa) × (sdir' ≡ sdir)
Obtained sdir file (some i, sdir') =
    (get_sfile sdir' file ≡ some i) × (obtain_sfile sdir' file ≡ (some i, sdir'))

obtain_again :
    (sdir : SafeDir) (file : List ℕ) (i : ℕ)
    → get_sfile sdir file ≡ some i
    → obtain_sfile sdir file ≡ (some i, sdir)
unfolding obtain_sfile
obtain_again sdir file i e = ground arith

obtain_new :
    (sdir : SafeDir) (file : List ℕ)
    → get_sfile sdir file ≡ none
    → obtain_sfile sdir file ≡ add_sfile sdir file
unfolding obtain_sfile
obtain_new sdir file e = ground arith

add_sfile-Obtained :
    (sdir : SafeDir) (file : List ℕ)
    → get_sfile sdir file ≡ none
    → Obtained sdir file (add_sfile sdir file)
unfolding add_sfile get_sfile
add_sfile-Obtained sdir file h = elim (Bool-cases (length sdir.files == sdir.capa)) [
  | inl full ↦ rw full (ground arith, refl)
  | inr room ↦
      let e : get_sfile (record sdir { files = sdir.files ++ fresh_sfile file ∷ [] }) file
          ≡ some (length sdir.files) =
        find_sfile-append 0 sdir.files file h ∙ ap some (omega arith) in
      rw room (
        e,
        obtain_again (record sdir { files = sdir.files ++ fresh_sfile file ∷ [] }) file
            (length sdir.files) e,
      )
]

-- A command obtains the lock of the name that it opens, and every later command that opens the name
-- obtains the same; only a full table without the name refuses, and stays as it is.
obtain_sfile-Obtained :
    (sdir : SafeDir) (file : List ℕ) → Obtained sdir file (obtain_sfile sdir file)
obtain_sfile-Obtained sdir file = elim (Option-cases (get_sfile sdir file)) [
  | inl e ↦
      subst (Obtained sdir file) (sym (obtain_new sdir file e)) (add_sfile-Obtained sdir file e)
  | inr (i, e) ↦
      subst (Obtained sdir file) (sym (obtain_again sdir file i e)) (e, obtain_again sdir file i e)
]
