-- ===== src/FileServer/Exchange/Tests.antt =====
-- Runs of `cmd_copy` for a small file.
use mathlib.Core.Path.{◌≡◌, refl}
use cse344system_programming.Prelude.{
  ℕ, Bool, true, false, some, [], ◌∷◌, codes, length, take, arith,
}
use cse344system_programming.FileServer.Exchange.{
  CopyCalls, transferred, question, cmd_copy, digits,
}
use cse344system_programming.FileServer.Exchange.Branches.{cmd_copy_lem, cmd_copy-loses}

abbrev calls : (locked : Bool) → (room : ℕ) → CopyCalls
calls locked room = record {
  source = some (codes "abc");
  creates = true;
  asks_header = true;
  asks_body = true;
  answer = some true;
  reopens = true;
  locked = locked;
  room = room;
  reports_header = true;
  reports_body = true;
}

prints_number : digits 121 120 [] ≡ codes "120"
unfolding digits
prints_number = refl

cmd_copy_lem_example : cmd_copy (calls true 9) (codes "f") (some (codes "old")) ≡ record {
  dest = some (codes "abc");
  sent = question (codes "f") ∷ transferred (length (codes "abc")) ∷ [];
  success = true;
}
cmd_copy_lem_example =
    cmd_copy_lem (calls true 9) (codes "f") (codes "abc") (some (codes "old")) true
      (refl, refl, refl, refl, refl, omega arith, refl, refl) refl

cmd_copy-loses_example : cmd_copy (calls true 2) (codes "f") (some (codes "old")) ≡ record {
  dest = some (take 2 (codes "abc"));
  sent = question (codes "f") ∷ [];
  success = false;
}
cmd_copy-loses_example =
    cmd_copy-loses (calls true 2) (codes "f") (codes "abc") (codes "old") refl refl refl refl refl
      refl
