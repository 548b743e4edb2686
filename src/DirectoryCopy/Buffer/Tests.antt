-- ===== src/DirectoryCopy/Buffer/Tests.antt =====
-- A buffer with room for two files.
use native.Mathlib.Omega.{arith}
use mathlib.Core.Path.{◌≡◌, refl}
use mathlib.Core.List.{[], ◌∷◌}
use Prim.Native.Nat.{ℕ}
use cse344system_programming.Prelude.{codes}
use cse344system_programming.DirectoryCopy.Buffer.{
  FileInformation, Buffer, buffer_add, buffer_get, unwritten,
}
use cse344system_programming.DirectoryCopy.Buffer.Fifo.{IsValid, contents, buffer_get_lem}

abbrev file : ℕ → FileInformation
file n = record { src_fd = n; dst_fd = n; src_name = codes "a"; dst_name = codes "b" }

-- One file waits, in the last cell.
abbrev one_waits : Buffer
one_waits = record { cells = unwritten ∷ file 3 ∷ []; size = 2; count = 1; head = 1; tail = 0 }

one_waits-IsValid : IsValid one_waits
one_waits-IsValid = record {
  room = omega arith;
  head_in = omega arith;
  tail_at = refl;
  allocated = refl;
}

gets-in_order : (buffer_get (buffer_add one_waits (file 5))).0 ≡ file 3
unfolding buffer_get buffer_add
gets-in_order = refl

buffer_get_lem_example :
    let (f, b') = buffer_get one_waits in
    IsValid b' × (contents one_waits ≡ f ∷ contents b') × (b'.size ≡ 2) × (b'.count ≡ 0)
buffer_get_lem_example = buffer_get_lem one_waits one_waits-IsValid (omega arith)
