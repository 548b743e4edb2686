-- ===== src/Prelude/Copying.antt =====
-- The loop `while ((n = read(src, buff, size)) > 0) write(dest, buff, n)` that several programs share:
-- read returns a full buffer while the source lasts, and write takes what the destination has room
-- for.
use Prim.Native.Nat.{ℕ, zero, suc, ◌+◌, ◌-◌, ◌≤◌, ◌<◌}
use mathlib.Core.Path.{◌≡◌, refl, ap, ◌∙◌, subst}
use mathlib.Core.Logic.{inl, inr}
use mathlib.Core.Bool.{Bool, true, false}
use mathlib.Core.List.{List, [], ◌∷◌, ◌++◌, append_assoc, append-nil}
use native.Mathlib.Omega.{arith}
use cse344system_programming.Prelude.Tests.{ltb, if◌then◌else◌, Bool-cases, ltb→lt}
use cse344system_programming.Prelude.Lists.{
  length, take, drop, take-append-drop, length-drop, length-append,
}

-- `failed` is set by a write that is cut short, which ends the loop.
pub record Copied : Type 0 where
  pub failed : Bool
  pub dest : List ℕ
  pub bytes : ℕ

-- The loop with its fuel; each round takes up to `size` bytes of the source that is left.
unfoldable pub copy_loop : (size fuel : ℕ) → (src : List ℕ) (room : ℕ) → Copied → Copied
copy_loop size zero src room c = c
copy_loop size (suc fuel) [] room c = c
copy_loop size (suc fuel) (x ∷ src) room c =
    let buff = take size (x ∷ src) in
    let rest =
      copy_loop size fuel (drop size (x ∷ src)) (room - length buff)
        (record c { dest = c.dest ++ buff; bytes = c.bytes + length buff }) in
    if ltb room (length buff)
    then record c { failed = true; dest = c.dest ++ take room buff }
    else rest

take-nil {ℓ} : {A : Type ℓ} (n : ℕ) → take n (let e : List A = [] in e) ≡ []
take-nil zero = refl
take-nil (suc n) = refl

take-append_le {ℓ} :
    {A : Type ℓ} (b r : List A) (n : ℕ)
    → length b ≤ n
    → take n (b ++ r) ≡ b ++ take (n - length b) r
take-append_le [] r n h = ap (λ m. take m r) (omega arith)
take-append_le (x ∷ b) r zero h = absurd (omega arith)
take-append_le (x ∷ b) r (suc n) h =
    ap (λ l. x ∷ l) (take-append_le b r n (omega arith) ∙ ap (λ m. b ++ take m r) (omega arith))

take-append_lt {ℓ} : {A : Type ℓ} (b r : List A) (n : ℕ) → n < length b → take n (b ++ r) ≡ take n b
take-append_lt [] r n h = absurd (omega arith)
take-append_lt (x ∷ b) r zero h = refl
take-append_lt (x ∷ b) r (suc n) h = ap (λ l. x ∷ l) (take-append_lt b r n (omega arith))

-- What the loop has done from the state `c` with the bytes `src` left to read.
pub record Copies (src : List ℕ) (room : ℕ) (c c' : Copied) : Type 0 where
  pub failed : c'.failed ≡ ltb room (length src)
  pub dest : c'.dest ≡ c.dest ++ take room src
  pub bytes : length src ≤ room → c'.bytes ≡ c.bytes + length src

Copies-short :
    (b r : List ℕ) (room : ℕ) (c : Copied)
    → room < length b
    → Copies (b ++ r) room c (record c { failed = true; dest = c.dest ++ take room b })
Copies-short b r room c h = record {
  failed = ground (arith, length-append b r);
  dest = rw (take-append_lt b r room h);
  bytes = λ fits. absurd (omega (arith, length-append b r));
}

Copies-more :
    (b r : List ℕ) (room : ℕ) (c c' : Copied)
    → length b ≤ room
    → Copies r (room - length b) (record c { dest = c.dest ++ b; bytes = c.bytes + length b }) c'
    → Copies (b ++ r) room c c'
Copies-more b r room c c' h done = record {
  failed = ground (arith, done.failed, length-append b r);
  dest =
      done.dest ∙ rw (take-append_le b r room h) (append_assoc c.dest b (take (room - length b) r));
  bytes = λ fits. omega (arith, done.bytes (omega (arith, length-append b r)), length-append b r);
}

-- With a buffer and fuel for every byte, the loop copies what there is room for, fails just when
-- that is not all, and counts the bytes of a full copy.
pub copy_loop-Copies :
    (size fuel : ℕ) (src : List ℕ) (room : ℕ) (c : Copied)
    → 0 < size
    → length src ≤ fuel
    → c.failed ≡ false
    → Copies src room c (copy_loop size fuel src room c)
unfolding copy_loop
copy_loop-Copies size zero [] room c h k e = record {
  failed = ground arith;
  dest = rw (take-nil, append-nil);
  bytes = λ _. omega arith;
}
copy_loop-Copies size zero (x ∷ src) room c h k e = absurd (omega arith)
copy_loop-Copies size (suc fuel) [] room c h k e = record {
  failed = ground arith;
  dest = rw (take-nil, append-nil);
  bytes = λ _. omega arith;
}
copy_loop-Copies size (suc fuel) (x ∷ src) room c h k e =
    let b : List ℕ = take size (x ∷ src) in
    let r : List ℕ = drop size (x ∷ src) in
    let next : Copied = record c { dest = c.dest ++ b; bytes = c.bytes + length b } in
    let rest : Copied = copy_loop size fuel r (room - length b) next in
    let ih : Copies r (room - length b) next rest =
      copy_loop-Copies size fuel r (room - length b) next h
        (omega (arith, length-drop size (x ∷ src))) e in
    let whole : Copies (b ++ r) room c (copy_loop size (suc fuel) (x ∷ src) room c) =
      elim (Bool-cases (ltb room (length b))) [
        | inl short ↦ rw short (Copies-short b r room c (ltb→lt room (length b) short))
        | inr full ↦ rw full (Copies-more b r room c rest (ground arith) ih)
      ] in
    subst (λ l. Copies l room c (copy_loop size (suc fuel) (x ∷ src) room c))
      (take-append-drop size (x ∷ src)) whole
