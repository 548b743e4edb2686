-- ===== src/FileServer/SafeFile/Safety.antt =====
-- What the lock of a file guarantees to the commands of the server.
use mathlib.Core.Path.{fun_ext}
use cse344system_programming.Prelude.{
  ◌∙◌, ap, some, ℕ, ◌+◌, ◌<◌, ◌≡◌, refl, Bool, true, false, none, List, total, weight-le-total,
  weights-le-total, total-eq-zero, arith, ℕ_discrete,
}
use cse344system_programming.FileServer.SafeFile.{
  SafeFile, pick, start, later, fresh_sfile, Pc, outside, step, System, Reach, reading, writing,
}
use cse344system_programming.FileServer.SafeFile.Counts.{
  reader_new, reader_in, reader_out, rmutex_else, trying, writer_new, writer_in, writer_out,
  wmutex_else, writes,
}
use cse344system_programming.FileServer.SafeFile.Invariant.{Reach-Inv}

-- Between the return of an enter function and the call of its exit function.
abbrev pub inside : Pc → Bool
inside reading = true
inside writing = true
inside _ = false

inside-weight : (p : Pc) → inside p ≡ true → reader_in p + writes p ≡ 1
inside-weight outside h = ground arith
inside-weight p h = ground arith

step-fname :
    (w : Bool) (f f' : SafeFile) (p p' : Pc) → step w f p ≡ some (f', p') → f'.fname ≡ f.fname
unfolding step
step-fname false f f' outside p' e = ground arith
step-fname w f f' p p' e = ground arith

Reach-fname : {n : ℕ} {name : List ℕ} {s : System} → Reach n name s → s.file.fname ≡ name
Reach-fname start = refl
Reach-fname (later {s = s} r (pick i w {f = f} {p = p} lt e)) =
    step-fname w s.file f (s.pc i) p e ∙ Reach-fname r

module _ {n : ℕ} {name : List ℕ} {s : System} (r : Reach n name s) where
  -- In a reachable state, while a thread writes, no other thread reads or writes.
  pub mutual_exclusion :
      (i j : ℕ) → i < n → j < n → s.pc i ≡ writing → inside (s.pc j) ≡ true → i ≡ j
  mutual_exclusion i j hi hj w h = elim (ℕ_discrete i j) [
    | yes e ↦ e
    | no d ↦ absurd (
        ground (
          arith,
          (Reach-Inv r).readers,
          inside-weight (s.pc j),
          weights-le-total writes s.pc i j n d hi hj,
          weight-le-total reader_in s.pc j n hj,
        ))
  ]

  -- In a reachable state a writer keeps new readers out from its test of `writer_count` on: no reader can pass `read_try`,
  -- and none that has passed it is still on its way in.
  pub writers_first :
      (i : ℕ)
      → i < n
      → writer_in (s.pc i) ≡ 1
      → (step false s.file outside ≡ none) × ((j : ℕ) → j < n → trying (s.pc j) ≡ 0)
  unfolding step
  writers_first i hi w = (
    ground (arith, (Reach-Inv r).writers, weight-le-total writer_in s.pc i n hi),
    λ j hj. ground (
      arith,
      (Reach-Inv r).writers,
      weight-le-total writer_in s.pc i n hi,
      weight-le-total trying s.pc j n hj,
    ),
  )

  at_rest : (w : Pc → ℕ) → w outside ≡ 0 → ((i : ℕ) → s.pc i ≡ outside) → total w s.pc n ≡ 0
  at_rest w e h = rw (fun_ext h) (total-eq-zero w outside e n)

  restored_values : ((i : ℕ) → s.pc i ≡ outside) → record s.file { fname = name } ≡ fresh_sfile name
  restored_values h = ground (
    arith,
    (Reach-Inv r).readers,
    (Reach-Inv r).writers,
    at_rest reader_new refl h,
    at_rest reader_in refl h,
    at_rest reader_out refl h,
    at_rest rmutex_else refl h,
    at_rest writes refl h,
    at_rest writer_new refl h,
    at_rest writer_in refl h,
    at_rest writer_out refl h,
    at_rest wmutex_else refl h,
    at_rest trying refl h,
  )

  -- When all threads of a reachable state are outside, the lock is as it was at the start.
  pub restored : ((i : ℕ) → s.pc i ≡ outside) → s.file ≡ fresh_sfile name
  restored h = ap (λ x. record s.file { fname = x }) (Reach-fname r) ∙ restored_values h
