-- ===== src/FileServer/ProcessArray/Live.antt =====
-- The array behaves as the list of the children that are alive, in the order in which they started.
use native.Mathlib.Numerals.{add-one}
use mathlib.Core.Option
use cse344system_programming.Prelude.{
  ℕ, zero, suc, ◌+◌, ◌-◌, ◌≤◌, ◌<◌, ◌≡◌, ◌≢◌, refl, ap, ◌∙◌, sym, ◌==◌, if◌then◌else◌, Bool, true,
  false, Option, none, some, List, [], ◌∷◌, ◌++◌, set, get_or, take, length, length-set, arith,
  Bool-cases, inl, inr, subst, ℕ_discrete,
}
use cse344system_programming.FileServer.ProcessArray.{
  ProcessArray, add_pid_list, find_from, find_pid_list, shift_from, remove_target, remove_pid_list,
}

pub record IsValid (p : ProcessArray) : Type 0 where
  pub room : p.size ≤ p.capacity
  pub allocated : length p.pids ≡ p.capacity

-- The recorded children, oldest first.
abbrev pub live : ProcessArray → List ℕ
live p = take p.size p.pids

-- The list without the first occurrence of a pid.
pub erase_pid : ℕ → List ℕ → List ℕ
erase_pid pid [] = []
erase_pid pid (x ∷ xs) = if x == pid then xs else x ∷ erase_pid pid xs

pub mem_pid : ℕ → List ℕ → Bool
mem_pid pid [] = false
mem_pid pid (x ∷ xs) = if x == pid then true else mem_pid pid xs

take-set_end :
    (xs : List ℕ) (n v : ℕ) → n < length xs → take (suc n) (set xs n v) ≡ take n xs ++ v ∷ []
take-set_end [] n v h = absurd (omega arith)
take-set_end (x ∷ xs) zero v h = refl
take-set_end (x ∷ xs) (suc n) v h = ap (λ l. x ∷ l) (take-set_end xs n v (omega arith))

find_from-suc :
    (n i pid x : ℕ) (xs : List ℕ)
    → find_from n (suc i) (x ∷ xs) pid ≡ Option.map suc (find_from n i xs pid)
unfolding find_from
find_from-suc zero i pid x xs = refl
find_from-suc (suc n) i pid x xs = elim (Bool-cases (get_or xs i 0 == pid)) [
  | inl e ↦ rw e
  | inr e ↦ rw e (simp add-one (find_from-suc n (suc i) pid x xs))
]

shift_from-suc : (n i x : ℕ) (xs : List ℕ) → shift_from n (suc i) (x ∷ xs) ≡ x ∷ shift_from n i xs
unfolding shift_from
shift_from-suc zero i x xs = refl
shift_from-suc (suc n) i x xs =
    simp add-one (shift_from-suc n (suc i) x (set xs i (get_or xs (suc i) 0)))

take-shift_from :
    (n x : ℕ) (xs : List ℕ) → n ≤ length xs → take n (shift_from n 0 (x ∷ xs)) ≡ take n xs
unfolding shift_from
take-shift_from zero x xs h = refl
take-shift_from (suc n) x [] h = absurd (omega arith)
take-shift_from (suc n) x (y ∷ xs) h =
    rw (shift_from-suc n 0 y (y ∷ xs)) (ap (λ l. y ∷ l) (take-shift_from n y xs (omega arith)))

-- What it means that the search of `n` cells returned `t`.
abbrev Found : ℕ → List ℕ → ℕ → Option ℕ → Type 0
Found n xs pid none = (mem_pid pid (take n xs) ≡ false) × (erase_pid pid (take n xs) ≡ take n xs)
Found n xs pid (some t) =
    (t < n)
    × (mem_pid pid (take n xs) ≡ true)
    × (take (n - 1) (shift_from (n - 1 - t) t xs) ≡ erase_pid pid (take n xs))

Found-suc :
    (n x : ℕ) (xs : List ℕ) (pid : ℕ) (r : Option ℕ)
    → (x == pid) ≡ false
    → Found n xs pid r
    → Found (suc n) (x ∷ xs) pid (Option.map suc r)
unfolding mem_pid erase_pid
Found-suc n x xs pid none e (m, er) = rw e (m, ap (λ l. x ∷ l) er)
Found-suc zero x xs pid (some t) e (lt, m, er) = absurd (omega arith)
Found-suc (suc n) x xs pid (some t) e (lt, m, er) = rw e (omega arith, m, shifted)
  where
    shifted :
        take (suc (suc n) - 1) (shift_from (suc (suc n) - 1 - suc t) (suc t) (x ∷ xs))
        ≡ x ∷ erase_pid pid (take (suc n) xs)
    shifted =
        let a : suc n - 1 ≡ n = omega arith in
        let b : suc (suc n) - 1 ≡ suc n = omega arith in
        let c : suc n - suc t ≡ n - t = omega arith in
        rw (b, c, shift_from-suc) (ap (λ l. x ∷ l) (rw a at er))

Found-zero :
    (n x : ℕ) (xs : List ℕ) (pid : ℕ)
    → n ≤ length xs
    → (x == pid) ≡ true
    → Found (suc n) (x ∷ xs) pid (some 0)
unfolding mem_pid erase_pid
Found-zero n x xs pid h e = (omega arith, rw e, rw e shifted)
  where
    shifted : take (suc n - 1) (shift_from (suc n - 1 - 0) 0 (x ∷ xs)) ≡ take n xs
    shifted =
        let a : suc n - 1 ≡ n = omega arith in
        let b : n - 0 ≡ n = omega arith in rw (a, b) (take-shift_from n x xs h)

find_from-Found :
    (n : ℕ) (xs : List ℕ) (pid : ℕ) → n ≤ length xs → Found n xs pid (find_from n 0 xs pid)
unfolding find_from mem_pid erase_pid
find_from-Found zero xs pid h = (refl, refl)
find_from-Found (suc n) [] pid h = absurd (omega arith)
find_from-Found (suc n) (x ∷ xs) pid h = elim (Bool-cases (x == pid)) [
  | inl e ↦ rw e (Found-zero n x xs pid (omega arith) e)
  | inr e ↦
      rw (e, find_from-suc n 0 pid x xs)
        (Found-suc n x xs pid (find_from n 0 xs pid) e (find_from-Found n xs pid (omega arith)))
]

length-shift_from : (n i : ℕ) (xs : List ℕ) → length (shift_from n i xs) ≡ length xs
unfolding shift_from
length-shift_from zero i xs = refl
length-shift_from (suc n) i xs =
    length-shift_from n (i + 1) (set xs i (get_or xs (i + 1) 0))
    ∙ length-set xs i (get_or xs (i + 1) 0)

-- What `remove_pid_list` may return for the array `p` and the pid.
abbrev pub Erased : ProcessArray → ℕ → Bool × ProcessArray → Type 0
Erased p pid (ok, p') =
    (ok ≡ mem_pid pid (live p))
    × IsValid p'
    × (p'.capacity ≡ p.capacity)
    × (live p' ≡ erase_pid pid (live p))

remove_target-Erased :
    (p : ProcessArray) (pid : ℕ) (r : Option ℕ)
    → IsValid p
    → Found p.size p.pids pid r
    → Erased p pid (remove_target p r)
unfolding remove_target
remove_target-Erased p pid none v (m, e) = (sym m, v, refl, sym e)
remove_target-Erased p pid (some t) v (lt, m, e) = (
  sym m,
  omega (arith, v.room, length-shift_from (p.size - 1 - t) t p.pids, v.allocated),
  refl,
  e,
)

-- `remove_pid_list` succeeds just for a recorded pid, and takes its oldest record out of the list,
-- leaving the other children in their order; the array stays valid and its capacity the same.
pub remove_pid_list-Erased :
    (p : ProcessArray) (pid : ℕ) → IsValid p → Erased p pid (remove_pid_list p pid)
unfolding remove_pid_list find_pid_list
remove_pid_list-Erased p pid v =
    remove_target-Erased p pid (find_pid_list p pid) v
      (find_from-Found p.size p.pids pid (omega (arith, v.room, v.allocated)))

-- What `add_pid_list` may return.
abbrev pub Added : ProcessArray → ℕ → Bool × ProcessArray → Type 0
Added p pid (true, p') =
    (p.size < p.capacity) × IsValid p' × (p'.capacity ≡ p.capacity) × (live p' ≡ live p ++ pid ∷ [])
Added p pid (false, p') = (p.size ≡ p.capacity) × (p' ≡ p)

add_pid_list_of_lt :
    (p : ProcessArray) (pid : ℕ)
    → p.size ≢ p.capacity
    → add_pid_list p pid ≡ (true, record p { pids = set p.pids p.size pid; size = p.size + 1 })
unfolding add_pid_list
add_pid_list_of_lt p pid h = ground arith

add_pid_list_of_full :
    (p : ProcessArray) (pid : ℕ) → p.size ≡ p.capacity → add_pid_list p pid ≡ (false, p)
unfolding add_pid_list
add_pid_list_of_full p pid h = ground arith

-- `add_pid_list` records the child behind the others while there is room, and otherwise fails and
-- changes nothing; the array stays valid and its capacity the same.
pub add_pid_list-Added : (p : ProcessArray) (pid : ℕ) → IsValid p → Added p pid (add_pid_list p pid)
add_pid_list-Added p pid v = elim (ℕ_discrete p.size p.capacity) [
  | yes e ↦ subst (Added p pid) (sym (add_pid_list_of_full p pid e)) (e, refl)
  | no e ↦ subst (Added p pid) (sym (add_pid_list_of_lt p pid e)) (
    omega (arith, v.room),
    omega (arith, v.room, v.allocated, length-set p.pids p.size pid),
    refl,
    rw add-one (take-set_end p.pids p.size pid (omega (arith, v.room, v.allocated))),
  )
]
