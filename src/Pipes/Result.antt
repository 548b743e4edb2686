-- ===== src/Pipes/Result.antt =====
-- What the two children of Homework2/main.c come to.
use native.Mathlib.Nat.{
  mul_assoc, one-mul, mod-add-mod, mul-add-mod_self_left, div-add-mod, add-mul,
}
use cse344system_programming.Prelude.{
  c_string, ℕ, ◌+◌, ◌*◌, ◌/◌, ◌%◌, ◌<◌, ◌≡◌, refl, sym, ap, ◌∙◌, some, List, [], ◌∷◌, ◌++◌, length,
  length-append, All, All-append, append_assoc, append-nil, arith, take, drop, str_eq, strcmp, true,
}
use cse344system_programming.Pipes.{
  int_range, bytes_of_int, bytes_of_ints, sum_from, child_process1, final_result, multiply_from,
  command, child_process2, parent_fifo1, parent_fifo2,
}
use cse344system_programming.Pipes.Bytes.{
  IsInt, read_int-bytes_of_int, read_ints-bytes_of_ints, bytes_of_ints-append,
}

-- The plain sum and product.
abbrev pub sum_of : List ℕ → ℕ
sum_of [] = 0
sum_of (n ∷ ns) = n + sum_of ns

abbrev pub product_of : List ℕ → ℕ
product_of [] = 1
product_of (n ∷ ns) = n * product_of ns

sum_from_lem : (ns : List ℕ) (s : ℕ) → s < int_range → sum_from s ns ≡ (s + sum_of ns) % int_range
unfolding sum_from
sum_from_lem [] s h = omega (arith, h)
sum_from_lem (n ∷ ns) s h = omega (arith, sum_from_lem ns ((s + n) % int_range) (omega arith))

-- A factor may be reduced first.
mod-mul : (a b m : ℕ) → a % m * b % m ≡ a * b % m
mod-mul a b m =
    sym (mul-add-mod_self_left m (a / m * b) (a % m * b))
    ∙ ap (λ k. k % m)
        (ap (λ k. k + a % m * b) (sym (mul_assoc m (a / m) b))
          ∙ sym (add-mul (m * (a / m)) (a % m) b)
          ∙ ap (λ k. k * b) (div-add-mod a m))

reduce : (a b s m : ℕ) → (a % m * b + s) % m ≡ (a * b + s) % m
reduce a b s m =
    sym (mod-add-mod (a % m * b) m s)
    ∙ ap (λ k. (k + s) % m) (mod-mul a b m)
    ∙ mod-add-mod (a * b) m s

multiply_from_lem :
    (ns : List ℕ) (r s : ℕ)
    → All IsInt ns
    → IsInt s
    → multiply_from (length ns) r (bytes_of_ints (ns ++ (s ∷ [])))
      ≡ some ((r * product_of ns + s) % int_range)
unfolding multiply_from bytes_of_ints
multiply_from_lem [] r s h k =
    rw (multiply_from, read_int-bytes_of_int s [] k)
      (ap (λ k. some ((k + s) % int_range)) (omega arith))
multiply_from_lem (n ∷ ns) r s h k =
    rw (multiply_from, read_int-bytes_of_int n (bytes_of_ints (ns ++ (s ∷ []))) h.0)
      (multiply_from_lem ns (r * n % int_range) s h.1 k
        ∙ ap some (
            reduce (r * n) (product_of ns) s int_range
            ∙ ap (λ k. (k + s) % int_range) (mul_assoc r n (product_of ns))))

command-read : (vs : List ℕ) → str_eq (c_string (take 9 (parent_fifo2 vs))) command ≡ true
unfolding str_eq strcmp c_string parent_fifo2
command-read vs = refl

behind_command : (vs : List ℕ) → drop 9 (parent_fifo2 vs) ≡ bytes_of_ints vs
unfolding parent_fifo2
behind_command vs = refl

-- The ints behind the command are the factors, and the one behind them is added.
child_process2-ints :
    (ns : List ℕ) (s : ℕ)
    → All IsInt ns
    → IsInt s
    → child_process2 (length ns) (parent_fifo2 (ns ++ (s ∷ [])))
      ≡ some (final_result ((product_of ns + s) % int_range))
unfolding child_process2
child_process2-ints ns s h k =
    rw
      (
        child_process2,
        command-read (ns ++ (s ∷ [])),
        behind_command (ns ++ (s ∷ [])),
        multiply_from_lem ns 1 s h k,
      )
      (ap (λ n. some (final_result ((n + s) % int_range))) (one-mul (product_of ns)))

child_process1_lem :
    (ns : List ℕ)
    → All IsInt ns
    → child_process1 (length ns) (parent_fifo1 ns) ≡ some (bytes_of_int (sum_of ns % int_range))
unfolding child_process1 parent_fifo1
child_process1_lem ns h =
    rw (child_process1, read_ints-bytes_of_ints ns h)
      (ap (λ n. some (bytes_of_int n)) (sum_from_lem ns 0 (omega arith) ∙ omega arith))

-- What is written behind the parent's ints.
fifo2-append : (ns ms : List ℕ) → parent_fifo2 ns ++ bytes_of_ints ms ≡ parent_fifo2 (ns ++ ms)
unfolding parent_fifo2
fifo2-append ns ms = ap (λ l. command ++ (0 ∷ l)) (sym (bytes_of_ints-append ns ms))

ints-one : (s : ℕ) → bytes_of_ints (s ∷ []) ≡ bytes_of_int s
unfolding bytes_of_ints
ints-one s = append-nil (bytes_of_int s)

ints-cons : (s : ℕ) (ns : List ℕ) → bytes_of_int s ++ bytes_of_ints ns ≡ bytes_of_ints (s ∷ ns)
unfolding bytes_of_ints
ints-cons s ns = refl

-- For an array of ints, the first child writes their sum; where that comes to FIFO2 behind all that the
-- parent writes there, the second child prints the product and the sum of the array, added, in 32 bits.
pub children-result :
    (ns : List ℕ)
    → All IsInt ns
    → (out : List ℕ) × (child_process1 (length ns) (parent_fifo1 ns) ≡ some out)
      × (child_process2 (length ns) (parent_fifo2 ns ++ out)
          ≡ some (final_result ((product_of ns + sum_of ns) % int_range)))
children-result ns h = (
  bytes_of_int (sum_of ns % int_range),
  child_process1_lem ns h,
  rw (sym (ints-one (sum_of ns % int_range)), fifo2-append ns (sum_of ns % int_range ∷ []))
      (child_process2-ints ns (sum_of ns % int_range) h (omega arith)
        ∙ ap (λ n. some (final_result n)) (omega arith)),
)

-- Where the sum comes to FIFO2 before a number that the parent writes there, the second child takes it for a
-- factor, and adds the last number.
pub children-early_sum :
    (before after : List ℕ) (last : ℕ)
    → All IsInt before
    → All IsInt after
    → IsInt last
    → let ns = before ++ (after ++ (last ∷ [])) in
      let sum = sum_of ns % int_range in
      (child_process1 (length ns) (parent_fifo1 ns) ≡ some (bytes_of_int sum))
      × (child_process2
            (length ns)
            (parent_fifo2 before ++ (bytes_of_int sum ++ bytes_of_ints (after ++ (last ∷ []))))
          ≡ some (final_result ((product_of (before ++ (sum ∷ after)) + last) % int_range)))
children-early_sum before after last h k l =
    let ns : List ℕ = before ++ (after ++ (last ∷ [])) in
    let sum : ℕ = sum_of ns % int_range in
    let factors : List ℕ = before ++ (sum ∷ after) in
    let same_length : length ns ≡ length factors = omega (
      arith,
      length-append before (after ++ (last ∷ [])),
      length-append after (last ∷ []),
      length-append before (sum ∷ after),
    ) in
    let split : before ++ (sum ∷ (after ++ (last ∷ []))) ≡ factors ++ (last ∷ []) =
      sym (append_assoc before (sum ∷ after) (last ∷ [])) in
    (
      child_process1_lem ns (
          All-append IsInt before (after ++ (last ∷ [])) h
            (All-append IsInt after (last ∷ []) k (l, tt))),
      rw
          (
            same_length,
            ints-cons sum (after ++ (last ∷ [])),
            fifo2-append before (sum ∷ (after ++ (last ∷ []))),
            split,
          )
          (child_process2-ints factors last
            (All-append IsInt before (sum ∷ after) h (omega arith, k)) l),
    )
