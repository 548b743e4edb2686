-- ===== src/Pipes.antt =====
-- Homework2/main.c: a parent that sends numbers to two children through two FIFOs, one for their sum and
-- one for their product. What stands in a FIFO is the bytes that are written, in that order, the lowest
-- byte of an int first; an int is its 32 bits. All calls succeed, and a read finds what is written before
-- it. The sleeping and the printing are left out.
pub mod Bytes
pub mod Result
mod Tests
use cse344system_programming.Prelude.{
  ℕ, zero, suc, ◌+◌, ◌*◌, ◌/◌, ◌%◌, ◌==◌, if◌then◌else◌, Bool, true, false, Option, none, some,
  List, [], ◌∷◌, ◌++◌, length, take, drop, codes, str_eq, c_string,
}

abbrev pub int_range : ℕ
int_range = 4294967296

-- What write sends for an int, and what read leaves in one; `none` if it gets fewer bytes, which leaves
-- the int or a part of it as it was.
unfoldable pub bytes_of_int : ℕ → List ℕ
bytes_of_int n = n % 256 ∷ n / 256 % 256 ∷ n / 65536 % 256 ∷ n / 16777216 % 256 ∷ []

unfoldable pub read_int : List ℕ → Option (ℕ × List ℕ)
read_int (a ∷ b ∷ c ∷ d ∷ rest) = some (a + b * 256 + c * 65536 + d * 16777216, rest)
read_int _ = none

-- An array of ints.
unfoldable pub bytes_of_ints : List ℕ → List ℕ
bytes_of_ints [] = []
bytes_of_ints (n ∷ ns) = bytes_of_int n ++ bytes_of_ints ns

unfoldable pub read_ints : (array_size : ℕ) → List ℕ → Option (List ℕ)
read_ints zero cs = some []
read_ints (suc k) cs = elim (read_int cs) [
  | none ↦ none
  | some (n, rest) ↦ elim (read_ints k rest) [ none ↦ none | some ns ↦ some (n ∷ ns) ]
]

-- The loop of `childProcess1`.
unfoldable pub sum_from : ℕ → List ℕ → ℕ
sum_from sum [] = sum
sum_from sum (n ∷ ns) = sum_from ((sum + n) % int_range) ns

-- `childProcess1`: what it writes to FIFO2.
unfoldable pub child_process1 : (array_size : ℕ) (fifo1 : List ℕ) → Option (List ℕ)
child_process1 array_size fifo1 = elim (read_ints array_size fifo1) [
  | none ↦ none
  | some ns ↦ some (bytes_of_int (sum_from 0 ns))
]

-- What `childProcess2` prints: the error, or the final result.
pub data Outcome : Type 0 where
  invalid_command : Outcome
  final_result : ℕ → Outcome

-- The loop of `childProcess2`, with the read of the sum behind it.
unfoldable pub multiply_from : (array_size result : ℕ) → List ℕ → Option ℕ
multiply_from zero result cs = elim (read_int cs) [
  | none ↦ none
  | some (sum, rest) ↦ some ((result + sum) % int_range)
]
multiply_from (suc k) result cs = elim (read_int cs) [
  | none ↦ none
  | some (number, rest) ↦ multiply_from k (result * number % int_range) rest
]

abbrev pub command : List ℕ
command = codes "multiply"

-- The command is read as nine bytes, with the terminator.
unfoldable pub child_process2 : (array_size : ℕ) (fifo2 : List ℕ) → Option Outcome
child_process2 array_size fifo2 =
    if str_eq (c_string (take 9 fifo2)) command
    then (elim (multiply_from array_size 1 (drop 9 fifo2)) [
      | none ↦ none
      | some n ↦ some (final_result n)
    ])
    else some invalid_command

-- What `parentProcess` writes: the array to FIFO1, the command and each number to FIFO2.
unfoldable pub parent_fifo1 : (numbers : List ℕ) → List ℕ
parent_fifo1 numbers = bytes_of_ints numbers

unfoldable pub parent_fifo2 : (numbers : List ℕ) → List ℕ
parent_fifo2 numbers = command ++ (0 ∷ bytes_of_ints numbers)

-- `sigchld_handler`: the answers of waitpid up to the first that is not a pid.
unfoldable pub sigchld_handler : (counter : ℕ) (reaped : List ℕ) → ℕ
sigchld_handler counter [] = counter
sigchld_handler counter (pid ∷ pids) = sigchld_handler (counter + 1) pids
