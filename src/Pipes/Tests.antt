-- ===== src/Pipes/Tests.antt =====
-- Two numbers.
use native.Mathlib.Omega.{arith}
use mathlib.Core.Path.{◌≡◌, refl}
use mathlib.Core.Option.{some}
use mathlib.Core.List.{List, [], ◌∷◌, ◌++◌}
use Prim.Native.Nat.{ℕ}
use cse344system_programming.Prelude.{c_string, str_eq, strcmp}
use cse344system_programming.Pipes.{
  bytes_of_int, bytes_of_ints, child_process1, final_result, invalid_command, child_process2,
  parent_fifo1, parent_fifo2, sigchld_handler,
}
use cse344system_programming.Pipes.Result.{children-result, children-early_sum}

-- The sum before the command makes it another.
sum_first : child_process2 2 (bytes_of_int 7 ++ parent_fifo2 (3 ∷ 4 ∷ [])) ≡ some invalid_command
unfolding child_process2 bytes_of_int parent_fifo2 c_string str_eq strcmp
sum_first = refl

both_reaped : sigchld_handler 0 (101 ∷ 102 ∷ []) ≡ 2
unfolding sigchld_handler
both_reaped = refl

children-result_example :
    (out : List ℕ) × (child_process1 2 (parent_fifo1 (3 ∷ 4 ∷ [])) ≡ some out)
    × (child_process2 2 (parent_fifo2 (3 ∷ 4 ∷ []) ++ out) ≡ some (final_result 19))
children-result_example = children-result (3 ∷ 4 ∷ []) (omega arith, (omega arith, tt))

children-early_sum_example :
    (child_process1 2 (parent_fifo1 (3 ∷ 4 ∷ [])) ≡ some (bytes_of_int 7))
    × (child_process2 2 (parent_fifo2 (3 ∷ []) ++ (bytes_of_int 7 ++ bytes_of_ints (4 ∷ [])))
        ≡ some (final_result 25))
children-early_sum_example = children-early_sum (3 ∷ []) [] 4 (omega arith, tt) tt (omega arith)
