-- ===== src/FileServer/ProcessArray/Tests.antt =====
-- Runs of the list of child processes.
use native.Mathlib.Omega.{arith}
use mathlib.Core.Path.{◌≡◌, refl}
use mathlib.Core.List.{[], ◌∷◌}
use cse344system_programming.FileServer.ProcessArray.{
  ProcessArray, remove_pid_list, remove_target, find_pid_list, find_from, shift_from,
}
use cse344system_programming.FileServer.ProcessArray.Live.{
  IsValid, live, Erased, remove_pid_list-Erased,
}

abbrev three : ProcessArray
three = record { size = 3; capacity = 4; pids = 11 ∷ 12 ∷ 13 ∷ 0 ∷ [] }

three-IsValid : IsValid three
three-IsValid = record { room = omega arith; allocated = refl }

remove-middle : live (remove_pid_list three 12).1 ≡ 11 ∷ 13 ∷ []
unfolding remove_pid_list find_pid_list find_from remove_target shift_from
remove-middle = refl

remove_pid_list-Erased_example : Erased three 12 (remove_pid_list three 12)
remove_pid_list-Erased_example = remove_pid_list-Erased three 12 three-IsValid
