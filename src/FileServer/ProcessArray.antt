-- ===== src/FileServer/ProcessArray.antt =====
-- The server's list of child processes: `struct processArray` of MidtermProject/common.h, and
-- `add_pid_list`, `remove_pid_list`, `find_pid_list` of MidtermProject/common.c.
pub mod Live
mod Tests
use cse344system_programming.Prelude.{
  ℕ, zero, suc, ◌+◌, ◌-◌, ◌*◌, ◌==◌, if◌then◌else◌, Bool, true, false, Option, none, some, List, [],
  ◌∷◌, set, get_or,
}

-- `struct processArray`; `pids` is the memory of `capacity` cells.
pub record ProcessArray : Type 0 where
  pub size : ℕ
  pub capacity : ℕ
  pub pids : List ℕ

-- False is the return value -1.
unfoldable pub add_pid_list : ProcessArray → ℕ → Bool × ProcessArray
add_pid_list plist pid =
    if plist.size == plist.capacity
    then (false, plist)
    else (true, record plist { pids = set plist.pids plist.size pid; size = plist.size + 1 })

-- The loop of `find_pid_list` at index `i`, with the rounds left.
unfoldable pub find_from : ℕ → ℕ → List ℕ → ℕ → Option ℕ
find_from zero i pids pid = none
find_from (suc rounds) i pids pid =
    if get_or pids i 0 == pid then some i else find_from rounds (i + 1) pids pid

-- `none` is the return value -1.
unfoldable pub find_pid_list : ProcessArray → ℕ → Option ℕ
unfolding find_from
find_pid_list plist pid = find_from plist.size 0 plist.pids pid

-- The loop of `remove_pid_list` at index `i`, with the rounds left: each cell takes the next one's
-- value.
unfoldable pub shift_from : ℕ → ℕ → List ℕ → List ℕ
shift_from zero i pids = pids
shift_from (suc rounds) i pids = shift_from rounds (i + 1) (set pids i (get_or pids (i + 1) 0))

-- `remove_pid_list` behind its search.
unfoldable pub remove_target : ProcessArray → Option ℕ → Bool × ProcessArray
unfolding shift_from
remove_target plist none = (false, plist)
remove_target plist (some target) = (
  true,
  record plist {
    size = plist.size - 1;
    pids = shift_from (plist.size - 1 - target) target plist.pids;
  },
)

unfoldable pub remove_pid_list : ProcessArray → ℕ → Bool × ProcessArray
unfolding remove_target find_pid_list
remove_pid_list plist pid = remove_target plist (find_pid_list plist pid)
