-- ===== src/FileServer/Registrar/Tests.antt =====
-- Runs of the main loop of the server.
use native.Mathlib.Omega.{arith}
use mathlib.Core.Path.{◌≡◌, refl}
use mathlib.Core.Bool.{true}
use mathlib.Core.List.{[], ◌∷◌}
use Prim.Native.Nat.{ℕ}
use cse344system_programming.Prelude.{codes}
use cse344system_programming.FileServer.WaitQueue.{ClientInfo, null, item}
use cse344system_programming.FileServer.WaitQueue.Ring
use cse344system_programming.FileServer.ProcessArray.Live.{IsValid}
use cse344system_programming.FileServer.Registrar.{
  Server, reap, on_sigchild, on_sigint, new_server, terminated,
}
use cse344system_programming.FileServer.Registrar.Admission.{ServesOldest, on_sigchild-oldest}

abbrev caller : ℕ → ClientInfo
caller n = record { pid = n; wait = true; cwd = codes "/" }

abbrev idle : Server
idle = new_server 2 (0 ∷ 0 ∷ [])

-- Both children are busy and one client waits.
abbrev busy : Server
busy = record {
  children = record { size = 2; capacity = 2; pids = 21 ∷ 22 ∷ [] };
  waiting = record {
    front = 0;
    rear = 1;
    capacity = 2;
    size = 1;
    elements = item (caller 7) ∷ null ∷ [];
  };
  client_id = 3;
  served = [];
}

idle-IsValid : IsValid idle.children
unfolding new_server
idle-IsValid = record { room = omega arith; allocated = refl }

busy-IsValid : IsValid busy.children
busy-IsValid = record { room = omega arith; allocated = refl }

waiting-IsValid : Ring.IsValid busy.waiting
waiting-IsValid = record {
  room = omega arith;
  front_in = omega arith;
  rear_at = refl;
  allocated = refl;
}

terminates-both : on_sigint busy ≡ 21 ∷ 22 ∷ []
unfolding on_sigint terminated
terminates-both = refl

on_sigchild-oldest_example : ServesOldest (reap (22 ∷ []) busy) 31 (on_sigchild (22 ∷ []) 31 busy)
on_sigchild-oldest_example =
    on_sigchild-oldest busy (22 ∷ []) 31 busy-IsValid waiting-IsValid (omega arith)
