-- ===== src/FileServer/Registrar.antt =====
-- The main loop of the server: `main` and `createChildProcess` of MidtermProject/server.c, an event at
-- a time. fork gives the pid of the child, and succeeds; a client's FIFO can be opened and written.
pub mod Admission
mod Tests
use cse344system_programming.Prelude.{
  ℕ, zero, suc, ◌+◌, ◌-◌, ◌*◌, ◌==◌, ltb, leb, if◌then◌else◌, Bool, true, false, ◌&&◌, ◌||◌, Option,
  none, some, List, [], ◌∷◌, ◌++◌, not,
}
use cse344system_programming.FileServer.WaitQueue.{
  ClientInfo, Slot, item, Queue, new_queue, enqueue, dequeue,
}
use cse344system_programming.FileServer.ProcessArray.{ProcessArray, add_pid_list, remove_pid_list}

-- The variables of `main` that change, and the clients that were handed to children, newest first,
-- each with the number it is greeted by.
pub record Server : Type 0 where
  pub children : ProcessArray
  pub waiting : Queue
  pub client_id : ℕ
  pub served : List (ℕ × Slot)

-- `createChildProcess` in the parent: it drops the result of `add_pid_list`.
unfoldable pub create_child : (pid : ℕ) → Slot → Server → Server
create_child pid client s = record s {
  children = (add_pid_list s.children pid).1;
  client_id = s.client_id + 1;
  served = (s.client_id, client) ∷ s.served;
}

-- The number that is written to a client that asks to connect.
unfoldable pub client_turn : Server → ℕ
client_turn s =
    if ltb s.children.size s.children.capacity && (s.waiting.size == 0)
    then 0
    else s.children.capacity + s.waiting.size

-- A client's request: it is served at once, waits, or gives up. `pid` is what fork returns, `grow` and
-- `alloc` are the successes of malloc in `enqueue`, whose result is only printed.
unfoldable pub connect : (pid : ℕ) (grow alloc : Bool) → ClientInfo → Server → Server
connect pid grow alloc client s =
    if client_turn s == 0
    then create_child pid (item client) s
    else if client.wait
    then record s { waiting = (enqueue grow alloc s.waiting client).1 }
    else s

-- The loop over waitpid: the children that have ended.
unfoldable pub reap : List ℕ → Server → Server
reap [] s = s
reap (pid ∷ pids) s = reap pids (record s { children = (remove_pid_list s.children pid).1 })

-- The client taken from the queue, if one waits, goes to a new child.
unfoldable pub serve_next : (pid : ℕ) → Option Slot × Queue → Server → Server
serve_next pid (none, queue) s = s
serve_next pid (some client, queue) s = create_child pid client (record s { waiting = queue })

-- The branch for SIGCHILD.
unfoldable pub on_sigchild : (ended : List ℕ) (pid : ℕ) → Server → Server
on_sigchild ended pid s =
    let s' = reap ended s in
    if ltb 0 s'.waiting.size then serve_next pid (dequeue s'.waiting) s' else s'

-- The branch for SIGINT: the children that are sent SIGTERM, in order.
unfoldable pub terminated : (rounds i : ℕ) → List ℕ → List ℕ
terminated zero i pids = []
terminated (suc rounds) i [] = []
terminated (suc rounds) i (pid ∷ pids) = pid ∷ terminated rounds (i + 1) pids

unfoldable pub on_sigint : Server → List ℕ
unfolding terminated
on_sigint s = terminated s.children.size 0 s.children.pids

-- The variables as `main` sets them up, with the memory of `maxClient` cells.
unfoldable pub new_server : (max_client : ℕ) (memory : List ℕ) → Server
new_server max_client memory = record {
  children = record { size = 0; capacity = max_client; pids = memory };
  waiting = new_queue;
  client_id = 0;
  served = [];
}
