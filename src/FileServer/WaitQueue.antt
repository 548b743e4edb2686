-- ===== src/FileServer/WaitQueue.antt =====
-- The queue of waiting clients: `struct client_info`, `struct queue` of MidtermProject/common.h, and
-- `enqueue`, `dequeue`, `resize_queue`, `destroy_queue` of MidtermProject/common.c.
-- A call of malloc is an argument that says whether it succeeds.
pub mod Ring
pub mod Growth
mod Tests
use cse344system_programming.Prelude.{
  ℕ, zero, suc, ◌+◌, ◌-◌, ◌*◌, ◌==◌, if◌then◌else◌, Bool, true, false, Option, none, some, List, [],
  ◌∷◌, set, get_or, next_index, replicate,
}

-- `struct client_info`; `wait` is the flag of a client that connects with the wait option.
pub record ClientInfo : Type 0 where
  pub pid : ℕ
  pub wait : Bool
  pub cwd : List ℕ

-- A cell of `elements`: what malloc left there, NULL, or a pointer to a copied client.
pub data Slot : Type 0 where
  garbage null : Slot
  item : ClientInfo → Slot

-- `struct queue`.
pub record Queue : Type 0 where
  pub front : ℕ
  pub rear : ℕ
  pub capacity : ℕ
  pub size : ℕ
  pub elements : List Slot

-- The empty queue that `main` of the server sets up.
abbrev pub new_queue : Queue
new_queue = record { front = 0; rear = 0; capacity = 0; size = 0; elements = [] }

-- The cell at an index; a read past the allocated cells gives garbage.
abbrev pub cell : List Slot → ℕ → Slot
cell elements i = get_or elements i garbage

-- The loop of `resize_queue`. It takes at most `capacity` rounds, which is its fuel
-- (`Growth.copy_live_ends`). The result is the new cells, the last `front` and the last `i`.
unfoldable pub copy_live : ℕ → Queue → ℕ → ℕ → List Slot → List Slot × ℕ × ℕ
copy_live zero que front i new_elements = (new_elements, front, i)
copy_live (suc fuel) que front i new_elements =
    let rest =
      copy_live fuel que (next_index que.capacity front) (i + 1)
        (set new_elements i (cell que.elements front)) in
    if front == que.rear then (new_elements, front, i) else rest

abbrev pub grown_capacity : ℕ → ℕ
grown_capacity cap = if cap == 0 then 1 else 2 * cap

-- False is the return value -1.
unfoldable pub resize_queue : Bool → Queue → Bool × Queue
resize_queue false que = (false, que)
resize_queue true que =
    let (new_elements, front, i) =
      copy_live que.capacity que que.front 0 (replicate (grown_capacity que.capacity) garbage) in
    (
      true,
      record {
        front = 0;
        rear = i;
        capacity = grown_capacity que.capacity;
        size = que.size;
        elements = new_elements;
      },
    )

-- The part of `enqueue` behind the test for room; the flag is malloc's success for the copy.
unfoldable pub place : Bool → Queue → ClientInfo → Bool × Queue
place false que new_item = (false, record que { elements = set que.elements que.rear null })
place true que new_item = (
  true,
  record que {
    elements = set que.elements que.rear (item new_item);
    rear = next_index que.capacity que.rear;
    size = que.size + 1;
  },
)

-- `grow` and `alloc` are the successes of the two calls of malloc.
unfoldable pub enqueue : (grow alloc : Bool) → Queue → ClientInfo → Bool × Queue
enqueue grow alloc que new_item =
    if que.size == que.capacity
    then (let (grown, que') = resize_queue grow que in
        if grown then place alloc que' new_item else (false, que'))
    else place alloc que new_item

-- `none` is the NULL that an empty queue returns.
unfoldable pub dequeue : Queue → Option Slot × Queue
dequeue que = if que.size == 0 then (none, que) else (
  some (cell que.elements que.front),
  record que {
    elements = set que.elements que.front null;
    front = next_index que.capacity que.front;
    size = que.size - 1;
  },
)

-- The loop of `destroy_queue` from round `i`, with the rounds left: the indices whose cells are
-- handed to free, in order.
unfoldable pub freed_cells : ℕ → ℕ → ℕ → List ℕ
freed_cells zero cap front = []
freed_cells (suc rounds) cap front =
    next_index cap front ∷ freed_cells rounds cap (next_index cap front)

-- The freed cells, and the queue that is left. The rounds are those of `i = front; i < size`.
unfoldable pub destroy_queue : Queue → List ℕ × Queue
unfolding freed_cells
destroy_queue que = if que.size == 0 then ([], que) else (
  freed_cells (que.size - que.front) que.capacity que.front,
  record que { front = 0; rear = 0; capacity = 0; size = 0 },
)
