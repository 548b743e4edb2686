-- ===== src/PideShop/Kitchen.antt =====
-- The chefs and their shared kitchen: the loop of `chefRoutine` of FinalProject/PideShop.c from the
-- order that a chef has taken to its delivery mark, with a step for each critical section. A thread in
-- pthread_cond_wait sleeps until a signal or a broadcast wakes it, or until it wakes without one; a signal
-- that wakes more than one thread is one that wakes one, and others that wake without a signal.
pub mod Counts
pub mod Inventory
pub mod Progress
mod Tests
use cse344system_programming.Prelude.{
  ℕ, zero, suc, ◌+◌, ◌-◌, ◌<◌, ◌≡◌, ◌==◌, ltb, leb, if◌then◌else◌, Bool, true, false, Option, none,
  some, List, update,
}
use cse344system_programming.PideShop.Orders.{Order, Shop, pick_order, set_status}

abbrev pub max_oven_slots : ℕ
max_oven_slots = 2

abbrev pub max_oven_peels : ℕ
max_oven_peels = 3

abbrev pub max_oven_capacity : ℕ
max_oven_capacity = 6

-- `ovenSlots`, `ovenPeels` and `ovenCapacity`, with the table of orders.
pub record Kitchen : Type 0 where
  pub slots : ℕ
  pub peels : ℕ
  pub capacity : ℕ
  pub shop : Shop

abbrev pub new_kitchen : Shop → Kitchen
new_kitchen shop = record {
  slots = max_oven_slots;
  peels = max_oven_peels;
  capacity = 0;
  shop = shop;
}

-- Where a chef stands, with the index of the order: at the head of the loop, before the mutex of the slots,
-- of the peels and of the oven, asleep on the condition variable of one of these, baking, and on the way out.
pub data Pc : Type 0 where
  looking no_order : Pc
  preparing no_slot with_slot no_peel with_peel no_place baking baked slot_freed peel_freed : ℕ → Pc

-- The calls of pthread_cond_signal.
pub data Signal : Type 0 where
  silent order_available slot_available peel_available oven_available : Signal

abbrev pub write_status : ℕ → ℕ → Kitchen → Kitchen
write_status i status k = record k {
  shop = record k.shop { orders = set_status i status k.shop.orders };
}

unfoldable pub chef_step : Kitchen → Pc → Option (Kitchen × Pc × Signal)
chef_step k looking = elim (pick_order k.shop) [
  | none ↦ some (k, no_order, silent)
  | some (none, shop) ↦ some (record k { shop = shop }, looking, silent)
  | some (some i, shop) ↦ some (record k { shop = shop }, preparing i, silent)
]
chef_step k (preparing i) =
    if k.slots == 0
    then some (k, no_slot i, silent)
    else some (record k { slots = k.slots - 1 }, with_slot i, silent)
chef_step k (with_slot i) =
    if k.peels == 0
    then some (k, no_peel i, silent)
    else some (record k { peels = k.peels - 1 }, with_peel i, silent)
chef_step k (with_peel i) =
    if leb max_oven_capacity k.capacity
    then some (k, no_place i, silent)
    else some (write_status i 2 (record k { capacity = k.capacity + 1 }), baking i, silent)
chef_step k (baking i) = some (record k { capacity = k.capacity - 1 }, baked i, oven_available)
chef_step k (baked i) = some (record k { slots = k.slots + 1 }, slot_freed i, slot_available)
chef_step k (slot_freed i) = some (record k { peels = k.peels + 1 }, peel_freed i, peel_available)
chef_step k (peel_freed i) = some (write_status i 3 k, looking, order_available)
chef_step k asleep = none

-- A thread that wakes goes on with the test of its loop.
abbrev pub awake : Pc → Pc
awake no_order = looking
awake (no_slot i) = preparing i
awake (no_peel i) = with_slot i
awake (no_place i) = with_peel i
awake p = p

-- Whether a chef sleeps on the condition variable of a signal.
abbrev pub hears : Signal → Pc → Bool
hears order_available no_order = true
hears slot_available (no_slot i) = true
hears peel_available (no_peel i) = true
hears oven_available (no_place i) = true
hears _ _ = false

-- The chefs behind a signal: one that sleeps on the condition variable wakes, if any does. The deliverers
-- sleep on the one of the orders too, and one of them may be woken instead of a chef.
pub data Woken (n : ℕ) (pc : ℕ → Pc) : Signal → (ℕ → Pc) → Type 0 where
  nobody : Woken n pc silent pc
  deliverer : Woken n pc order_available pc
  one :
      {signal : Signal} (j : ℕ)
      → j < n
      → hears signal (pc j) ≡ true
      → Woken n pc signal (update pc j (awake (pc j)))
  unheard :
      {signal : Signal} → ((j : ℕ) → j < n → hears signal (pc j) ≡ false) → Woken n pc signal pc

pub record System : Type 0 where
  pub kitchen : Kitchen
  pub pc : ℕ → Pc

-- A step of one of `n` chefs; one that wakes without a signal; or the main thread and the deliverers change
-- the table of orders, and wake what chefs wait for an order by steps of these.
pub data Step (n : ℕ) (s : System) : System → Type 0 where
  chef :
      (i : ℕ) {k : Kitchen} {p : Pc} {signal : Signal} {pc : ℕ → Pc}
      → i < n
      → chef_step s.kitchen (s.pc i) ≡ some (k, p, signal)
      → Woken n (update s.pc i p) signal pc
      → Step n s (record { kitchen = k; pc = pc })
  wakes :
      (i : ℕ)
      → i < n
      → Step n s (record { kitchen = s.kitchen; pc = update s.pc i (awake (s.pc i)) })
  others :
      (shop : Shop) → Step n s (record { kitchen = record s.kitchen { shop = shop }; pc = s.pc })

pub data Reach (n : ℕ) : System → Type 0 where
  start : (shop : Shop) → Reach n (record { kitchen = new_kitchen shop; pc = λ _. looking })
  later : {s t : System} → Reach n s → Step n s t → Reach n t
