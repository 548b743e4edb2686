-- ===== src/PideShop/Orders.antt =====
-- The table of orders of FinalProject/PideShop.c: what the main thread, a chef and a deliverer do to it,
-- each while it holds `ordersMutex`.
pub mod Picking
pub mod Delivering
mod Tests
use cse344system_programming.Prelude.{
  ℕ, zero, suc, ◌+◌, ◌-◌, ◌==◌, ltb, leb, if◌then◌else◌, Bool, true, false, ◌&&◌, ◌||◌, Option,
  none, some, List, [], ◌∷◌, ◌++◌, length,
}

-- `Order`, its time stamp left out: nothing reads it.
pub record Order : Type 0 where
  pub id : ℕ
  pub x : ℕ
  pub y : ℕ
  pub status : ℕ
  pub is_placed : ℕ
  pub send : ℕ
  pub customer : ℕ
  pub client_id : ℕ

-- An order that memset has cleared.
abbrev pub cleared : Order
cleared = record {
  id = 0;
  x = 0;
  y = 0;
  status = 0;
  is_placed = 0;
  send = 0;
  customer = 0;
  client_id = 0;
}

abbrev pub bag_capacity : ℕ
bag_capacity = 3

-- `ordersArray`, whose length is `max_order`, and the counters.
pub record Shop : Type 0 where
  pub orders : List Order
  pub num_orders : ℕ
  pub all_orders : ℕ
  pub delivered_orders : ℕ
  -- how often `sendNotification` was called
  pub notified : ℕ

abbrev pub is_open : Order → Bool
is_open o = o.status == 0 && (o.is_placed == 0) && (o.send == 1)

-- The loop of `chefRoutine` from index `i`: the first open order is taken.
unfoldable pub pick_from : ℕ → List Order → Option ℕ × List Order
pick_from i [] = (none, [])
pick_from i (o ∷ os) =
    let (found, rest) = pick_from (i + 1) os in
    if is_open o then (some i, record o { status = 1; is_placed = 1 } ∷ os) else (found, o ∷ rest)

-- A chef's turn with the table; the outer `none` is the wait for an order to exist.
unfoldable pub pick_order : Shop → Option (Option ℕ × Shop)
unfolding pick_from
pick_order s =
    if s.num_orders == 0
    then none
    else (let (found, os) = pick_from 0 s.orders in some (found, record s { orders = os }))

-- The status of one order, set by the chef that works on it.
unfoldable pub set_status : ℕ → ℕ → List Order → List Order
set_status i status [] = []
set_status zero status (o ∷ os) = record o { status = status } ∷ os
set_status (suc i) status (o ∷ os) = o ∷ set_status i status os

-- The first loop of `delivererRoutine`: up to `left` orders that are ready go into the bag.
unfoldable pub collect : (left : ℕ) → List Order → List Order × List Order
collect zero os = ([], os)
collect (suc left) [] = ([], [])
collect (suc left) (o ∷ os) =
    let (bag, rest) = collect left os in
    let (bag', rest') = collect (suc left) os in
    if o.status == 3
    then (record o { status = 4 } ∷ bag, record o { status = 4 } ∷ rest)
    else (bag', o ∷ rest')

-- The two inner loops of the delivery of one order: every cell with its id is marked, then cleared.
unfoldable pub mark_delivered : ℕ → List Order → List Order
mark_delivered id [] = []
mark_delivered id (o ∷ os) =
    (if o.id == id then record o { status = 5 } else o) ∷ mark_delivered id os

unfoldable pub clear_order : ℕ → List Order → List Order
clear_order id [] = []
clear_order id (o ∷ os) = (if o.id == id then cleared else o) ∷ clear_order id os

-- The count of deliveries: at `max_order` the client is notified and the count starts again.
unfoldable pub count_delivery : (max_order : ℕ) → Shop → Shop
count_delivery max_order s =
    if s.delivered_orders + 1 == max_order
    then record s { delivered_orders = 0; notified = s.notified + 1 }
    else record s { delivered_orders = s.delivered_orders + 1 }

-- The delivery of the bag: the table, and the orders added to the deliverer's total.
unfoldable pub deliver : List Order → Shop → Shop × ℕ
deliver [] s = (s, 0)
deliver (o ∷ bag) s =
    let (s', total) = deliver bag (
      count_delivery (length s.orders) (record s {
        orders = clear_order o.id (mark_delivered o.id s.orders);
        num_orders = s.num_orders - 1;
      })) in
    (s', total + 1)

-- The loop of `main` over the orders that a client has sent, into a table of the same length.
unfoldable pub place_from : List Order → List Order → (all_orders : ℕ) → List Order × ℕ
place_from [] table all_orders = (table, 0)
place_from (o ∷ os) [] all_orders = ([], 0)
place_from (o ∷ os) (t ∷ table) all_orders =
    let (placed, n) = place_from os table (all_orders + 1) in
    let (kept, m) = place_from os table all_orders in
    if o.status == 0
    then (record o { send = 1; id = all_orders } ∷ placed, n + 1)
    else (t ∷ kept, m)

unfoldable pub place_orders : List Order → Shop → Shop
unfolding place_from
place_orders sent s =
    let (table, n) = place_from sent s.orders s.all_orders in
    record s { orders = table; all_orders = s.all_orders + n; num_orders = s.num_orders + n }
