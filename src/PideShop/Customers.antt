-- ===== src/PideShop/Customers.antt =====
-- The client of the pide shop, FinalProject/HungryVeryMuch.c: the orders that its `main` makes. The sockets
-- are left out; `rand k` is the value of the call number `k` of rand.
pub mod Placing
mod Tests
use cse344system_programming.Prelude.{ℕ, zero, suc, ◌+◌, ◌*◌, ◌%◌, List, [], ◌∷◌}
use cse344system_programming.PideShop.Orders.{Order}

-- One order of the loop, with the map of p times q.
unfoldable pub new_order : (rand : ℕ → ℕ) (p q customer_count pid i : ℕ) → Order
new_order rand p q customer_count pid i = record {
  id = i + 1;
  x = rand (2 * i) % p;
  y = rand (2 * i + 1) % q;
  status = 0;
  is_placed = 0;
  send = 0;
  customer = customer_count;
  client_id = pid;
}

-- The loop from order `i`, with as many orders left.
unfoldable pub orders_from : (rand : ℕ → ℕ) (p q customer_count pid : ℕ) (left i : ℕ) → List Order
orders_from rand p q customer_count pid zero i = []
orders_from rand p q customer_count pid (suc left) i =
    new_order rand p q customer_count pid i ∷ orders_from rand p q customer_count pid left (i + 1)

-- What is sent to the shop.
unfoldable pub new_orders : (rand : ℕ → ℕ) (p q customer_count pid : ℕ) → List Order
new_orders rand p q customer_count pid = orders_from rand p q customer_count pid customer_count 0
