-- ===== src/PideShop/Customers/Placing.antt =====
-- The orders of FinalProject/HungryVeryMuch.c in the table of FinalProject/PideShop.c.
use native.Mathlib.Nat.{mod-lt}
use cse344system_programming.Prelude.{
  ℕ, zero, suc, ◌+◌, ◌*◌, ◌<◌, ◌≡◌, refl, ap, true, List, [], ◌∷◌, length, All, arith,
}
use cse344system_programming.PideShop.Orders.{Order, Shop, is_open, place_from, place_orders}
use cse344system_programming.PideShop.Customers.{new_order, orders_from, new_orders}

-- An order that a chef may take, at a place on the map.
pub record IsWaiting (p q pid : ℕ) (o : Order) : Type 0 where
  pub waits : is_open o ≡ true
  pub across : o.x < p
  pub down : o.y < q
  pub client : o.client_id ≡ pid

abbrev pub IdsFrom : ℕ → List Order → Type 0
IdsFrom n [] = Unit
IdsFrom n (o ∷ os) = (o.id ≡ n) × IdsFrom (n + 1) os

-- A table of as many orders, numbered from `n` on.
pub record AreWaiting (p q pid n : ℕ) (count : ℕ) (table : List Order) : Type 0 where
  pub orders : All (IsWaiting p q pid) table
  pub ids : IdsFrom n table
  pub all : length table ≡ count

place_from-orders :
    (rand : ℕ → ℕ) (p q customer_count pid left i n : ℕ) (table : List Order)
    → 0 < p
    → 0 < q
    → length table ≡ left
    → let (placed, m) = place_from (orders_from rand p q customer_count pid left i) table n in
      AreWaiting p q pid n left placed × (m ≡ left)
unfolding place_from orders_from new_order
place_from-orders rand p q customer_count pid zero i n [] hp hq e =
    (record { orders = tt; ids = tt; all = refl }, refl)
place_from-orders rand p q customer_count pid zero i n (t ∷ table) hp hq e =
    absurd (omega (arith, e))
place_from-orders rand p q customer_count pid (suc left) i n [] hp hq e = absurd (omega (arith, e))
place_from-orders rand p q customer_count pid (suc left) i n (t ∷ table) hp hq e =
    let (rest, m) =
      place_from-orders rand p q customer_count pid left (i + 1) (n + 1) table hp hq
        (omega (arith, e)) in
    (
      record {
        orders = (
          record {
            waits = refl;
            across = mod-lt (rand (2 * i)) hp;
            down = mod-lt (rand (2 * i + 1)) hq;
            client = refl;
          },
          rest.orders,
        );
        ids = (refl, rest.ids);
        all = omega (arith, rest.all);
      },
      omega (arith, m),
    )

-- Where a table of as many orders is ready and the map is not empty, the orders that a client makes are placed
-- as orders that a chef may take, at places on the map, numbered from `all_orders` on, and both counts grow by
-- their number.
pub place_orders-new_orders :
    (rand : ℕ → ℕ) (p q customer_count pid : ℕ) (s : Shop)
    → 0 < p
    → 0 < q
    → length s.orders ≡ customer_count
    → let placed = place_orders (new_orders rand p q customer_count pid) s in
      AreWaiting p q pid s.all_orders customer_count placed.orders
      × (placed.all_orders ≡ s.all_orders + customer_count)
      × (placed.num_orders ≡ s.num_orders + customer_count)
unfolding place_orders new_orders
place_orders-new_orders rand p q customer_count pid s hp hq e =
    let (placed, m) =
      place_from-orders rand p q customer_count pid customer_count 0 s.all_orders s.orders hp hq
        e in
    (placed, ap (λ n. s.all_orders + n) m, ap (λ n. s.num_orders + n) m)
