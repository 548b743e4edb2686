-- ===== src/PideShop/Orders/Tests.antt =====
-- Runs on a small table of orders.
use native.Mathlib.Omega.{arith}
use mathlib.Core.Path.{◌≡◌, refl}
use mathlib.Core.List.{[], ◌∷◌}
use Prim.Native.Nat.{ℕ}
use cse344system_programming.PideShop.Orders.{
  Order, cleared, Shop, deliver, place_orders, place_from,
}
use cse344system_programming.PideShop.Orders.Delivering.{Accounts, deliver-Accounts}

abbrev order : ℕ → ℕ → Order
order id status = record cleared { id = id; status = status; send = 1 }

abbrev shop : Shop
shop = record {
  orders = order 1 3 ∷ order 2 0 ∷ order 3 3 ∷ [];
  num_orders = 3;
  all_orders = 3;
  delivered_orders = 2;
  notified = 0;
}

places-first :
    (place_orders
      (order 0 0 ∷ cleared ∷ cleared ∷ [])
      (record shop { orders = cleared ∷ cleared ∷ cleared ∷ []; num_orders = 0 })).num_orders
    ≡ 3
unfolding place_orders place_from
places-first = refl

deliver-Accounts_example :
    Accounts (order 1 4 ∷ order 3 4 ∷ []) shop (deliver (order 1 4 ∷ order 3 4 ∷ []) shop)
deliver-Accounts_example = deliver-Accounts (order 1 4 ∷ order 3 4 ∷ []) shop (omega arith)
