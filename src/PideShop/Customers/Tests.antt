-- ===== src/PideShop/Customers/Tests.antt =====
-- Two orders of a client in an empty shop.
use mathlib.Core.Path.{◌≡◌, refl}
use mathlib.Core.List.{[], ◌∷◌}
use Prim.Native.Nat.{ℕ}
use cse344system_programming.Prelude.{◌+◌, ◌*◌, arith}
use cse344system_programming.PideShop.Orders.{Shop, cleared, place_orders}
use cse344system_programming.PideShop.Customers.{new_orders}
use cse344system_programming.PideShop.Customers.Placing.{AreWaiting, place_orders-new_orders}

abbrev rand : ℕ → ℕ
rand k = 7 * k + 3

abbrev shop : Shop
shop = record {
  orders = cleared ∷ cleared ∷ [];
  num_orders = 0;
  all_orders = 4;
  delivered_orders = 0;
  notified = 0;
}

place_orders-new_orders_example :
    AreWaiting 10 20 99 4 2 (place_orders (new_orders rand 10 20 2 99) shop).orders
    × ((place_orders (new_orders rand 10 20 2 99) shop).all_orders ≡ 4 + 2)
    × ((place_orders (new_orders rand 10 20 2 99) shop).num_orders ≡ 0 + 2)
place_orders-new_orders_example =
    place_orders-new_orders rand 10 20 2 99 shop (omega arith) (omega arith) refl
