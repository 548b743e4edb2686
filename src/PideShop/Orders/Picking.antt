-- ===== src/PideShop/Orders/Picking.antt =====
-- Which order a chef takes.

use cse344system_programming.Prelude.{
  ℕ, ◌+◌, ◌≡◌, ◌≢◌, refl, ap, ◌==◌, true, false, Option, none, some, List, [], ◌∷◌, ◌++◌, length,
  All, arith, Bool-cases, inl, inr,
}
use cse344system_programming.PideShop.Orders.{Order, Shop, is_open, pick_from, pick_order}

-- What a chef's search from index `i` may come to: no order is open and the table stays as it is, or
-- the first open order is found, at its index, and is the only one that changes.
abbrev pub Picked : ℕ → List Order → Option ℕ × List Order → Type 0
Picked i os (none, os') = All (λ o. is_open o ≡ false) os × (os' ≡ os)
Picked i os (some j, os') =
    (before : List Order) × (o : Order) × (after : List Order) × (os ≡ before ++ o ∷ after)
    × All (λ b. is_open b ≡ false) before
    × (is_open o ≡ true)
    × (j ≡ i + length before)
    × (os' ≡ before ++ record o { status = 1; is_placed = 1 } ∷ after)

Picked-cons :
    (i : ℕ) (o : Order) (os : List Order) (r : Option ℕ × List Order)
    → is_open o ≡ false
    → Picked (i + 1) os r
    → Picked i (o ∷ os) (r.0, o ∷ r.1)
Picked-cons i o os (none, os') h (all, e) = ((h, all), ap (λ l. o ∷ l) e)
Picked-cons i o os (some j, os') h (before, p, after, e, closed, open_p, at_j, e') = (
  o ∷ before,
  p,
  after,
  ap (λ l. o ∷ l) e,
  (h, closed),
  open_p,
  omega (arith, at_j),
  ap (λ l. o ∷ l) e',
)

pick_from-Picked : (i : ℕ) (os : List Order) → Picked i os (pick_from i os)
unfolding pick_from
pick_from-Picked i [] = (tt, refl)
pick_from-Picked i (o ∷ os) = elim (Bool-cases (is_open o)) [
  | inl e ↦ rw e ([], o, os, refl, tt, e, omega arith, refl)
  | inr e ↦ rw e (Picked-cons i o os (pick_from (i + 1) os) e (pick_from-Picked (i + 1) os))
]

-- A chef that does not wait takes the first open order, if there is one, and changes nothing else of
-- the table.
pick_order-Picked :
    (s : Shop)
    → s.num_orders ≢ 0
    → (r : Option ℕ × Shop) × (pick_order s ≡ some r)
      × Picked 0 s.orders (r.0, r.1.orders)
      × (r.1.num_orders ≡ s.num_orders)
unfolding pick_order
pick_order-Picked s h =
    let go : (s.num_orders == 0) ≡ false = ground arith in
    (
      ((pick_from 0 s.orders).0, record s { orders = (pick_from 0 s.orders).1 }),
      rw go,
      pick_from-Picked 0 s.orders,
      refl,
    )
