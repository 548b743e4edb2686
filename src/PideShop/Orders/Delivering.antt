-- ===== src/PideShop/Orders/Delivering.antt =====
-- What a deliverer collects and delivers, and what the main thread places.
use cse344system_programming.Prelude.{
  ℕ, zero, suc, ◌+◌, ◌-◌, ◌*◌, ◌<◌, ◌≡◌, refl, ap, ◌∙◌, ◌==◌, if◌then◌else◌, List, [], ◌∷◌, length,
  take, arith, Bool-cases, inl, inr,
}
use cse344system_programming.PideShop.Orders.{
  Order, Shop, collect, mark_delivered, clear_order, count_delivery, deliver,
}

-- The orders that are ready for delivery, marked as being delivered.
pub ready : List Order → List Order
ready [] = []
ready (o ∷ os) = if o.status == 3 then record o { status = 4 } ∷ ready os else ready os

-- A deliverer collects the first ready orders of the table, as many as the bag has room for, and leaves
-- just the other ready ones ready.
collect-take :
    (left : ℕ) (os : List Order)
    → ((collect left os).0 ≡ take left (ready os))
      × (length (ready (collect left os).1) ≡ length (ready os) - left)
unfolding collect ready
collect-take zero os = (refl, omega arith)
collect-take (suc left) [] = (refl, omega arith)
collect-take (suc left) (o ∷ os) = elim (Bool-cases (o.status == 3)) [
  | inl e ↦ rw e (
    ap (λ l. record o { status = 4 } ∷ l) (collect-take left os).0,
    omega (arith, (collect-take left os).1),
  )
  | inr e ↦
      let same : length (ready (o ∷ (collect (suc left) os).1))
          ≡ length (ready (collect (suc left) os).1) =
        rw e in
      rw e ((collect-take (suc left) os).0, same ∙ (collect-take (suc left) os).1)
]

length-clear_order : (id : ℕ) (os : List Order) → length (clear_order id os) ≡ length os
unfolding clear_order
length-clear_order id [] = refl
length-clear_order id (o ∷ os) = ap suc (length-clear_order id os)

length-mark_delivered : (id : ℕ) (os : List Order) → length (mark_delivered id os) ≡ length os
unfolding mark_delivered
length-mark_delivered id [] = refl
length-mark_delivered id (o ∷ os) = ap suc (length-mark_delivered id os)

-- What the delivery of a bag leaves in the counters.
pub record Accounts (bag : List Order) (s : Shop) (r : Shop × ℕ) : Type 0 where
  pub total : r.1 ≡ length bag
  pub active : r.0.num_orders ≡ s.num_orders - length bag
  pub size : length r.0.orders ≡ length s.orders
  pub below : r.0.delivered_orders < length s.orders
  pub counted :
      r.0.notified * length s.orders + r.0.delivered_orders
      ≡ s.notified * length s.orders + s.delivered_orders + length bag

count_delivery-counted :
    (max : ℕ) (s : Shop)
    → s.delivered_orders < max
    → let s' = count_delivery max s in
      (s'.delivered_orders < max)
      × (s'.notified * max + s'.delivered_orders ≡ s.notified * max + s.delivered_orders + 1)
      × (s'.num_orders ≡ s.num_orders)
      × (s'.orders ≡ s.orders)
unfolding count_delivery
count_delivery-counted max s h = elim (Bool-cases (s.delivered_orders + 1 == max)) [
  | inl e ↦ rw e (omega arith, grind arith, refl, refl)
  | inr e ↦ rw e (ground arith, omega arith, refl, refl)
]

-- While fewer deliveries than `max_order` are counted, every order of a bag counts: the deliverer's
-- total grows by the orders of the bag, the active orders fall by as many, the table keeps its size, and
-- the client is notified once for each `max_order` deliveries.
pub deliver-Accounts :
    (bag : List Order) (s : Shop)
    → s.delivered_orders < length s.orders
    → Accounts bag s (deliver bag s)
unfolding deliver
deliver-Accounts [] s h = omega arith
deliver-Accounts (o ∷ bag) s h =
    let max : ℕ = length s.orders in
    let paid : Shop = record s {
      orders = clear_order o.id (mark_delivered o.id s.orders);
      num_orders = s.num_orders - 1;
    } in
    let next : Shop = count_delivery max paid in
    let (below, counted, active, same) = count_delivery-counted max paid h in
    let size : length next.orders ≡ max =
      ap length same
      ∙ length-clear_order o.id (mark_delivered o.id s.orders)
      ∙ length-mark_delivered o.id s.orders in
    let v : Accounts bag next (deliver bag next) = deliver-Accounts bag next (rw size below) in
    record {
      total = omega (arith, v.total);
      active = omega (arith, v.active, active);
      size = v.size ∙ size;
      below = rw size at v.below;
      counted = omega (arith, (rw size at v.counted), counted);
    }
