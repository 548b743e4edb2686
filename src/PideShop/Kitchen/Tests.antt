-- ===== src/PideShop/Kitchen/Tests.antt =====
-- A run of the kitchen.
use native.Mathlib.Omega.{arith}
use mathlib.Core.Path.{refl, ◌≡◌}
use mathlib.Core.Bool.{false}
use mathlib.Core.Logic.{◌⊎◌, inl}
use mathlib.Core.List.{[], ◌∷◌}
use Prim.Native.Nat.{ℕ, zero, suc, ◌≤◌, ◌<◌}
use cse344system_programming.Prelude.{update, ℕ_discrete, leb, total}
use cse344system_programming.PideShop.Orders.{cleared, set_status, Shop, pick_order, pick_from}
use cse344system_programming.PideShop.Kitchen.{
  max_oven_slots, max_oven_capacity, Pc, looking, no_order, preparing, with_slot, with_peel, baking,
  baked, slot_freed, peel_freed, Signal, new_kitchen, chef_step, hears, nobody, deliverer, unheard,
  System, chef, Reach, start, later,
}
use cse344system_programming.PideShop.Kitchen.Counts.{in_oven}
use cse344system_programming.PideShop.Kitchen.Inventory.{oven_has_place}
use cse344system_programming.PideShop.Kitchen.Progress.{IsHeldUp, kitchen_no_deadlock}

abbrev open_shop : Shop
open_shop = record {
  orders = record cleared { id = 1; send = 1 } ∷ [];
  num_orders = 1;
  all_orders = 1;
  delivered_orders = 0;
  notified = 0;
}

-- The first of two chefs holds a slot and a peel for the order.
abbrev equipped : System
equipped = record {
  kitchen = record {
    slots = 1;
    peels = 2;
    capacity = 0;
    shop = record open_shop {
      orders = record cleared { id = 1; send = 1; status = 1; is_placed = 1 } ∷ [];
    };
  };
  pc = update (update (update (λ _. looking) 0 (preparing 0)) 0 (with_slot 0)) 0 (with_peel 0);
}

equipped-Reach : Reach 2 equipped
unfolding chef_step pick_order pick_from ℕ_discrete
equipped-Reach =
    later
      (later (later (start open_shop) (chef 0 (omega arith) refl nobody))
        (chef 0 (omega arith) refl nobody))
      (chef 0 (omega arith) refl nobody)

oven_has_place_example :
    (equipped.kitchen.capacity ≡ total in_oven equipped.pc 2)
    × (equipped.kitchen.capacity ≤ max_oven_slots)
    × (leb max_oven_capacity equipped.kitchen.capacity ≡ false)
oven_has_place_example = oven_has_place equipped-Reach

-- A signal that the only chef does not hear.
quiet :
    (pc : ℕ → Pc) (p : Pc) (signal : Signal)
    → hears signal p ≡ false
    → (j : ℕ) → j < 1
    → hears signal (update pc 0 p j) ≡ false
unfolding ℕ_discrete
quiet pc p signal h zero lt = h
quiet pc p signal h (suc j) lt = absurd (omega arith)

-- The only chef has made the order ready and looks for the next one.
abbrev finished : System
finished = record {
  kitchen = record (new_kitchen open_shop) {
    shop = record open_shop {
      orders = record cleared { id = 1; send = 1; status = 3; is_placed = 1 } ∷ [];
    };
  };
  pc =
      update
        (update
          (update
            (update
              (update
                (update (update (update (λ _. looking) 0 (preparing 0)) 0 (with_slot 0)) 0
                  (with_peel 0))
                0 (baking 0))
              0 (baked 0))
            0 (slot_freed 0))
          0 (peel_freed 0))
        0 looking;
}

finished-Reach : Reach 1 finished
unfolding chef_step pick_order pick_from set_status ℕ_discrete
finished-Reach =
    later
      (later
        (later
          (later
            (later
              (later
                (later (later (start open_shop) (chef 0 (omega arith) refl nobody))
                  (chef 0 (omega arith) refl nobody))
                (chef 0 (omega arith) refl nobody))
              (chef 0 (omega arith) refl nobody))
            (chef 0 (omega arith) refl (unheard (quiet _ (baked 0) Signal.oven_available refl))))
          (chef 0 (omega arith) refl (unheard (quiet _ (slot_freed 0) Signal.slot_available refl))))
        (chef 0 (omega arith) refl (unheard (quiet _ (peel_freed 0) Signal.peel_available refl))))
      (chef 0 (omega arith) refl deliverer)

finished-IsHeldUp : (j : ℕ) → j < 1 → IsHeldUp finished.kitchen (finished.pc j)
unfolding ℕ_discrete
finished-IsHeldUp zero h = inl refl
finished-IsHeldUp (suc j) h = absurd (omega arith)

kitchen_no_deadlock_example : (finished.pc 0 ≡ looking) ⊎ (finished.pc 0 ≡ no_order)
kitchen_no_deadlock_example = kitchen_no_deadlock finished-Reach finished-IsHeldUp 0 (omega arith)
