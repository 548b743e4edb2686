-- ===== src/PideShop/Kitchen/Progress.antt =====
-- The chefs do not deadlock in front of the oven.
use cse344system_programming.Prelude.{
  ℕ, ◌+◌, ◌<◌, ◌≡◌, ◌⊎◌, none, total_of_zeros, weight-le-total, arith,
}
use cse344system_programming.PideShop.Kitchen.{
  Kitchen, Pc, looking, no_order, chef_step, System, Reach,
}
use cse344system_programming.PideShop.Kitchen.Counts.{
  at_slots, sleeps_on_slots, at_peels, sleeps_on_peels, sleeps_on_oven, slot_only, has_peel,
  in_oven, tally,
}
use cse344system_programming.PideShop.Kitchen.Inventory.{Inv, Reach-Inv}

-- A chef that looks for an order, or that no step of its own moves.
abbrev pub IsHeldUp : Kitchen → Pc → Type 0
IsHeldUp k p = (p ≡ looking) ⊎ (chef_step k p ≡ none)

held_up-places :
    (k : Kitchen) (p : Pc)
    → IsHeldUp k p
    → (at_slots p ≡ 0)
      × (at_peels p ≡ 0)
      × (in_oven p ≡ 0)
      × (has_peel p ≡ sleeps_on_oven p)
      × (slot_only p ≡ sleeps_on_peels p + sleeps_on_oven p)
unfolding chef_step
held_up-places k p h = ground arith

held_up-waits :
    (k : Kitchen) (p : Pc)
    → IsHeldUp k p
    → sleeps_on_slots p ≡ 0
    → sleeps_on_peels p ≡ 0
    → sleeps_on_oven p ≡ 0
    → (p ≡ looking) ⊎ (p ≡ no_order)
unfolding chef_step
held_up-waits k p h a b c = ground arith

module _ {n : ℕ} {s : System} (r : Reach n s)
    (held_up : (j : ℕ) → j < n → IsHeldUp s.kitchen (s.pc j)) where
  inv : Inv s.kitchen (tally s.pc n)
  inv = Reach-Inv r

  no_place_sleeper : (j : ℕ) → j < n → sleeps_on_oven (s.pc j) ≡ 0
  no_place_sleeper j h = omega (arith, inv.oven_open, weight-le-total sleeps_on_oven s.pc j n h)

  no_peel_sleeper : (j : ℕ) → j < n → sleeps_on_peels (s.pc j) ≡ 0
  no_peel_sleeper j h = ground (
    arith,
    inv.peels,
    inv.peels_sought,
    total_of_zeros has_peel s.pc n (λ i lt.
        omega (arith, (held_up-places s.kitchen (s.pc i) (held_up i lt)).3, no_place_sleeper i lt)),
    total_of_zeros at_peels s.pc n (λ i lt. (held_up-places s.kitchen (s.pc i) (held_up i lt)).1),
    weight-le-total sleeps_on_peels s.pc j n h,
  )

  no_slot_sleeper : (j : ℕ) → j < n → sleeps_on_slots (s.pc j) ≡ 0
  no_slot_sleeper j h = ground (
    arith,
    inv.slots,
    inv.slots_sought,
    total_of_zeros slot_only s.pc n (λ i lt. omega (
      arith,
      (held_up-places s.kitchen (s.pc i) (held_up i lt)).4,
      no_peel_sleeper i lt,
      no_place_sleeper i lt,
    )),
    total_of_zeros in_oven s.pc n (λ i lt. (held_up-places s.kitchen (s.pc i) (held_up i lt)).2),
    total_of_zeros at_slots s.pc n (λ i lt. (held_up-places s.kitchen (s.pc i) (held_up i lt)).0),
    weight-le-total sleeps_on_slots s.pc j n h,
  )

  -- There is no deadlock: in a reachable state in which every chef looks for an order or sleeps on a condition
  -- variable, each looks for an order or sleeps until there is one, and none for want of a slot, a peel or a
  -- place in the oven.
  pub kitchen_no_deadlock : (j : ℕ) → j < n → (s.pc j ≡ looking) ⊎ (s.pc j ≡ no_order)
  kitchen_no_deadlock j h =
      held_up-waits s.kitchen (s.pc j) (held_up j h) (no_slot_sleeper j h) (no_peel_sleeper j h)
        (no_place_sleeper j h)
