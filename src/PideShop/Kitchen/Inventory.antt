-- ===== src/PideShop/Kitchen/Inventory.antt =====
-- The slots, peels and places of the oven, and the chefs that sleep for want of one.
use cse344system_programming.Prelude.{
  ℕ, ◌+◌, ◌<◌, ◌≤◌, ◌≡◌, refl, leb, true, false, some, update, total, total-eq-zero, total_of_zeros,
  arith, ◌⊎◌,
}
use cse344system_programming.PideShop.Orders.{Shop}
use cse344system_programming.PideShop.Kitchen.{
  max_oven_slots, max_oven_peels, max_oven_capacity, Kitchen, new_kitchen, Pc, looking, Signal,
  silent, order_available, slot_available, peel_available, oven_available, chef_step, awake, hears,
  Woken, nobody, deliverer, one, unheard, System, chef, wakes, others, Reach, start, later,
}
use cse344system_programming.PideShop.Kitchen.Counts.{
  sleeps_on_slots, sleeps_on_peels, sleeps_on_oven, slot_only, has_peel, in_oven, Tally, tally,
  Moved, update-Moved,
}

pub record Inv (k : Kitchen) (t : Tally) : Type 0 where
  pub slots : k.slots + t.waiting + t.oven ≡ max_oven_slots
  pub peels : k.peels + t.peels ≡ max_oven_peels
  pub capacity : k.capacity ≡ t.oven
  -- for every free slot a chef is up to take it, while others sleep
  pub slots_sought : (t.off_slots ≡ 0) ⊎ (k.slots ≤ t.to_slots)
  pub peels_sought : (t.off_peels ≡ 0) ⊎ (k.peels ≤ t.to_peels)
  pub oven_open : t.off_oven ≡ 0

-- What a signal owes to those that sleep: the invariant behind a step but before the signal.
abbrev Owed : Signal → Kitchen → Tally → Type 0
Owed slot_available k t =
    (k.slots + t.waiting + t.oven ≡ max_oven_slots)
    × (k.peels + t.peels ≡ max_oven_peels)
    × (k.capacity ≡ t.oven)
    × ((t.off_slots ≡ 0) ⊎ (k.slots ≤ t.to_slots + 1))
    × ((t.off_peels ≡ 0) ⊎ (k.peels ≤ t.to_peels))
    × (t.off_oven ≡ 0)
Owed peel_available k t =
    (k.slots + t.waiting + t.oven ≡ max_oven_slots)
    × (k.peels + t.peels ≡ max_oven_peels)
    × (k.capacity ≡ t.oven)
    × ((t.off_slots ≡ 0) ⊎ (k.slots ≤ t.to_slots))
    × ((t.off_peels ≡ 0) ⊎ (k.peels ≤ t.to_peels + 1))
    × (t.off_oven ≡ 0)
Owed signal k t = Inv k t

step-Owed :
    (k k' : Kitchen) (p p' : Pc) (signal : Signal) (t t' : Tally)
    → Inv k t
    → chef_step k p ≡ some (k', p', signal)
    → Moved t t' p p'
    → Owed signal k' t'
unfolding chef_step
step-Owed k k' p p' signal t t' v e m = ground arith

wakes-Inv : (k : Kitchen) (p : Pc) (t t' : Tally) → Inv k t → Moved t t' p (awake p) → Inv k t'
wakes-Inv k p t t' v m = ground arith

heard-Inv :
    (signal : Signal) (k : Kitchen) (p : Pc) (t t' : Tally)
    → Owed signal k t
    → hears signal p ≡ true
    → Moved t t' p (awake p)
    → Inv k t'
heard-Inv signal k p t t' v e m = ground arith

unheard-slots : (p : Pc) → hears slot_available p ≡ false → sleeps_on_slots p ≡ 0
unheard-slots p h = ground arith

unheard-peels : (p : Pc) → hears peel_available p ≡ false → sleeps_on_peels p ≡ 0
unheard-peels p h = ground arith

unheard-Inv :
    (signal : Signal) (n : ℕ) (k : Kitchen) (pc : ℕ → Pc)
    → Owed signal k (tally pc n)
    → ((j : ℕ) → j < n → hears signal (pc j) ≡ false)
    → Inv k (tally pc n)
unheard-Inv silent n k pc v h = v
unheard-Inv order_available n k pc v h = v
unheard-Inv oven_available n k pc v h = v
unheard-Inv slot_available n k pc v h =
    ground (arith, v, total_of_zeros sleeps_on_slots pc n (λ j lt. unheard-slots (pc j) (h j lt)))
unheard-Inv peel_available n k pc v h =
    ground (arith, v, total_of_zeros sleeps_on_peels pc n (λ j lt. unheard-peels (pc j) (h j lt)))

Woken-Inv :
    (signal : Signal) (n : ℕ) (k : Kitchen) (pc pc' : ℕ → Pc)
    → Owed signal k (tally pc n)
    → Woken n pc signal pc'
    → Inv k (tally pc' n)
Woken-Inv _ n k pc pc' v nobody = v
Woken-Inv _ n k pc pc' v deliverer = v
Woken-Inv signal n k pc _ v (one j h e) =
    heard-Inv signal k (pc j) (tally pc n) (tally (update pc j (awake (pc j))) n) v e
      (update-Moved pc j n (awake (pc j)) h)
Woken-Inv signal n k pc _ v (unheard h) = unheard-Inv signal n k pc v h

fresh-Inv : (shop : Shop) (n : ℕ) → Inv (new_kitchen shop) (tally (λ _. looking) n)
fresh-Inv shop n = ground (
  arith,
  total-eq-zero slot_only looking refl n,
  total-eq-zero has_peel looking refl n,
  total-eq-zero in_oven looking refl n,
  total-eq-zero sleeps_on_slots looking refl n,
  total-eq-zero sleeps_on_peels looking refl n,
  total-eq-zero sleeps_on_oven looking refl n,
)

-- Whatever the chefs and the other threads do.
pub Reach-Inv : {n : ℕ} {s : System} → Reach n s → Inv s.kitchen (tally s.pc n)
Reach-Inv {n} (start shop) = fresh-Inv shop n
Reach-Inv {n} (later {s = s} r (chef i {k = k} {p = p} {signal = g} {pc = pc} h e woken)) =
    Woken-Inv g n k (update s.pc i p) pc
      (step-Owed s.kitchen k (s.pc i) p g (tally s.pc n) (tally (update s.pc i p) n) (Reach-Inv r) e
        (update-Moved s.pc i n p h))
      woken
Reach-Inv {n} (later {s = s} r (wakes i h)) =
    wakes-Inv s.kitchen (s.pc i) (tally s.pc n) (tally (update s.pc i (awake (s.pc i))) n)
      (Reach-Inv r) (update-Moved s.pc i n (awake (s.pc i)) h)
Reach-Inv (later r (others shop)) =
    let v = Reach-Inv r in
    record {
      slots = v.slots;
      peels = v.peels;
      capacity = v.capacity;
      slots_sought = v.slots_sought;
      peels_sought = v.peels_sought;
      oven_open = v.oven_open;
    }

-- In every reachable state `ovenCapacity` is the number of the chefs whose pide is in the oven, it is never
-- more than the number of slots, and the test for a full oven fails.
pub oven_has_place :
    {n : ℕ} {s : System}
    → Reach n s
    → (s.kitchen.capacity ≡ total in_oven s.pc n)
      × (s.kitchen.capacity ≤ max_oven_slots)
      × (leb max_oven_capacity s.kitchen.capacity ≡ false)
oven_has_place {s = s} r =
    let v = Reach-Inv r in
    (v.capacity, omega (arith, v.slots, v.capacity), ground (arith, v.slots, v.capacity))
