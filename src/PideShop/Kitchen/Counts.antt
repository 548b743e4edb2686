-- ===== src/PideShop/Kitchen/Counts.antt =====
-- The tallies of the chefs by where they stand.
use cse344system_programming.Prelude.{ℕ, ◌+◌, ◌<◌, ◌≡◌, total, total-update, update}
use cse344system_programming.PideShop.Kitchen.{
  Pc, preparing, no_slot, with_slot, no_peel, with_peel, no_place, baking, baked, slot_freed,
}

-- at the mutex of the slots
abbrev pub at_slots : Pc → ℕ
at_slots (preparing i) = 1
at_slots _ = 0

abbrev pub sleeps_on_slots : Pc → ℕ
sleeps_on_slots (no_slot i) = 1
sleeps_on_slots _ = 0

-- at the mutex of the peels
abbrev pub at_peels : Pc → ℕ
at_peels (with_slot i) = 1
at_peels _ = 0

abbrev pub sleeps_on_peels : Pc → ℕ
sleeps_on_peels (no_peel i) = 1
sleeps_on_peels _ = 0

abbrev pub sleeps_on_oven : Pc → ℕ
sleeps_on_oven (no_place i) = 1
sleeps_on_oven _ = 0

abbrev pub has_peel : Pc → ℕ
has_peel (with_peel i) = 1
has_peel (no_place i) = 1
has_peel (baking i) = 1
has_peel (baked i) = 1
has_peel (slot_freed i) = 1
has_peel _ = 0

abbrev pub in_oven : Pc → ℕ
in_oven (baking i) = 1
in_oven _ = 0

-- a chef with a slot that is not baking
abbrev pub slot_only : Pc → ℕ
slot_only (with_slot i) = 1
slot_only (no_peel i) = 1
slot_only (with_peel i) = 1
slot_only (no_place i) = 1
slot_only (baked i) = 1
slot_only _ = 0

pub record Tally : Type 0 where
  pub to_slots : ℕ
  pub off_slots : ℕ
  pub to_peels : ℕ
  pub off_peels : ℕ
  pub off_oven : ℕ
  pub waiting : ℕ
  pub peels : ℕ
  pub oven : ℕ

abbrev pub tally : (ℕ → Pc) → ℕ → Tally
tally pc n = record {
  to_slots = total at_slots pc n;
  off_slots = total sleeps_on_slots pc n;
  to_peels = total at_peels pc n;
  off_peels = total sleeps_on_peels pc n;
  off_oven = total sleeps_on_oven pc n;
  waiting = total slot_only pc n;
  peels = total has_peel pc n;
  oven = total in_oven pc n;
}

-- The tallies change by a chef that goes from `p` to `p'`.
pub record Moved (t t' : Tally) (p p' : Pc) : Type 0 where
  pub to_slots : t'.to_slots + at_slots p ≡ t.to_slots + at_slots p'
  pub off_slots : t'.off_slots + sleeps_on_slots p ≡ t.off_slots + sleeps_on_slots p'
  pub to_peels : t'.to_peels + at_peels p ≡ t.to_peels + at_peels p'
  pub off_peels : t'.off_peels + sleeps_on_peels p ≡ t.off_peels + sleeps_on_peels p'
  pub off_oven : t'.off_oven + sleeps_on_oven p ≡ t.off_oven + sleeps_on_oven p'
  pub waiting : t'.waiting + slot_only p ≡ t.waiting + slot_only p'
  pub peels : t'.peels + has_peel p ≡ t.peels + has_peel p'
  pub oven : t'.oven + in_oven p ≡ t.oven + in_oven p'

pub update-Moved :
    (pc : ℕ → Pc) (i n : ℕ) (p' : Pc)
    → i < n
    → Moved (tally pc n) (tally (update pc i p') n) (pc i) p'
update-Moved pc i n p' h = record {
  to_slots = total-update at_slots pc i p' n h;
  off_slots = total-update sleeps_on_slots pc i p' n h;
  to_peels = total-update at_peels pc i p' n h;
  off_peels = total-update sleeps_on_peels pc i p' n h;
  off_oven = total-update sleeps_on_oven pc i p' n h;
  waiting = total-update slot_only pc i p' n h;
  peels = total-update has_peel pc i p' n h;
  oven = total-update in_oven pc i p' n h;
}
