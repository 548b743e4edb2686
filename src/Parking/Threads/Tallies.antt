-- ===== src/Parking/Threads/Tallies.antt =====
-- How many owners and attendants of Homework3/hw3.c stand where, and how a move changes that.
use cse344system_programming.Prelude.{ℕ, ◌+◌, ◌≡◌, none, some, update, total-update, ◌<◌, total}
use cse344system_programming.Parking.Lot.{VehicleType, pickup, automobile}
use cse344system_programming.Parking.Lot.Kinds.{of_other_kind}
use cse344system_programming.Parking.Threads.{
  OwnerPc, arrived, queueing, queued, waiting, AttendantPc, called, in_charge, taken, slot_freed,
  placed, released, crashed, Attendant,
}

abbrev pub of_kind : VehicleType → VehicleType → ℕ
of_kind pickup pickup = 1
of_kind automobile automobile = 1
of_kind _ _ = 0

abbrev pub has_arrived : OwnerPc → ℕ
has_arrived (arrived _ _) = 1
has_arrived _ = 0

abbrev pub is_queueing : OwnerPc → ℕ
is_queueing (queueing _ _) = 1
is_queueing _ = 0

abbrev pub has_queued : VehicleType → OwnerPc → ℕ
has_queued k (queued k' _) = of_kind k k'
has_queued k _ = 0

abbrev pub is_waiting : VehicleType → OwnerPc → ℕ
is_waiting k (waiting k') = of_kind k k'
is_waiting k _ = 0

-- with a vehicle of another kind than the owner's
abbrev pub is_astray : OwnerPc → ℕ
is_astray (arrived k v) = of_other_kind k v.vehicle_type
is_astray (queueing k v) = of_other_kind k v.vehicle_type
is_astray _ = 0

pub record Owners : Type 0 where
  pub arrived : ℕ
  pub queueing : ℕ
  pub queued_pickups : ℕ
  pub queued_automobiles : ℕ
  pub waiting_pickups : ℕ
  pub waiting_automobiles : ℕ
  pub astray : ℕ

abbrev pub owners_tally : (ℕ → OwnerPc) → ℕ → Owners
owners_tally f n = record {
  arrived = total has_arrived f n;
  queueing = total is_queueing f n;
  queued_pickups = total (has_queued pickup) f n;
  queued_automobiles = total (has_queued automobile) f n;
  waiting_pickups = total (is_waiting pickup) f n;
  waiting_automobiles = total (is_waiting automobile) f n;
  astray = total is_astray f n;
}

abbrev called_for : AttendantPc → ℕ
called_for called = 1
called_for in_charge = 1
called_for _ = 0

abbrev carrying : AttendantPc → ℕ
carrying (taken _) = 1
carrying (slot_freed _) = 1
carrying placed = 1
carrying released = 1
carrying crashed = 1
carrying _ = 0

abbrev charged : AttendantPc → ℕ
charged in_charge = 1
charged (taken _) = 1
charged (slot_freed _) = 1
charged placed = 1
charged crashed = 1
charged _ = 0

abbrev pub for_kind : VehicleType → VehicleType → ℕ → ℕ
for_kind pickup pickup n = n
for_kind automobile automobile n = n
for_kind _ _ n = 0

-- An attendant of a kind that has been called, carries a vehicle or is in charge.
abbrev pub is_called : VehicleType → Attendant → ℕ
is_called k a = for_kind k a.vehicle_type (called_for a.pc)

abbrev pub carries : VehicleType → Attendant → ℕ
carries k a = for_kind k a.vehicle_type (carrying a.pc)

abbrev pub is_charged : VehicleType → Attendant → ℕ
is_charged k a = for_kind k a.vehicle_type (charged a.pc)

abbrev holds_slot : AttendantPc → ℕ
holds_slot (taken _) = 1
holds_slot _ = 0

-- An attendant with a slot to free.
abbrev pub took : Attendant → ℕ
took a = holds_slot a.pc

abbrev pub wrong : VehicleType → AttendantPc → ℕ
wrong k (taken none) = 1
wrong k (taken (some v)) = of_other_kind k v.vehicle_type
wrong k (slot_freed none) = 1
wrong k (slot_freed (some v)) = of_other_kind k v.vehicle_type
wrong k crashed = 1
wrong k _ = 0

-- An attendant with no vehicle or one of another kind, or crashed.
abbrev pub is_wrong : Attendant → ℕ
is_wrong a = wrong a.vehicle_type a.pc

pub record Attendants : Type 0 where
  pub called_pickups : ℕ
  pub called_automobiles : ℕ
  pub carried_pickups : ℕ
  pub carried_automobiles : ℕ
  pub charged_pickups : ℕ
  pub charged_automobiles : ℕ
  pub took : ℕ
  pub wrong : ℕ

abbrev pub attendants_tally : (ℕ → Attendant) → ℕ → Attendants
attendants_tally f n = record {
  called_pickups = total (is_called pickup) f n;
  called_automobiles = total (is_called automobile) f n;
  carried_pickups = total (carries pickup) f n;
  carried_automobiles = total (carries automobile) f n;
  charged_pickups = total (is_charged pickup) f n;
  charged_automobiles = total (is_charged automobile) f n;
  took = total took f n;
  wrong = total is_wrong f n;
}

-- The tallies change by the owner that moves.
pub record OwnerMoved (t t' : Owners) (w w' : OwnerPc) : Type 0 where
  pub arrived : t'.arrived + has_arrived w ≡ t.arrived + has_arrived w'
  pub queueing : t'.queueing + is_queueing w ≡ t.queueing + is_queueing w'
  pub queued_pickups :
      t'.queued_pickups + has_queued pickup w ≡ t.queued_pickups + has_queued pickup w'
  pub queued_automobiles :
      t'.queued_automobiles + has_queued automobile w
      ≡ t.queued_automobiles + has_queued automobile w'
  pub waiting_pickups :
      t'.waiting_pickups + is_waiting pickup w ≡ t.waiting_pickups + is_waiting pickup w'
  pub waiting_automobiles :
      t'.waiting_automobiles + is_waiting automobile w
      ≡ t.waiting_automobiles + is_waiting automobile w'
  pub astray : t'.astray + is_astray w ≡ t.astray + is_astray w'

-- The tallies change by the attendant that moves.
pub record AttendantMoved (t t' : Attendants) (w w' : Attendant) : Type 0 where
  pub called_pickups :
      t'.called_pickups + is_called pickup w ≡ t.called_pickups + is_called pickup w'
  pub called_automobiles :
      t'.called_automobiles + is_called automobile w
      ≡ t.called_automobiles + is_called automobile w'
  pub carried_pickups :
      t'.carried_pickups + carries pickup w ≡ t.carried_pickups + carries pickup w'
  pub carried_automobiles :
      t'.carried_automobiles + carries automobile w ≡ t.carried_automobiles + carries automobile w'
  pub charged_pickups :
      t'.charged_pickups + is_charged pickup w ≡ t.charged_pickups + is_charged pickup w'
  pub charged_automobiles :
      t'.charged_automobiles + is_charged automobile w
      ≡ t.charged_automobiles + is_charged automobile w'
  pub took : t'.took + took w ≡ t.took + took w'
  pub wrong : t'.wrong + is_wrong w ≡ t.wrong + is_wrong w'

pub update-OwnerMoved :
    (f : ℕ → OwnerPc) (i n : ℕ) (w : OwnerPc)
    → i < n
    → OwnerMoved (owners_tally f n) (owners_tally (update f i w) n) (f i) w
update-OwnerMoved f i n w h = record {
  arrived = total-update has_arrived f i w n h;
  queueing = total-update is_queueing f i w n h;
  queued_pickups = total-update (has_queued pickup) f i w n h;
  queued_automobiles = total-update (has_queued automobile) f i w n h;
  waiting_pickups = total-update (is_waiting pickup) f i w n h;
  waiting_automobiles = total-update (is_waiting automobile) f i w n h;
  astray = total-update is_astray f i w n h;
}

pub update-AttendantMoved :
    (f : ℕ → Attendant) (i n : ℕ) (w : Attendant)
    → i < n
    → AttendantMoved (attendants_tally f n) (attendants_tally (update f i w) n) (f i) w
update-AttendantMoved f i n w h = record {
  called_pickups = total-update (is_called pickup) f i w n h;
  called_automobiles = total-update (is_called automobile) f i w n h;
  carried_pickups = total-update (carries pickup) f i w n h;
  carried_automobiles = total-update (carries automobile) f i w n h;
  charged_pickups = total-update (is_charged pickup) f i w n h;
  charged_automobiles = total-update (is_charged automobile) f i w n h;
  took = total-update took f i w n h;
  wrong = total-update is_wrong f i w n h;
}
