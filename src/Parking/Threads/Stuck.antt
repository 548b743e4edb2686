-- ===== src/Parking/Threads/Stuck.antt =====
-- Where an owner or an attendant of Homework3/hw3.c cannot move.
use cse344system_programming.Prelude.{ℕ, ◌≡◌, ◌⊎◌, none, arith}
use cse344system_programming.Parking.Lot.{VehicleType, pickup, automobile}
use cse344system_programming.Parking.Threads.{
  Parking, OwnerPc, away, owner_step, AttendantPc, watching, called, attendant_step,
}
use cse344system_programming.Parking.Threads.Tallies.{has_arrived, is_waiting, wrong}

-- One step's part of the argument: who cannot move.
pub stuck-owner :
    (kind : VehicleType) (now : ℕ) (p : Parking) (w : OwnerPc)
    → owner_step kind now p w ≡ none
    → ((w ≡ away) × (p.arrival_lock ≡ 0))
      ⊎ ((has_arrived w ≡ 1) × (p.free_slot ≡ 0))
      ⊎ ((is_waiting pickup w ≡ 1) × (p.pickups.parked ≡ 0))
      ⊎ ((is_waiting automobile w ≡ 1) × (p.automobiles.parked ≡ 0))
unfolding owner_step
stuck-owner kind now p (OwnerPc.queued pickup v) e = ground arith
stuck-owner kind now p (OwnerPc.queued automobile v) e = ground arith
stuck-owner kind now p (OwnerPc.waiting pickup) e = ground arith
stuck-owner kind now p (OwnerPc.waiting automobile) e = ground arith
stuck-owner kind now p w e = ground arith

pub stuck-attendant :
    (k : VehicleType) (now : ℕ) (p : Parking) (w : AttendantPc)
    → wrong k w ≡ 0
    → attendant_step k now p w ≡ none
    → ((w ≡ watching) × (k ≡ pickup) × (p.pickups.new_vehicle ≡ 0))
      ⊎ ((w ≡ watching) × (k ≡ automobile) × (p.automobiles.new_vehicle ≡ 0))
      ⊎ ((w ≡ called) × (k ≡ pickup) × (p.pickups.in_charge ≡ 0))
      ⊎ ((w ≡ called) × (k ≡ automobile) × (p.automobiles.in_charge ≡ 0))
unfolding attendant_step
stuck-attendant pickup now p w h e = ground arith
stuck-attendant automobile now p w h e = ground arith
