-- ===== src/Parking/Threads/Control.antt =====
-- What the threads of Homework3/hw3.c do to the semaphores and the vehicles under way.
use cse344system_programming.Prelude.{
  ℕ, ◌+◌, ◌%◌, ◌≡◌, refl, ◌⊎◌, Option, none, some, List, arith, get_or,
}
use cse344system_programming.Parking.Lot.{
  VehicleType, pickup, automobile, Vehicle, Lot, park, remove_expired,
}
use cse344system_programming.Parking.Threads.{
  Parking, queue_capacity, OwnerPc, away, arrived, queueing, queued, waiting, owner_step,
  AttendantPc, slot_freed, finished, checking, attendant_step,
}
use cse344system_programming.Parking.Threads.Tallies.{
  OwnerMoved, AttendantMoved, Owners, Attendants,
}

-- The vehicles of a kind that are in the queue.
abbrev pub pickups_in_queue : Parking → Owners → Attendants → ℕ
pickups_in_queue p o a = o.queued_pickups + p.pickups.new_vehicle + a.called_pickups

abbrev pub automobiles_in_queue : Parking → Owners → Attendants → ℕ
automobiles_in_queue p o a = o.queued_automobiles + p.automobiles.new_vehicle + a.called_automobiles

pub record Control (p : Parking) (o : Owners) (a : Attendants) : Type 0 where
  -- one owner at a time has a vehicle under way
  pub lock :
      p.arrival_lock + o.arrived + o.queueing + o.queued_pickups + o.queued_automobiles
        + o.waiting_pickups + o.waiting_automobiles
      ≡ 1
  -- who waits is waited on
  pub pickups :
      p.pickups.new_vehicle + a.called_pickups + a.carried_pickups + p.pickups.parked
      ≡ o.waiting_pickups
  pub automobiles :
      p.automobiles.new_vehicle + a.called_automobiles + a.carried_automobiles
        + p.automobiles.parked
      ≡ o.waiting_automobiles
  pub pickup_charge : p.pickups.in_charge + a.charged_pickups ≡ 1
  pub automobile_charge : p.automobiles.in_charge + a.charged_automobiles ≡ 1
  pub slots :
      p.free_slot + o.queueing + pickups_in_queue p o a + automobiles_in_queue p o a + a.took
      ≡ queue_capacity
  pub astray : o.astray ≡ 0

-- The queue holds no vehicle, or one at its front, of the kind that the count says.
abbrev pub InQueue : List (Option Vehicle) → ℕ → ℕ → ℕ → ℕ → Type 0
InQueue cells front rear pickups automobiles =
    (let holds : VehicleType → Type 0 = λ k.
        (v : Vehicle) × (get_or cells front none ≡ some v)
        × (v.vehicle_type ≡ k)
        × (rear ≡ (front + 1) % queue_capacity) in
      ((pickups ≡ 0) × (automobiles ≡ 0) × (rear ≡ front))
      ⊎ ((pickups ≡ 1) × (automobiles ≡ 0) × holds pickup)
      ⊎ ((pickups ≡ 0) × (automobiles ≡ 1) × holds automobile))

pub owner-Control :
    (kind : VehicleType) (now : ℕ) (p p' : Parking) (w w' : OwnerPc) (o o' : Owners)
    (a : Attendants)
    → Control p o a
    → OwnerMoved o o' w w'
    → owner_step kind now p w ≡ some (p', w')
    → Control p' o' a
unfolding owner_step
owner-Control pickup now p p' away w' o o' a c m e = ground arith
owner-Control automobile now p p' away w' o o' a c m e = ground arith
owner-Control kind now p p' (arrived k v) w' o o' a c m e = ground arith
owner-Control kind now p p' (queueing pickup v) w' o o' a c m e = ground arith
owner-Control kind now p p' (queueing automobile v) w' o o' a c m e = ground arith
owner-Control kind now p p' (queued pickup v) w' o o' a c m e = ground arith
owner-Control kind now p p' (queued automobile v) w' o o' a c m e = ground arith
owner-Control kind now p p' (waiting pickup) w' o o' a c m e = ground arith
owner-Control kind now p p' (waiting automobile) w' o o' a c m e = ground arith

-- Parking and removing leave the semaphores as they are.
pub record SameSemaphores (l l' : Lot) : Type 0 where
  pub new_vehicle : l'.new_vehicle ≡ l.new_vehicle
  pub in_charge : l'.in_charge ≡ l.in_charge
  pub parked : l'.parked ≡ l.parked

pub park-SameSemaphores : (v : Vehicle) (l : Lot) → SameSemaphores l (park v l)
unfolding park
park-SameSemaphores v l = ground arith

pub remove_expired-SameSemaphores : (now : ℕ) (l : Lot) → SameSemaphores l (remove_expired now l)
unfolding remove_expired
remove_expired-SameSemaphores now l = record { new_vehicle = refl; in_charge = refl; parked = refl }

pub attendant-Control :
    (k : VehicleType) (now : ℕ) (p p' : Parking) (w w' : AttendantPc) (o : Owners)
    (a a' : Attendants)
    → Control p o a
    → AttendantMoved a a'
        (record { vehicle_type = k; pc = w })
        (record { vehicle_type = k; pc = w' })
    → attendant_step k now p w ≡ some (p', w')
    → Control p' o a'
unfolding attendant_step
attendant-Control pickup now p p' (slot_freed (some v)) w' o a a' c m e =
    let s = park-SameSemaphores v p.pickups in ground (arith, s.new_vehicle, s.in_charge, s.parked)
attendant-Control automobile now p p' (slot_freed (some v)) w' o a a' c m e =
    let s = park-SameSemaphores v p.automobiles in
    ground (arith, s.new_vehicle, s.in_charge, s.parked)
attendant-Control pickup now p p' finished w' o a a' c m e =
    let s = remove_expired-SameSemaphores now p.pickups in
    ground (arith, s.new_vehicle, s.in_charge, s.parked)
attendant-Control automobile now p p' finished w' o a a' c m e =
    let s = remove_expired-SameSemaphores now p.pickups in
    ground (arith, s.new_vehicle, s.in_charge, s.parked)
attendant-Control pickup now p p' (checking t) w' o a a' c m e =
    let s = remove_expired-SameSemaphores t p.automobiles in
    ground (arith, s.new_vehicle, s.in_charge, s.parked)
attendant-Control automobile now p p' (checking t) w' o a a' c m e =
    let s = remove_expired-SameSemaphores t p.automobiles in
    ground (arith, s.new_vehicle, s.in_charge, s.parked)
attendant-Control pickup now p p' w w' o a a' c m e = ground arith
attendant-Control automobile now p p' w w' o a a' c m e = ground arith
