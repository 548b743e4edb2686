-- ===== src/Parking/Threads.antt =====
-- `carOwner` and `carAttendant` of Homework3/hw3.c, with the semaphores and the queue between them. A step
-- is one call on a semaphore or what is done under one lock; any owner and any attendant may be the next to
-- move. The semaphores of a kind stand in its lot. `next_vehicle_id` is not bounded here. The printing and
-- the sleeping are left out, and `handle_signal`, which ends the program.
pub mod Tallies
pub mod Control
pub mod Places
pub mod Queue
pub mod Reachable
pub mod Kinds
pub mod Stuck
pub mod Progress
mod Tests
use cse344system_programming.Prelude.{
  ℕ, zero, suc, ◌+◌, ◌-◌, ◌%◌, ◌<◌, ◌≡◌, ltb, if◌then◌else◌, Option, none, some, List, [], ◌∷◌,
  get_or, set, update,
}
use cse344system_programming.Parking.Lot.{
  VehicleType, pickup, automobile, Vehicle, Lot, park, remove_expired,
}

abbrev pub queue_capacity : ℕ
queue_capacity = 16

abbrev pub pickup_capacity : ℕ
pickup_capacity = 8

abbrev pub automobile_capacity : ℕ
automobile_capacity = 4

-- The globals. `arrival_lock` is 1 while `vehicle_arrival_lock` is free.
pub record Parking : Type 0 where
  pub vehicle_queue : List (Option Vehicle)
  pub queue_front : ℕ
  pub queue_rear : ℕ
  pub free_slot : ℕ
  pub arrival_lock : ℕ
  pub next_vehicle_id : ℕ
  pub pickups : Lot
  pub automobiles : Lot

abbrev pub lot_of : VehicleType → Parking → Lot
lot_of pickup p = p.pickups
lot_of automobile p = p.automobiles

abbrev pub with_lot : VehicleType → Lot → Parking → Parking
with_lot pickup l p = record p { pickups = l }
with_lot automobile l p = record p { automobiles = l }

-- Where an owner stands: between two vehicles; with the lock and a vehicle, before freeSlot; behind it;
-- with the vehicle in the queue; and behind the post, before the wait for the attendant.
pub data OwnerPc : Type 0 where
  away : OwnerPc
  arrived queueing queued : (vehicle_type : VehicleType) (vehicle : Vehicle) → OwnerPc
  waiting : (vehicle_type : VehicleType) → OwnerPc

-- An owner's next step, with what `rand` and `time` answer.
unfoldable pub owner_step :
    (kind : VehicleType) (now : ℕ) → Parking → OwnerPc → Option (Parking × OwnerPc)
owner_step kind now p away =
    if ltb 0 p.arrival_lock
    then some (
      record p { arrival_lock = p.arrival_lock - 1; next_vehicle_id = p.next_vehicle_id + 1 },
      arrived kind (record { id = p.next_vehicle_id; vehicle_type = kind; arrival_time = now }),
    )
    else none
owner_step kind now p (arrived k v) =
    if ltb 0 p.free_slot
    then some (record p { free_slot = p.free_slot - 1 }, queueing k v)
    else none
owner_step kind now p (queueing k v) = some (
  record p {
    vehicle_queue = set p.vehicle_queue p.queue_rear (some v);
    queue_rear = (p.queue_rear + 1) % queue_capacity;
  },
  queued k v,
)
owner_step kind now p (queued k v) =
    let lot : Lot = lot_of k p in
    some (with_lot k (record lot { new_vehicle = lot.new_vehicle + 1 }) p, waiting k)
owner_step kind now p (waiting k) =
    let lot : Lot = lot_of k p in
    if ltb 0 lot.parked
    then some (
      with_lot k (record lot { parked = lot.parked - 1 })
          (record p { arrival_lock = p.arrival_lock + 1 }),
      away,
    )
    else none

-- Where an attendant stands: before newPickup, before inChargeforPickup, in charge, with the vehicle from
-- the queue, behind the post on freeSlot, behind the parking, behind inChargeforPickup, behind pickupDone,
-- and between the two loops of checkAndRemoveExpiredVehicles. It crashes where it reads the id of NULL.
pub data AttendantPc : Type 0 where
  watching called in_charge : AttendantPc
  taken slot_freed : (vehicle : Option Vehicle) → AttendantPc
  placed released finished : AttendantPc
  checking : (current_time : ℕ) → AttendantPc
  crashed : AttendantPc

unfoldable pub attendant_step :
    (vehicle_type : VehicleType) (now : ℕ) → Parking → AttendantPc → Option (Parking × AttendantPc)
attendant_step k now p watching =
    let lot : Lot = lot_of k p in
    if ltb 0 lot.new_vehicle
    then some (with_lot k (record lot { new_vehicle = lot.new_vehicle - 1 }) p, called)
    else none
attendant_step k now p called =
    let lot : Lot = lot_of k p in
    if ltb 0 lot.in_charge
    then some (with_lot k (record lot { in_charge = lot.in_charge - 1 }) p, in_charge)
    else none
attendant_step k now p in_charge = some (
  record p { queue_front = (p.queue_front + 1) % queue_capacity },
  taken (get_or p.vehicle_queue p.queue_front none),
)
attendant_step k now p (taken v) = some (record p { free_slot = p.free_slot + 1 }, slot_freed v)
attendant_step k now p (slot_freed none) =
    if ltb 0 (lot_of k p).free then some (p, crashed) else some (p, placed)
attendant_step k now p (slot_freed (some v)) = some (with_lot k (park v (lot_of k p)) p, placed)
attendant_step k now p placed =
    let lot : Lot = lot_of k p in
    some (with_lot k (record lot { in_charge = lot.in_charge + 1 }) p, released)
attendant_step k now p released =
    let lot : Lot = lot_of k p in
    some (with_lot k (record lot { parked = lot.parked + 1 }) p, finished)
attendant_step k now p finished =
    some (record p { pickups = remove_expired now p.pickups }, checking now)
attendant_step k now p (checking current_time) =
    some (record p { automobiles = remove_expired current_time p.automobiles }, watching)
attendant_step k now p crashed = none

-- An attendant has its kind from its argument.
pub record Attendant : Type 0 where
  pub vehicle_type : VehicleType
  pub pc : AttendantPc

pub record System : Type 0 where
  pub parking : Parking
  pub owners : ℕ → OwnerPc
  pub attendants : ℕ → Attendant

pub data Step (num_owners num_attendants : ℕ) (s : System) : System → Type 0 where
  owner_moves :
      (i : ℕ) (kind : VehicleType) (now : ℕ) {p : Parking} {pc : OwnerPc}
      → i < num_owners
      → owner_step kind now s.parking (s.owners i) ≡ some (p, pc)
      → Step num_owners num_attendants s
          (record { parking = p; owners = update s.owners i pc; attendants = s.attendants })
  attendant_moves :
      (i now : ℕ) {p : Parking} {pc : AttendantPc}
      → i < num_attendants
      → attendant_step (s.attendants i).vehicle_type now s.parking (s.attendants i).pc
        ≡ some (p, pc)
      → Step num_owners num_attendants s (record {
        parking = p;
        owners = s.owners;
        attendants =
            update s.attendants i
              (record { vehicle_type = (s.attendants i).vehicle_type; pc = pc });
      })

abbrev pub nulls : ℕ → List (Option Vehicle)
nulls zero = []
nulls (suc n) = none ∷ nulls n

abbrev pub empty_lot : List (Option Vehicle) → ℕ → Lot
empty_lot places capacity = record {
  places = places;
  free = capacity;
  new_vehicle = 0;
  in_charge = 1;
  parked = 0;
}

-- `main` has one attendant for each kind and two owners; `kinds` are the kinds of the attendants.
abbrev pub new_parking : Parking
new_parking = record {
  vehicle_queue = nulls 16;
  queue_front = 0;
  queue_rear = 0;
  free_slot = queue_capacity;
  arrival_lock = 1;
  next_vehicle_id = 1;
  pickups = empty_lot (nulls 8) pickup_capacity;
  automobiles = empty_lot (nulls 4) automobile_capacity;
}

pub data Reach (num_owners num_attendants : ℕ) (kinds : ℕ → VehicleType) : System → Type 0 where
  start : Reach num_owners num_attendants kinds (record {
    parking = new_parking;
    owners = λ _. away;
    attendants = λ i. record { vehicle_type = kinds i; pc = watching };
  })
  later :
      {s t : System}
      → Reach num_owners num_attendants kinds s
      → Step num_owners num_attendants s t
      → Reach num_owners num_attendants kinds t
