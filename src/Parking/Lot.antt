-- ===== src/Parking/Lot.antt =====
-- The places for one kind of vehicle in Homework3/hw3.c: `pickup_parking` with `mFree_pickup`, or
-- `automobile_parking` with `mFree_automobile`. Both are handled by the same code, once for each.
-- Callers hold `parking_lock`.
pub mod Count
pub mod Kinds
mod Tests
use cse344system_programming.Prelude.{
  ℕ, zero, suc, ◌+◌, ◌-◌, ltb, leb, if◌then◌else◌, Bool, Option, none, some, List, [], ◌∷◌,
}

-- `vehicle_type`: 0 and 1.
pub data VehicleType : Type 0 where
  pickup automobile : VehicleType

pub record Vehicle : Type 0 where
  pub id : ℕ
  pub vehicle_type : VehicleType
  pub arrival_time : ℕ

abbrev pub park_duration : ℕ
park_duration = 20

-- A place is NULL or holds a vehicle. The three numbers behind `free` are the semaphores for the kind.
pub record Lot : Type 0 where
  pub places : List (Option Vehicle)
  pub free : ℕ
  pub new_vehicle : ℕ
  pub in_charge : ℕ
  pub parked : ℕ

-- The loop of an attendant over the places: the first that is empty is taken; `none` if there is none.
unfoldable pub park_in : Vehicle → List (Option Vehicle) → Option (List (Option Vehicle))
park_in v [] = none
park_in v (none ∷ places) = some (some v ∷ places)
park_in v (some u ∷ places) = elim (park_in v places) [
  | none ↦ none
  | some rest ↦ some (some u ∷ rest)
]

-- What an attendant does with the vehicle that it has taken; without a free place the vehicle is freed.
unfoldable pub park : Vehicle → Lot → Lot
park v lot =
    if ltb 0 lot.free
    then (elim (park_in v lot.places) [
      | none ↦ lot
      | some places ↦ record lot { places = places; free = lot.free - 1 }
    ])
    else lot

-- A loop of `checkAndRemoveExpiredVehicles`: the places, and the number of vehicles removed.
unfoldable pub remove_from : (now : ℕ) → List (Option Vehicle) → List (Option Vehicle) × ℕ
remove_from now [] = ([], 0)
remove_from now (none ∷ places) =
    let (rest, removed) = remove_from now places in (none ∷ rest, removed)
remove_from now (some v ∷ places) =
    let (rest, removed) = remove_from now places in
    if leb park_duration (now - v.arrival_time)
    then (none ∷ rest, removed + 1)
    else (some v ∷ rest, removed)

unfoldable pub remove_expired : (now : ℕ) → Lot → Lot
remove_expired now lot =
    let (places, removed) = remove_from now lot.places in
    record lot { places = places; free = lot.free + removed }
