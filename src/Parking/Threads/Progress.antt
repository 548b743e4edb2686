-- ===== src/Parking/Threads/Progress.antt =====
-- Owners and attendants of Homework3/hw3.c that wait for each other.
use cse344system_programming.Prelude.{
  ℕ, ◌<◌, ◌≡◌, refl, ◌⊎◌, none, arith, weight-le-total, total_of_zeros, ◌∙◌,
}
use cse344system_programming.Parking.Lot.{VehicleType, pickup, automobile}
use cse344system_programming.Parking.Threads.{
  queue_capacity, owner_step, watching, called, attendant_step, System, owner_moves,
  attendant_moves, Reach, start, later,
}
use cse344system_programming.Parking.Threads.Tallies.{
  has_arrived, is_queueing, has_queued, is_waiting, is_called, carries, is_charged, took, is_wrong,
}
use cse344system_programming.Parking.Threads.Reachable.{Invariant, Reach-Invariant}
use cse344system_programming.Parking.Threads.Stuck.{stuck-owner, stuck-attendant}

-- An attendant keeps its kind.
Reach-kind :
    {n m : ℕ} {kinds : ℕ → VehicleType} {s : System}
    → Reach n m kinds s
    → (j : ℕ) → (s.attendants j).vehicle_type ≡ kinds j
Reach-kind start j = refl
Reach-kind (later run (owner_moves i kind now h e)) j = Reach-kind run j
Reach-kind (later run (attendant_moves i now h e)) j =
    ground (arith, Reach-kind run j, Reach-kind run i)

module _ {n m : ℕ} {kinds : ℕ → VehicleType} {s : System} (run : Reach n m kinds s) (p a : ℕ)
    (p_in : p < m) (a_in : a < m) (p_kind : kinds p ≡ pickup) (a_kind : kinds a ≡ automobile)
    (owners_stuck : (i : ℕ)
      → i < n
      → (kind : VehicleType) (now : ℕ) → owner_step kind now s.parking (s.owners i) ≡ none)
    (attendants_stuck : (i : ℕ)
      → i < m
      → (now : ℕ)
      → attendant_step (s.attendants i).vehicle_type now s.parking (s.attendants i).pc ≡ none) where
  invariant : Invariant n m s
  invariant = Reach-Invariant run

  attendant_stuck :
      (i : ℕ)
      → i < m
      → (((s.attendants i).pc ≡ watching)
          × ((s.attendants i).vehicle_type ≡ pickup)
          × (s.parking.pickups.new_vehicle ≡ 0))
        ⊎ (((s.attendants i).pc ≡ watching)
            × ((s.attendants i).vehicle_type ≡ automobile)
            × (s.parking.automobiles.new_vehicle ≡ 0))
        ⊎ (((s.attendants i).pc ≡ called)
            × ((s.attendants i).vehicle_type ≡ pickup)
            × (s.parking.pickups.in_charge ≡ 0))
        ⊎ (((s.attendants i).pc ≡ called)
            × ((s.attendants i).vehicle_type ≡ automobile)
            × (s.parking.automobiles.in_charge ≡ 0))
  attendant_stuck i h =
      stuck-attendant (s.attendants i).vehicle_type 0 s.parking (s.attendants i).pc
        (omega (arith, invariant.queued.wrong, weight-le-total is_wrong s.attendants i m h))
        (attendants_stuck i h 0)

  -- Nobody is in charge, and so nobody waits to be.
  nobody_charged :
      (i : ℕ)
      → i < m
      → (is_charged pickup (s.attendants i) ≡ 0) × (is_charged automobile (s.attendants i) ≡ 0)
  nobody_charged i h = ground (arith, attendant_stuck i h)

  nobody_carries :
      (i : ℕ)
      → i < m
      → (carries pickup (s.attendants i) ≡ 0)
        × (carries automobile (s.attendants i) ≡ 0)
        × (took (s.attendants i) ≡ 0)
  nobody_carries i h = ground (arith, attendant_stuck i h)

  pickups_charge : s.parking.pickups.in_charge ≡ 1
  pickups_charge = omega (
    arith,
    invariant.control.pickup_charge,
    total_of_zeros (is_charged pickup) s.attendants m (λ i h. (nobody_charged i h).0),
  )

  automobiles_charge : s.parking.automobiles.in_charge ≡ 1
  automobiles_charge = omega (
    arith,
    invariant.control.automobile_charge,
    total_of_zeros (is_charged automobile) s.attendants m (λ i h. (nobody_charged i h).1),
  )

  nobody_called :
      (i : ℕ)
      → i < m
      → (is_called pickup (s.attendants i) ≡ 0) × (is_called automobile (s.attendants i) ≡ 0)
  nobody_called i h = ground (arith, attendant_stuck i h, pickups_charge, automobiles_charge)

  no_new_pickup : s.parking.pickups.new_vehicle ≡ 0
  no_new_pickup = ground (arith, attendant_stuck p p_in, Reach-kind run p ∙ p_kind, pickups_charge)

  no_new_automobile : s.parking.automobiles.new_vehicle ≡ 0
  no_new_automobile =
      ground (arith, attendant_stuck a a_in, Reach-kind run a ∙ a_kind, automobiles_charge)

  nobody_waits :
      (i : ℕ)
      → i < n
      → (is_waiting pickup (s.owners i) ≡ 0) × (is_waiting automobile (s.owners i) ≡ 0)
  nobody_waits i h = ground (
    arith,
    invariant.control.pickups,
    invariant.control.automobiles,
    no_new_pickup,
    no_new_automobile,
    total_of_zeros (is_called pickup) s.attendants m (λ i h. (nobody_called i h).0),
    total_of_zeros (is_called automobile) s.attendants m (λ i h. (nobody_called i h).1),
    total_of_zeros (carries pickup) s.attendants m (λ i h. (nobody_carries i h).0),
    total_of_zeros (carries automobile) s.attendants m (λ i h. (nobody_carries i h).1),
    stuck-owner pickup 0 s.parking (s.owners i) (owners_stuck i h pickup 0),
    weight-le-total (is_waiting pickup) s.owners i n h,
    weight-le-total (is_waiting automobile) s.owners i n h,
  )

  none_put :
      (i : ℕ)
      → i < n
      → (is_queueing (s.owners i) ≡ 0)
        × (has_queued pickup (s.owners i) ≡ 0)
        × (has_queued automobile (s.owners i) ≡ 0)
  none_put i h =
      ground (arith, stuck-owner pickup 0 s.parking (s.owners i) (owners_stuck i h pickup 0))

  free_slots : s.parking.free_slot ≡ queue_capacity
  free_slots = omega (
    arith,
    invariant.control.slots,
    no_new_pickup,
    no_new_automobile,
    total_of_zeros (is_called pickup) s.attendants m (λ i h. (nobody_called i h).0),
    total_of_zeros (is_called automobile) s.attendants m (λ i h. (nobody_called i h).1),
    total_of_zeros took s.attendants m (λ i h. (nobody_carries i h).2),
    total_of_zeros is_queueing s.owners n (λ i h. (none_put i h).0),
    total_of_zeros (has_queued pickup) s.owners n (λ i h. (none_put i h).1),
    total_of_zeros (has_queued automobile) s.owners n (λ i h. (none_put i h).2),
  )

  none_arrived : (i : ℕ) → i < n → has_arrived (s.owners i) ≡ 0
  none_arrived i h =
      ground
        (arith, free_slots, stuck-owner pickup 0 s.parking (s.owners i) (owners_stuck i h pickup 0))

  lock_free : s.parking.arrival_lock ≡ 1
  lock_free = omega (
    arith,
    invariant.control.lock,
    total_of_zeros has_arrived s.owners n none_arrived,
    total_of_zeros is_queueing s.owners n (λ i h. (none_put i h).0),
    total_of_zeros (has_queued pickup) s.owners n (λ i h. (none_put i h).1),
    total_of_zeros (has_queued automobile) s.owners n (λ i h. (none_put i h).2),
    total_of_zeros (is_waiting pickup) s.owners n (λ i h. (nobody_waits i h).0),
    total_of_zeros (is_waiting automobile) s.owners n (λ i h. (nobody_waits i h).1),
  )

  no_owners : (i : ℕ) → ¬ (i < n)
  no_owners i h = ground (
    arith,
    lock_free,
    free_slots,
    nobody_waits i h,
    none_arrived i h,
    stuck-owner pickup 0 s.parking (s.owners i) (owners_stuck i h pickup 0),
  )

-- There is no deadlock: with an owner and an attendant of each kind, some thread can move in every
-- reachable state.
pub parking_no_deadlock :
    {n m : ℕ} {kinds : ℕ → VehicleType} {s : System} (p a : ℕ)
    → Reach n m kinds s
    → 0 < n
    → p < m
    → a < m
    → kinds p ≡ pickup
    → kinds a ≡ automobile
    → ¬ (
        ((i : ℕ)
          → i < n
          → (kind : VehicleType) (now : ℕ) → owner_step kind now s.parking (s.owners i) ≡ none)
        × ((i : ℕ)
            → i < m
            → (now : ℕ)
            → attendant_step (s.attendants i).vehicle_type now s.parking (s.attendants i).pc
              ≡ none))
parking_no_deadlock p a run pos p_in a_in p_kind a_kind (owners, attendants) =
    no_owners run p a p_in a_in p_kind a_kind owners attendants 0 pos
