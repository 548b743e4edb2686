-- ===== src/Parking/Threads/Tests.antt =====
-- A pickup comes, and the attendant for pickups takes it.
use native.Mathlib.Omega.{arith}
use mathlib.Core.Path.{◌≡◌, refl}
use mathlib.Core.Option.{Option}
use Prim.Native.Nat.{ℕ, zero, suc, ◌<◌}
use cse344system_programming.Prelude.{update, ℕ_discrete, set}
use cse344system_programming.Parking.Lot.{VehicleType, pickup, automobile, Vehicle}
use cse344system_programming.Parking.Threads.{
  new_parking, nulls, OwnerPc, away, AttendantPc, Attendant, owner_step, attendant_step, System,
  owner_moves, attendant_moves, Reach, start, later,
}
use cse344system_programming.Parking.Threads.Reachable.{IsLots}
use cse344system_programming.Parking.Threads.Progress.{parking_no_deadlock}
use cse344system_programming.Parking.Threads.Kinds.{HoldsOwn, attendant-HoldsOwn, Reach-IsLots}

abbrev kinds : ℕ → VehicleType
kinds zero = pickup
kinds (suc i) = automobile

abbrev truck : Vehicle
truck = record { id = 1; vehicle_type = pickup; arrival_time = 50 }

abbrev attendant : AttendantPc → Attendant
attendant pc = record { vehicle_type = pickup; pc = pc }

abbrev watchers : ℕ → Attendant
watchers i = record { vehicle_type = kinds i; pc = AttendantPc.watching }

-- The attendant has the truck from the queue.
abbrev truck_taken : System
truck_taken = record {
  parking = record new_parking {
    vehicle_queue = set (nulls 16) 0 (Option.some truck);
    queue_front = 1;
    queue_rear = 1;
    free_slot = 15;
    arrival_lock = 0;
    next_vehicle_id = 2;
    pickups = record new_parking.pickups { in_charge = 0 };
  };
  owners =
      update
        (update
          (update (update (λ _. away) 0 (OwnerPc.arrived pickup truck)) 0
            (OwnerPc.queueing pickup truck))
          0 (OwnerPc.queued pickup truck))
        0 (OwnerPc.waiting pickup);
  attendants =
      update
        (update (update watchers 0 (attendant AttendantPc.called)) 0
          (attendant AttendantPc.in_charge))
        0 (attendant (AttendantPc.taken (Option.some truck)));
}

truck_taken-Reach : Reach 2 2 kinds truck_taken
unfolding owner_step attendant_step ℕ_discrete
truck_taken-Reach =
    later
      (later
        (later
          (later
            (later
              (later (later start (owner_moves 0 pickup 50 (omega arith) refl))
                (owner_moves 0 pickup 50 (omega arith) refl))
              (owner_moves 0 pickup 50 (omega arith) refl))
            (owner_moves 0 pickup 50 (omega arith) refl))
          (attendant_moves 0 50 (omega arith) refl))
        (attendant_moves 0 50 (omega arith) refl))
      (attendant_moves 0 50 (omega arith) refl)

attendant-HoldsOwn_example : HoldsOwn pickup (AttendantPc.taken (Option.some truck))
unfolding ℕ_discrete
attendant-HoldsOwn_example = attendant-HoldsOwn 0 truck_taken-Reach (omega arith)

Reach-IsLots_example : IsLots truck_taken.parking
Reach-IsLots_example = Reach-IsLots truck_taken-Reach

parking_no_deadlock_example : ¬ (
    ((i : ℕ)
      → i < 2
      → (kind : VehicleType) (now : ℕ)
      → owner_step kind now truck_taken.parking (truck_taken.owners i) ≡ Option.none)
    × ((i : ℕ)
        → i < 2
        → (now : ℕ)
        → attendant_step
            (truck_taken.attendants i).vehicle_type
            now
            truck_taken.parking
            (truck_taken.attendants i).pc
          ≡ Option.none))
parking_no_deadlock_example =
    parking_no_deadlock 0 1 truck_taken-Reach (omega arith) (omega arith) (omega arith) refl refl
