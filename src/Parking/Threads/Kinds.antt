-- ===== src/Parking/Threads/Kinds.antt =====
-- The kinds of the vehicles that the attendants of Homework3/hw3.c hold, and the state of the lots.
use cse344system_programming.Prelude.{ℕ, ◌<◌, ◌≡◌, ◌≢◌, refl, none, some, arith, weight-le-total}
use cse344system_programming.Parking.Lot.{VehicleType, Vehicle}
use cse344system_programming.Parking.Lot.Kinds.{of_other_kind}
use cse344system_programming.Parking.Threads.{
  AttendantPc, taken, slot_freed, crashed, System, Reach,
}
use cse344system_programming.Parking.Threads.Tallies.{is_wrong, wrong}
use cse344system_programming.Parking.Threads.Reachable.{IsLots, Reach-Invariant}

-- An attendant that has come from the queue holds a vehicle of its kind, and none reads NULL.
abbrev pub HoldsOwn : VehicleType → AttendantPc → Type 0
HoldsOwn k (taken v) = (u : Vehicle) × (v ≡ some u) × (u.vehicle_type ≡ k)
HoldsOwn k (slot_freed v) = (u : Vehicle) × (v ≡ some u) × (u.vehicle_type ≡ k)
HoldsOwn k w = w ≢ crashed

own_kind : (k k' : VehicleType) → of_other_kind k k' ≡ 0 → k' ≡ k
own_kind k k' h = ground arith

wrong-HoldsOwn : (k : VehicleType) (w : AttendantPc) → wrong k w ≡ 0 → HoldsOwn k w
wrong-HoldsOwn k (taken none) h = absurd (omega (arith, h))
wrong-HoldsOwn k (taken (some u)) h = (u, refl, own_kind k u.vehicle_type h)
wrong-HoldsOwn k (slot_freed none) h = absurd (omega (arith, h))
wrong-HoldsOwn k (slot_freed (some u)) h = (u, refl, own_kind k u.vehicle_type h)
wrong-HoldsOwn k crashed h = absurd (omega (arith, h))
wrong-HoldsOwn k w h = λ e. cc

-- In every reachable state, an attendant that has taken a vehicle from the queue, and has not parked it yet,
-- holds a vehicle of its own kind, and none has crashed.
pub attendant-HoldsOwn :
    {n m : ℕ} {kinds : ℕ → VehicleType} {s : System} (i : ℕ)
    → Reach n m kinds s
    → i < m
    → HoldsOwn (s.attendants i).vehicle_type (s.attendants i).pc
attendant-HoldsOwn {n} {m} {kinds} {s} i run h =
    wrong-HoldsOwn (s.attendants i).vehicle_type (s.attendants i).pc (
      omega
        (arith, (Reach-Invariant run).queued.wrong, weight-le-total is_wrong s.attendants i m h))

-- In every reachable state, each of the two lots holds vehicles of its own kind only, has its places, and
-- counts the free ones right.
pub Reach-IsLots :
    {n m : ℕ} {kinds : ℕ → VehicleType} {s : System} → Reach n m kinds s → IsLots s.parking
Reach-IsLots run = (Reach-Invariant run).lots
