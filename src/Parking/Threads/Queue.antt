-- ===== src/Parking/Threads/Queue.antt =====
-- The steps of owners and attendants on `vehicle_queue` of Homework3/hw3.c.
use cse344system_programming.Prelude.{
  ℕ, ◌+◌, ◌%◌, ◌<◌, ◌≤◌, ◌≡◌, refl, ◌∙◌, none, some, arith, get_or, set, length, length-set,
}
use cse344system_programming.Parking.Lot.{VehicleType, pickup, automobile, Vehicle}
use cse344system_programming.Parking.Lot.Kinds.{of_other_kind}
use cse344system_programming.Parking.Threads.{
  Parking, queue_capacity, OwnerPc, away, arrived, queueing, queued, waiting, owner_step,
  AttendantPc, in_charge, taken, slot_freed, finished, checking, attendant_step,
}
use cse344system_programming.Parking.Threads.Control.{
  Control, InQueue, pickups_in_queue, automobiles_in_queue, park-SameSemaphores,
  remove_expired-SameSemaphores,
}
use cse344system_programming.Parking.Threads.Tallies.{
  OwnerMoved, AttendantMoved, Owners, Attendants, is_queueing, is_astray, wrong, of_kind, for_kind,
}
use cse344system_programming.Parking.Threads.Places.{put-InQueue, take-InQueue}

-- The queue and the vehicles that are taken from it.
pub record Queued (p : Parking) (o : Owners) (a : Attendants) : Type 0 where
  pub in_queue :
      InQueue p.vehicle_queue p.queue_front p.queue_rear
        (pickups_in_queue p o a)
        (automobiles_in_queue p o a)
  pub front_in : p.queue_front < queue_capacity
  pub cells : length p.vehicle_queue ≡ queue_capacity
  pub wrong : a.wrong ≡ 0

-- Another step leaves the queue and the number in it.
record Unmoved (p p' : Parking) (o o' : Owners) (a a' : Attendants) : Type 0 where
  vehicle_queue : p'.vehicle_queue ≡ p.vehicle_queue
  queue_front : p'.queue_front ≡ p.queue_front
  queue_rear : p'.queue_rear ≡ p.queue_rear
  pickups : pickups_in_queue p' o' a' ≡ pickups_in_queue p o a
  automobiles : automobiles_in_queue p' o' a' ≡ automobiles_in_queue p o a
  wrong : a'.wrong ≤ a.wrong

Unmoved-Queued :
    (p p' : Parking) (o o' : Owners) (a a' : Attendants)
    → Queued p o a
    → Unmoved p p' o o' a a'
    → Queued p' o' a'
Unmoved-Queued p p' o o' a a' q u = record {
  in_queue = rw (u.vehicle_queue, u.queue_front, u.queue_rear, u.pickups, u.automobiles) q.in_queue;
  front_in = rw u.queue_front q.front_in;
  cells = rw u.vehicle_queue q.cells;
  wrong = omega (arith, u.wrong, q.wrong);
}

owner-Unmoved :
    (kind : VehicleType) (now : ℕ) (p p' : Parking) (w w' : OwnerPc) (o o' : Owners)
    (a : Attendants)
    → is_queueing w ≡ 0
    → OwnerMoved o o' w w'
    → owner_step kind now p w ≡ some (p', w')
    → Unmoved p p' o o' a a
unfolding owner_step
owner-Unmoved pickup now p p' away w' o o' a h m e = ground arith
owner-Unmoved automobile now p p' away w' o o' a h m e = ground arith
owner-Unmoved kind now p p' (arrived k v) w' o o' a h m e = ground arith
owner-Unmoved kind now p p' (queueing k v) w' o o' a h m e = ground arith
owner-Unmoved kind now p p' (queued pickup v) w' o o' a h m e = ground arith
owner-Unmoved kind now p p' (queued automobile v) w' o o' a h m e = ground arith
owner-Unmoved kind now p p' (waiting pickup) w' o o' a h m e = ground arith
owner-Unmoved kind now p p' (waiting automobile) w' o o' a h m e = ground arith

record Put (v : Vehicle) (k : VehicleType) (p p' : Parking) (o o' : Owners) (a : Attendants)
    : Type 0 where
  no_pickups : pickups_in_queue p o a ≡ 0
  no_automobiles : automobiles_in_queue p o a ≡ 0
  pickups : pickups_in_queue p' o' a ≡ of_kind pickup k
  automobiles : automobiles_in_queue p' o' a ≡ of_kind automobile k
  vehicle_queue : p'.vehicle_queue ≡ set p.vehicle_queue p.queue_rear (some v)
  queue_front : p'.queue_front ≡ p.queue_front
  queue_rear : p'.queue_rear ≡ (p.queue_rear + 1) % queue_capacity

queueing-Put :
    (kind k : VehicleType) (v : Vehicle) (now : ℕ) (p p' : Parking) (w' : OwnerPc) (o o' : Owners)
    (a : Attendants)
    → Control p o a
    → OwnerMoved o o' (queueing k v) w'
    → owner_step kind now p (queueing k v) ≡ some (p', w')
    → Put v k p p' o o' a
unfolding owner_step
queueing-Put kind pickup v now p p' w' o o' a c m e = ground arith
queueing-Put kind automobile v now p p' w' o o' a c m e = ground arith

same_kind : (k k' : VehicleType) → of_other_kind k' k ≡ 0 → k ≡ k'
same_kind k k' h = ground arith

-- An owner puts its vehicle into the empty queue.
Put-Queued :
    (k : VehicleType) (v : Vehicle) (p p' : Parking) (o o' : Owners) (a : Attendants)
    → v.vehicle_type ≡ k
    → Queued p o a
    → Put v k p p' o o' a
    → Queued p' o' a
Put-Queued k v p p' o o' a h q u = record {
  in_queue =
      rw (u.vehicle_queue, u.queue_front, u.queue_rear, u.pickups, u.automobiles)
        (put-InQueue p.vehicle_queue p.queue_front p.queue_rear k v (pickups_in_queue p o a)
          (automobiles_in_queue p o a) u.no_pickups u.no_automobiles q.in_queue q.front_in q.cells
          h);
  front_in = rw u.queue_front q.front_in;
  cells = rw u.vehicle_queue (length-set p.vehicle_queue p.queue_rear (some v) ∙ q.cells);
  wrong = q.wrong;
}

record Taken (k : VehicleType) (p p' : Parking) (o : Owners) (a a' : Attendants) : Type 0 where
  some_in :
      0
      < for_kind k pickup (pickups_in_queue p o a)
        + for_kind k automobile (automobiles_in_queue p o a)
  pickups : pickups_in_queue p' o a' ≡ 0
  automobiles : automobiles_in_queue p' o a' ≡ 0
  vehicle_queue : p'.vehicle_queue ≡ p.vehicle_queue
  queue_front : p'.queue_front ≡ (p.queue_front + 1) % queue_capacity
  queue_rear : p'.queue_rear ≡ p.queue_rear
  wrong : a'.wrong ≡ a.wrong + wrong k (taken (get_or p.vehicle_queue p.queue_front none))

in_charge-Taken :
    (k : VehicleType) (now : ℕ) (p p' : Parking) (w' : AttendantPc) (o : Owners) (a a' : Attendants)
    → Control p o a
    → AttendantMoved a a'
        (record { vehicle_type = k; pc = in_charge })
        (record { vehicle_type = k; pc = w' })
    → attendant_step k now p in_charge ≡ some (p', w')
    → Taken k p p' o a a'
unfolding attendant_step
in_charge-Taken pickup now p p' w' o a a' c m e = ground arith
in_charge-Taken automobile now p p' w' o a a' c m e = ground arith

-- An attendant takes a vehicle of its kind, and leaves the queue empty.
Taken-Queued :
    (k : VehicleType) (p p' : Parking) (o : Owners) (a a' : Attendants)
    → Queued p o a
    → Taken k p p' o a a'
    → Queued p' o a'
Taken-Queued k p p' o a a' q u =
    let (right, rest) =
      take-InQueue p.vehicle_queue p.queue_front p.queue_rear (pickups_in_queue p o a)
        (automobiles_in_queue p o a) k q.in_queue u.some_in in
    record {
      in_queue = rw (u.vehicle_queue, u.queue_front, u.queue_rear, u.pickups, u.automobiles) rest;
      front_in = omega (arith, u.queue_front);
      cells = rw u.vehicle_queue q.cells;
      wrong = u.wrong ∙ omega (arith, right, q.wrong);
    }

abbrev is_in_charge : AttendantPc → ℕ
is_in_charge in_charge = 1
is_in_charge _ = 0

attendant-Unmoved :
    (k : VehicleType) (now : ℕ) (p p' : Parking) (w w' : AttendantPc) (o : Owners)
    (a a' : Attendants)
    → is_in_charge w ≡ 0
    → AttendantMoved a a'
        (record { vehicle_type = k; pc = w })
        (record { vehicle_type = k; pc = w' })
    → attendant_step k now p w ≡ some (p', w')
    → Unmoved p p' o o a a'
unfolding attendant_step
attendant-Unmoved pickup now p p' (slot_freed (some v)) w' o a a' h m e =
    let s = park-SameSemaphores v p.pickups in ground (arith, s.new_vehicle)
attendant-Unmoved automobile now p p' (slot_freed (some v)) w' o a a' h m e =
    let s = park-SameSemaphores v p.automobiles in ground (arith, s.new_vehicle)
attendant-Unmoved pickup now p p' finished w' o a a' h m e =
    let s = remove_expired-SameSemaphores now p.pickups in ground (arith, s.new_vehicle)
attendant-Unmoved automobile now p p' finished w' o a a' h m e =
    let s = remove_expired-SameSemaphores now p.pickups in ground (arith, s.new_vehicle)
attendant-Unmoved pickup now p p' (checking t) w' o a a' h m e =
    let s = remove_expired-SameSemaphores t p.automobiles in ground (arith, s.new_vehicle)
attendant-Unmoved automobile now p p' (checking t) w' o a a' h m e =
    let s = remove_expired-SameSemaphores t p.automobiles in ground (arith, s.new_vehicle)
attendant-Unmoved pickup now p p' w w' o a a' h m e = ground arith
attendant-Unmoved automobile now p p' w w' o a a' h m e = ground arith

pub owner-Queued :
    (kind : VehicleType) (now : ℕ) (p p' : Parking) (w w' : OwnerPc) (o o' : Owners)
    (a : Attendants)
    → is_astray w ≡ 0
    → Control p o a
    → Queued p o a
    → OwnerMoved o o' w w'
    → owner_step kind now p w ≡ some (p', w')
    → Queued p' o' a
owner-Queued kind now p p' (queueing k v) w' o o' a h c q m e =
    Put-Queued k v p p' o o' a (same_kind v.vehicle_type k h) q
      (queueing-Put kind k v now p p' w' o o' a c m e)
owner-Queued kind now p p' w w' o o' a h c q m e =
    Unmoved-Queued p p' o o' a a q (owner-Unmoved kind now p p' w w' o o' a refl m e)

pub attendant-Queued :
    (k : VehicleType) (now : ℕ) (p p' : Parking) (w w' : AttendantPc) (o : Owners)
    (a a' : Attendants)
    → Control p o a
    → Queued p o a
    → AttendantMoved a a'
        (record { vehicle_type = k; pc = w })
        (record { vehicle_type = k; pc = w' })
    → attendant_step k now p w ≡ some (p', w')
    → Queued p' o a'
attendant-Queued k now p p' in_charge w' o a a' c q m e =
    Taken-Queued k p p' o a a' q (in_charge-Taken k now p p' w' o a a' c m e)
attendant-Queued k now p p' w w' o a a' c q m e =
    Unmoved-Queued p p' o o a a' q (attendant-Unmoved k now p p' w w' o a a' refl m e)
