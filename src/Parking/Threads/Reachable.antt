-- ===== src/Parking/Threads/Reachable.antt =====
-- The reachable states of the threads of Homework3/hw3.c.
use cse344system_programming.Prelude.{
  ℕ, ◌≡◌, refl, inl, some, arith, update, total, weight-le-total, total-eq-zero, total_of_zeros,
}
use cse344system_programming.Parking.Lot.{VehicleType, pickup, automobile, park, remove_expired}
use cse344system_programming.Parking.Lot.Kinds.{
  IsLot, park-IsLot, remove_expired-IsLot, SamePlaces, SamePlaces-IsLot,
}
use cse344system_programming.Parking.Threads.Queue.{Queued, owner-Queued, attendant-Queued}
use cse344system_programming.Parking.Threads.{
  Parking, new_parking, pickup_capacity, automobile_capacity, OwnerPc, away, queued, waiting,
  owner_step, AttendantPc, watching, slot_freed, finished, checking, attendant_step, Attendant,
  System, owner_moves, attendant_moves, Reach, start, later,
}
use cse344system_programming.Parking.Threads.Control.{Control, owner-Control, attendant-Control}
use cse344system_programming.Parking.Threads.Tallies.{
  update-OwnerMoved, update-AttendantMoved, owners_tally, attendants_tally, has_arrived,
  is_queueing, has_queued, is_waiting, is_astray, is_called, carries, is_charged, took, is_wrong,
  wrong, for_kind,
}

-- Each lot has its vehicles, and their count.
pub record IsLots (p : Parking) : Type 0 where
  pub pickups : IsLot pickup pickup_capacity p.pickups
  pub automobiles : IsLot automobile automobile_capacity p.automobiles

record SameLots (p p' : Parking) : Type 0 where
  pickups : SamePlaces p.pickups p'.pickups
  automobiles : SamePlaces p.automobiles p'.automobiles

SameLots-IsLots : (p p' : Parking) → IsLots p → SameLots p p' → IsLots p'
SameLots-IsLots p p' l s = record {
  pickups = SamePlaces-IsLot pickup pickup_capacity p.pickups p'.pickups l.pickups s.pickups;
  automobiles =
      SamePlaces-IsLot automobile automobile_capacity p.automobiles p'.automobiles l.automobiles
        s.automobiles;
}

owner-SameLots :
    (kind : VehicleType) (now : ℕ) (p p' : Parking) (w w' : OwnerPc)
    → owner_step kind now p w ≡ some (p', w')
    → SameLots p p'
unfolding owner_step
owner-SameLots kind now p p' (queued pickup v) w' e = ground arith
owner-SameLots kind now p p' (queued automobile v) w' e = ground arith
owner-SameLots kind now p p' (waiting pickup) w' e = ground arith
owner-SameLots kind now p p' (waiting automobile) w' e = ground arith
owner-SameLots kind now p p' w w' e = ground arith

attendant-IsLots :
    (k : VehicleType) (now : ℕ) (p p' : Parking) (w w' : AttendantPc)
    → IsLots p
    → wrong k w ≡ 0
    → attendant_step k now p w ≡ some (p', w')
    → IsLots p'
unfolding attendant_step
attendant-IsLots pickup now p p' (slot_freed (some v)) w' l h e =
    let q : p' ≡ record p { pickups = park v p.pickups } = ground arith in
    rw q (record {
      pickups = park-IsLot pickup pickup_capacity v p.pickups l.pickups h;
      automobiles = l.automobiles;
    })
attendant-IsLots automobile now p p' (slot_freed (some v)) w' l h e =
    let q : p' ≡ record p { automobiles = park v p.automobiles } = ground arith in
    rw q (record {
      pickups = l.pickups;
      automobiles = park-IsLot automobile automobile_capacity v p.automobiles l.automobiles h;
    })
attendant-IsLots k now p p' finished w' l h e =
    let q : p' ≡ record p { pickups = remove_expired now p.pickups } = ground arith in
    rw q (record {
      pickups = remove_expired-IsLot pickup pickup_capacity now p.pickups l.pickups;
      automobiles = l.automobiles;
    })
attendant-IsLots k now p p' (checking t) w' l h e =
    let q : p' ≡ record p { automobiles = remove_expired t p.automobiles } = ground arith in
    rw q (record {
      pickups = l.pickups;
      automobiles =
          remove_expired-IsLot automobile automobile_capacity t p.automobiles l.automobiles;
    })
attendant-IsLots pickup now p p' w w' l h e = SameLots-IsLots p p' l (ground arith)
attendant-IsLots automobile now p p' w w' l h e = SameLots-IsLots p p' l (ground arith)

-- All that holds.
pub record Invariant (n m : ℕ) (s : System) : Type 0 where
  pub control : Control s.parking (owners_tally s.owners n) (attendants_tally s.attendants m)
  pub queued : Queued s.parking (owners_tally s.owners n) (attendants_tally s.attendants m)
  pub lots : IsLots s.parking

nobody_away :
    (n : ℕ)
    → owners_tally (λ _. away) n ≡ record {
      arrived = 0;
      queueing = 0;
      queued_pickups = 0;
      queued_automobiles = 0;
      waiting_pickups = 0;
      waiting_automobiles = 0;
      astray = 0;
    }
nobody_away n =
    rw
      (
        total-eq-zero has_arrived away refl n,
        total-eq-zero is_queueing away refl n,
        total-eq-zero (has_queued pickup) away refl n,
        total-eq-zero (has_queued automobile) away refl n,
        total-eq-zero (is_waiting pickup) away refl n,
        total-eq-zero (is_waiting automobile) away refl n,
        total-eq-zero is_astray away refl n,
      )
      refl

module _ (kinds : ℕ → VehicleType) (m : ℕ) where
  abbrev watch : ℕ → Attendant
  watch i = record { vehicle_type = kinds i; pc = watching }

  kind-watching : (k k' : VehicleType) → for_kind k k' 0 ≡ 0
  kind-watching k k' = ground arith

  unmoved : (w : Attendant → ℕ) → ((i : ℕ) → w (watch i) ≡ 0) → total w watch m ≡ 0
  unmoved w h = total_of_zeros w watch m (λ j l. h j)

  all_watch : attendants_tally watch m ≡ record {
    called_pickups = 0;
    called_automobiles = 0;
    carried_pickups = 0;
    carried_automobiles = 0;
    charged_pickups = 0;
    charged_automobiles = 0;
    took = 0;
    wrong = 0;
  }
  all_watch =
      rw
        (
          unmoved (is_called pickup) (λ i. kind-watching pickup (kinds i)),
          unmoved (is_called automobile) (λ i. kind-watching automobile (kinds i)),
          unmoved (carries pickup) (λ i. kind-watching pickup (kinds i)),
          unmoved (carries automobile) (λ i. kind-watching automobile (kinds i)),
          unmoved (is_charged pickup) (λ i. kind-watching pickup (kinds i)),
          unmoved (is_charged automobile) (λ i. kind-watching automobile (kinds i)),
          unmoved took (λ i. refl),
          unmoved is_wrong (λ i. refl),
        )
        refl

  start-Invariant :
      (n : ℕ)
      → Invariant n m (record { parking = new_parking; owners = λ _. away; attendants = watch })
  start-Invariant n = record {
    control =
        rw (nobody_away n, all_watch)
          (record {
            lock = refl;
            pickups = refl;
            automobiles = refl;
            pickup_charge = refl;
            automobile_charge = refl;
            slots = refl;
            astray = refl;
          });
    queued =
        rw (nobody_away n, all_watch)
          (record {
            in_queue = inl (refl, refl, refl);
            front_in = omega arith;
            cells = refl;
            wrong = refl;
          });
    lots = record {
      pickups = record {
        valid = record { free_places = refl; all_places = refl };
        own_kind = refl;
      };
      automobiles = record {
        valid = record { free_places = refl; all_places = refl };
        own_kind = refl;
      };
    };
  }

-- Whatever the threads do.
pub Reach-Invariant :
    {n m : ℕ} {kinds : ℕ → VehicleType} {s : System} → Reach n m kinds s → Invariant n m s
Reach-Invariant {n} {m} {kinds} start = start-Invariant kinds m n
Reach-Invariant {n} {m} (later {s = s} run (owner_moves i kind now {p = p} {pc = w} h e)) =
    let before = Reach-Invariant run in
    let moved = update-OwnerMoved s.owners i n w h in
    record {
      control =
          owner-Control kind now s.parking p (s.owners i) w (owners_tally s.owners n)
            (owners_tally (update s.owners i w) n) (attendants_tally s.attendants m) before.control
            moved e;
      queued =
          owner-Queued kind now s.parking p (s.owners i) w (owners_tally s.owners n)
            (owners_tally (update s.owners i w) n) (attendants_tally s.attendants m)
            (omega (arith, before.control.astray, weight-le-total is_astray s.owners i n h))
            before.control before.queued moved e;
      lots =
          SameLots-IsLots s.parking p before.lots
            (owner-SameLots kind now s.parking p (s.owners i) w e);
    }
Reach-Invariant {n} {m} (later {s = s} run (attendant_moves i now {p = p} {pc = w} h e)) =
    let before = Reach-Invariant run in
    let after : Attendant = record { vehicle_type = (s.attendants i).vehicle_type; pc = w } in
    let moved = update-AttendantMoved s.attendants i m after h in
    record {
      control =
          attendant-Control (s.attendants i).vehicle_type now s.parking p (s.attendants i).pc w
            (owners_tally s.owners n) (attendants_tally s.attendants m)
            (attendants_tally (update s.attendants i after) m) before.control moved e;
      queued =
          attendant-Queued (s.attendants i).vehicle_type now s.parking p (s.attendants i).pc w
            (owners_tally s.owners n) (attendants_tally s.attendants m)
            (attendants_tally (update s.attendants i after) m) before.control before.queued moved e;
      lots =
          attendant-IsLots (s.attendants i).vehicle_type now s.parking p (s.attendants i).pc w
            before.lots
            (omega (arith, before.queued.wrong, weight-le-total is_wrong s.attendants i m h)) e;
    }
