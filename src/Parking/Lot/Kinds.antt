-- ===== src/Parking/Lot/Kinds.antt =====
-- The kinds of the vehicles in a lot of Homework3/hw3.c.
use cse344system_programming.Prelude.{
  ℕ, ◌+◌, ◌-◌, ◌≤◌, ◌≡◌, sym, Option, none, some, List, [], ◌∷◌, ◌++◌, leb, inl, inr, Bool-cases,
  arith,
}
use cse344system_programming.Parking.Lot.{
  VehicleType, pickup, automobile, Vehicle, Lot, park_duration, park, remove_from, remove_expired,
}
use cse344system_programming.Parking.Lot.Count.{IsValid, park-Parked, remove_expired_lem}

abbrev pub of_other_kind : VehicleType → VehicleType → ℕ
of_other_kind pickup pickup = 0
of_other_kind automobile automobile = 0
of_other_kind _ _ = 1

-- The vehicles of another kind than `k`.
abbrev pub foreign : VehicleType → List (Option Vehicle) → ℕ
foreign k [] = 0
foreign k (none ∷ places) = foreign k places
foreign k (some v ∷ places) = of_other_kind k v.vehicle_type + foreign k places

foreign-append :
    (k : VehicleType) (before after : List (Option Vehicle))
    → foreign k (before ++ after) ≡ foreign k before + foreign k after
foreign-append k [] after = omega arith
foreign-append k (none ∷ before) after = foreign-append k before after
foreign-append k (some v ∷ before) after = omega (arith, foreign-append k before after)

foreign-remove_from :
    (k : VehicleType) (now : ℕ) (places : List (Option Vehicle))
    → foreign k (remove_from now places).0 ≤ foreign k places
unfolding remove_from
foreign-remove_from k now [] = omega arith
foreign-remove_from k now (none ∷ places) = foreign-remove_from k now places
foreign-remove_from k now (some v ∷ places) =
    let r = foreign-remove_from k now places in
    elim (Bool-cases (leb park_duration (now - v.arrival_time))) [
      | inl e ↦ rw e (omega (arith, r))
      | inr e ↦ rw e (omega (arith, r))
    ]

-- A lot of `capacity` places whose count is right, with vehicles of kind `k` only.
pub record IsLot (k : VehicleType) (capacity : ℕ) (lot : Lot) : Type 0 where
  pub valid : IsValid capacity lot
  pub own_kind : foreign k lot.places ≡ 0

pub park-IsLot :
    (k : VehicleType) (capacity : ℕ) (v : Vehicle) (lot : Lot)
    → IsLot k capacity lot
    → of_other_kind k v.vehicle_type ≡ 0
    → IsLot k capacity (park v lot)
park-IsLot k capacity v lot h e =
    let (parked, valid) = park-Parked capacity v lot h.valid in
    record {
      valid = valid;
      own_kind = elim parked [
        | inl (full, same) ↦ rw same h.own_kind
        | inr (before, after, p, q, n) ↦
            let was : foreign k (before ++ none ∷ after) ≡ 0 = rw (sym p) h.own_kind in
            rw q (
              omega (
                arith,
                was,
                e,
                foreign-append k before (none ∷ after),
                foreign-append k before (some v ∷ after),
              ))
      ];
    }

pub remove_expired-IsLot :
    (k : VehicleType) (capacity now : ℕ) (lot : Lot)
    → IsLot k capacity lot
    → IsLot k capacity (remove_expired now lot)
unfolding remove_expired
remove_expired-IsLot k capacity now lot h = record {
  valid = (remove_expired_lem capacity now lot h.valid).0;
  own_kind = omega (arith, foreign-remove_from k now lot.places, h.own_kind);
}

-- Nothing else than the places and the count of the free ones matters.
pub record SamePlaces (l l' : Lot) : Type 0 where
  pub places : l'.places ≡ l.places
  pub free : l'.free ≡ l.free

pub SamePlaces-IsLot :
    (k : VehicleType) (capacity : ℕ) (l l' : Lot)
    → IsLot k capacity l
    → SamePlaces l l'
    → IsLot k capacity l'
SamePlaces-IsLot k capacity l l' h s = record {
  valid = record {
    free_places = rw (s.places, s.free) h.valid.free_places;
    all_places = rw s.places h.valid.all_places;
  };
  own_kind = rw s.places h.own_kind;
}
