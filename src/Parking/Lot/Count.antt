-- ===== src/Parking/Lot/Count.antt =====
-- `mFree_pickup` and `mFree_automobile` of Homework3/hw3.c, and the vehicles in the places.
use cse344system_programming.Prelude.{
  ℕ, suc, ◌+◌, ◌-◌, ◌≡◌, refl, ap, ◌∙◌, ltb, leb, if◌then◌else◌, true, Option, none, some, List, [],
  ◌∷◌, ◌++◌, length, arith, Bool-cases, inl, inr, ◌⊎◌,
}
use cse344system_programming.Parking.Lot.{
  Vehicle, Lot, park_duration, park_in, park, remove_from, remove_expired,
}

-- The places that are empty.
abbrev pub empty_places : List (Option Vehicle) → ℕ
empty_places [] = 0
empty_places (none ∷ places) = suc (empty_places places)
empty_places (some v ∷ places) = empty_places places

-- The vehicles in the places, in order.
pub vehicles : List (Option Vehicle) → List Vehicle
vehicles [] = []
vehicles (none ∷ places) = vehicles places
vehicles (some v ∷ places) = v ∷ vehicles places

-- `free` is the number of empty places.
pub record IsValid (capacity : ℕ) (lot : Lot) : Type 0 where
  pub free_places : lot.free ≡ empty_places lot.places
  pub all_places : length lot.places ≡ capacity

-- What parking may come to: no place was free and none is taken; or one more is, by the vehicle, and the
-- others stand where they stood.
abbrev pub Parked : Vehicle → Lot → Lot → Type 0
Parked v lot lot' =
    (let full = (lot.free ≡ 0) × (lot' ≡ lot) in
      full
      ⊎ ((before : List (Option Vehicle)) × (after : List (Option Vehicle)) × (lot.places
            ≡ before ++ none ∷ after)
          × (lot'.places ≡ before ++ some v ∷ after)
          × (lot'.free + 1 ≡ lot.free)))

park_in-cases :
    (v : Vehicle) (places : List (Option Vehicle))
    → ((park_in v places ≡ none) × (empty_places places ≡ 0))
      ⊎ ((before : List (Option Vehicle)) × (after : List (Option Vehicle)) × (places
            ≡ before ++ none ∷ after)
          × (park_in v places ≡ some (before ++ some v ∷ after))
          × (empty_places places ≡ empty_places (before ++ some v ∷ after) + 1)
          × (length (before ++ some v ∷ after) ≡ length places))
unfolding park_in
park_in-cases v [] = inl (refl, refl)
park_in-cases v (none ∷ places) = inr ([], places, refl, refl, omega arith, refl)
park_in-cases v (some u ∷ places) = elim (park_in-cases v places) [
  | inl (e, z) ↦ inl (rw e, z)
  | inr (before, after, e, p, n, l) ↦
      inr (some u ∷ before, after, ap (λ q. some u ∷ q) e, rw p, n, ap suc l)
]

-- In a lot whose count is right, an attendant parks the vehicle in an empty place if there is one, and
-- moves no other; the count stays right.
pub park-Parked :
    (capacity : ℕ) (v : Vehicle) (lot : Lot)
    → IsValid capacity lot
    → Parked v lot (park v lot) × IsValid capacity (park v lot)
unfolding park
park-Parked capacity v lot h = elim (park_in-cases v lot.places) [
  | inl (e, z) ↦ rw e (ground (arith, h.free_places, h.all_places, z))
  | inr (before, after, e, p, n, l) ↦
      let room : ltb 0 lot.free ≡ true = ground (arith, h.free_places, n) in
      rw (room, p)
        (
          inr (before, after, e, refl, omega (arith, h.free_places, n)),
          record { free_places = omega (arith, h.free_places, n); all_places = l ∙ h.all_places },
        )
]

-- The vehicles that stay.
pub staying : ℕ → List Vehicle → List Vehicle
staying now [] = []
staying now (v ∷ vs) =
    if leb park_duration (now - v.arrival_time) then staying now vs else v ∷ staying now vs

remove_from_lem :
    (now : ℕ) (places : List (Option Vehicle))
    → (empty_places (remove_from now places).0 ≡ empty_places places + (remove_from now places).1)
      × (length (remove_from now places).0 ≡ length places)
      × (vehicles (remove_from now places).0 ≡ staying now (vehicles places))
unfolding remove_from vehicles staying
remove_from_lem now [] = (omega arith, refl, refl)
remove_from_lem now (none ∷ places) =
    let (a, b, c) = remove_from_lem now places in (omega (arith, a), ap suc b, c)
remove_from_lem now (some v ∷ places) =
    let (a, b, c) = remove_from_lem now places in
    elim (Bool-cases (leb park_duration (now - v.arrival_time))) [
      | inl e ↦ rw e (omega (arith, a), ap suc b, c)
      | inr e ↦ rw e (a, ap suc b, ap (λ l. v ∷ l) c)
    ]

-- `checkAndRemoveExpiredVehicles` takes out just the vehicles that have stood for `park_duration`, and keeps
-- the count of free places right.
pub remove_expired_lem :
    (capacity now : ℕ) (lot : Lot)
    → IsValid capacity lot
    → let lot' = remove_expired now lot in
      IsValid capacity lot' × (vehicles lot'.places ≡ staying now (vehicles lot.places))
unfolding remove_expired
remove_expired_lem capacity now lot h =
    let (a, b, c) = remove_from_lem now lot.places in
    (record { free_places = omega (arith, a, h.free_places); all_places = b ∙ h.all_places }, c)
