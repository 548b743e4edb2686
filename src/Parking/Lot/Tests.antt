-- ===== src/Parking/Lot/Tests.antt =====
-- A lot with two places for pickups.
use mathlib.Core.Path.{◌≡◌, refl}
use mathlib.Core.Option.{none, some}
use mathlib.Core.List.{[], ◌∷◌}
use cse344system_programming.Parking.Lot.{
  pickup, Vehicle, Lot, park_in, park, remove_from, remove_expired,
}

abbrev early : Vehicle
early = record { id = 1; vehicle_type = pickup; arrival_time = 100 }

abbrev late : Vehicle
late = record { id = 2; vehicle_type = pickup; arrival_time = 115 }

abbrev one_parked : Lot
one_parked = record {
  places = none ∷ some early ∷ [];
  free = 1;
  new_vehicle = 0;
  in_charge = 0;
  parked = 0;
}

abbrev full : Lot
full = record {
  places = some late ∷ some early ∷ [];
  free = 0;
  new_vehicle = 0;
  in_charge = 0;
  parked = 0;
}

late_is_parked : park late one_parked ≡ full
unfolding park park_in
late_is_parked = refl

turned_away : park late full ≡ full
unfolding park park_in
turned_away = refl

early_leaves : remove_expired 120 full ≡ record {
  places = some late ∷ none ∷ [];
  free = 1;
  new_vehicle = 0;
  in_charge = 0;
  parked = 0;
}
unfolding remove_expired remove_from
early_leaves = refl
