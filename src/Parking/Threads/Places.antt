-- ===== src/Parking/Threads/Places.antt =====
-- `vehicle_queue` of Homework3/hw3.c where it holds no vehicle or one.
use cse344system_programming.Prelude.{
  ℕ, ◌+◌, ◌%◌, ◌<◌, ◌≡◌, refl, inl, inr, Option, none, some, List, arith, get_or, set,
  get_or-set_self, length,
}
use cse344system_programming.Parking.Lot.{VehicleType, pickup, automobile, Vehicle}
use cse344system_programming.Parking.Threads.{queue_capacity, taken}
use cse344system_programming.Parking.Threads.Control.{InQueue}
use cse344system_programming.Parking.Threads.Tallies.{wrong, of_kind, for_kind}

-- What stands in the queue after a vehicle of kind `k` is put into the empty queue, and taken again.
pub put-InQueue :
    (cells : List (Option Vehicle)) (front rear : ℕ) (k : VehicleType) (v : Vehicle) (a b : ℕ)
    → a ≡ 0
    → b ≡ 0
    → InQueue cells front rear a b
    → front < queue_capacity
    → length cells ≡ queue_capacity
    → v.vehicle_type ≡ k
    → InQueue
        (set cells rear (some v))
        front
        ((rear + 1) % queue_capacity)
        (of_kind pickup k)
        (of_kind automobile k)
put-InQueue cells front rear pickup v a b n m (inl (x, y, e)) h l t = inr (
    inl (
      refl,
      refl,
      (v, rw e (get_or-set_self none cells front (some v) (omega (arith, h, l))), t, rw e refl),
    ))
put-InQueue cells front rear automobile v a b n m (inl (x, y, e)) h l t = inr (
    inr (
      refl,
      refl,
      (v, rw e (get_or-set_self none cells front (some v) (omega (arith, h, l))), t, rw e refl),
    ))
put-InQueue cells front rear k v a b n m (inr (inl (x, y, z))) h l t = absurd (omega (arith, x, n))
put-InQueue cells front rear k v a b n m (inr (inr (x, y, z))) h l t = absurd (omega (arith, y, m))

pub take-InQueue :
    (cells : List (Option Vehicle)) (front rear a b : ℕ) (k : VehicleType)
    → InQueue cells front rear a b
    → 0 < for_kind k pickup a + for_kind k automobile b
    → (wrong k (taken (get_or cells front none)) ≡ 0)
      × InQueue cells ((front + 1) % queue_capacity) rear 0 0
take-InQueue cells front rear a b k (inl (x, y, e)) h = absurd (ground (arith, x, y))
take-InQueue cells front rear a b pickup (inr (inl (x, y, (v, g, t, e)))) h =
    (rw (g, t) refl, inl (refl, refl, e))
take-InQueue cells front rear a b automobile (inr (inl (x, y, z))) h = absurd (omega (arith, x, y))
take-InQueue cells front rear a b pickup (inr (inr (x, y, z))) h = absurd (omega (arith, x, y))
take-InQueue cells front rear a b automobile (inr (inr (x, y, (v, g, t, e)))) h =
    (rw (g, t) refl, inl (refl, refl, e))
