-- ===== src/Booking/Reactor.antt =====
-- apps/services/booking-service/src/projector.rs: the projector of SPOTS events, which also cancels
-- the paid bookings that a spot can no longer honour.
use our_driveway.Prelude.{
  ℕ, suc, Bool, true, false, Option, none, some, List, [], ◌∷◌, if◌then◌else◌,
}
use our_driveway.Prelude.Int.{ℤ}
use our_driveway.Prelude.Result.{Result, ok, err, Tx, ◌>>=◌, ◌>>◌, return, gets, modify}
use our_driveway.Shared.Slots.{Availability}
use our_driveway.Shared.Bookings.{Status, Booking, BookingEvent, spot_unavailable}
use our_driveway.Shared.Spots.{
  SpotEvent, SpotMirrorPatch, spot_id_of, created_patch, updated_patch, deleted_patch,
}
use our_driveway.Booking.Availability.{check}
use our_driveway.Booking.Schedule.{Calendar}
use our_driveway.Booking.Table.{Db, Stamp, upcoming_confirmed, merge, set_spot_version}
use our_driveway.Booking.Service.Settle.{settle}

abbrev pub is_ok : {E A : Type 0} → Result E A → Bool
is_ok (ok a) = true
is_ok (err e) = false

-- `SpotProjector::cancel`
unfoldable pub cancel_unavailable : Stamp → Booking → Tx Db ℤ
cancel_unavailable stamp b =
    settle stamp b.spot_id b.id none Status.cancelled (Status.confirmed ∷ []) none
      (some spot_unavailable) (BookingEvent.cancelled b.id spot_unavailable)

unfoldable pub patch_of : SpotEvent → SpotMirrorPatch
patch_of (SpotEvent.created e) = created_patch e
patch_of (SpotEvent.updated e) = updated_patch e
patch_of (SpotEvent.deleted id) = deleted_patch

module _ (cal : Calendar) where
  -- Whether a paid booking still sits inside the spot's hours.
  unfoldable pub fits : Availability → Booking → Bool
  fits availability b = is_ok (check cal.weekday_of availability [] b.booked)

  -- `none` for a deleted spot, which keeps no booking.
  unfoldable pub kept_by : Option Availability → Booking → Bool
  kept_by none b = false
  kept_by (some availability) b = fits availability b

  -- The loop of `react`, with a supply of stamps: the `n`-th booking takes the `n`-th.
  unfoldable pub cancel_each :
      Option Availability → (ℕ → Stamp) → ℕ → List Booking → Tx Db (Unit {0})
  cancel_each hours stamps n [] = return tt
  cancel_each hours stamps n (b ∷ rest) =
      if kept_by hours b
      then cancel_each hours stamps (suc n) rest
      else (cancel_unavailable (stamps n) b >>= λ _. cancel_each hours stamps (suc n) rest)

  unfoldable pub withdraw : Option Availability → (ℕ → Stamp) → ℕ → ℕ → Tx Db (Unit {0})
  withdraw hours stamps spot_id when = do
    upcoming ← gets (λ db. upcoming_confirmed spot_id when db.bookings)
    cancel_each hours stamps 0 upcoming

  unfoldable pub react : (ℕ → Stamp) → SpotEvent → ℕ → Tx Db (Unit {0})
  react stamps (SpotEvent.created e) when = return tt
  react stamps (SpotEvent.updated e) when = elim e.availability [
    | none ↦ return tt
    | some a ↦ withdraw (some a) stamps e.spot_id when
  ]
  react stamps (SpotEvent.deleted id) when = withdraw none stamps id when

  -- `SpotProjector::apply`
  unfoldable pub apply_spot : (ℕ → Stamp) → SpotEvent → ℕ → ℤ → Tx Db (Unit {0})
  apply_spot stamps event when version = do
    react stamps event when
    modify (λ db. record db { spots = merge (spot_id_of event) (patch_of event) db.spots })
    modify (λ db. record db { spots = set_spot_version (spot_id_of event) version db.spots })
