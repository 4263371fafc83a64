-- ===== src/Booking/Service/Create.antt =====
-- apps/services/booking-service/src/service/booking_service.rs: `create_booking`, and the answers
-- to a refusal of the availability check.
use mathlib.Core.Option
use our_driveway.Prelude.{ℕ, ◌+◌, ◌==◌, not, Option, none, some}
use our_driveway.Prelude.Int.{ℤ, pos, ◌*ℤ◌, quot_ℤ, i64}
use our_driveway.Prelude.Text.{Text}
use our_driveway.Prelude.Result.{
  MyError, api, Result, ok, err, Tx, ◌>>=◌, ◌>>◌, return, fail, gets, require, context,
}
use our_driveway.Shared.Slots.{Booked}
use our_driveway.Shared.Bookings.{BookingCreated, BookingEvent, Booking, created_row}
use our_driveway.Shared.Spots.{SpotMirror, bookable}
use our_driveway.Booking.Availability.{Rejection, closed, taken, malformed, check}
use our_driveway.Booking.Schedule.{Calendar, ends_at}
use our_driveway.Booking.Table.{
  Db, Stamp, find_booking, find_spot, taken_for_spot, upsert, write, publish,
}

pub record CreateBookingRequest : Type 0 where
  pub spot_id : ℕ
  pub booked : Booked
  pub license_plate : Text

-- The three readings of the clock in `create_booking`, in the order of the statements.
pub record Clock : Type 0 where
  pub read_at : ℕ
  pub hold_at : ℕ
  pub write_at : ℕ

-- `HOLD`, in milliseconds.
abbrev pub hold_ms : ℕ
hold_ms = 900000

abbrev pub not_ready : MyError
not_ready = api 409 "Not bookable yet"

unfoldable pub reject : Rejection → MyError
reject (closed date slot) = api 409 "Outside opening hours"
reject (taken date slot) = api 409 "Already booked"
reject malformed = api 400 "Invalid times"

-- `map_err(reject)?`
abbrev pub checked : Result Rejection ℤ → Tx Db ℤ
checked (ok m) = return m
checked (err r) = fail (reject r)

-- `minutes * price / 60`
unfoldable pub amount_of : ℤ → ℤ → ℤ
amount_of minutes price = quot_ℤ (i64 (minutes *ℤ price)) 60

module _ (cal : Calendar) (renter_id : ℕ) (request : CreateBookingRequest) (booking_id : ℕ)
    (stamp : Stamp) (clock : Clock) where
  open request use {spot_id, booked, license_plate}

  -- What is written for an authorised request, and the version it has.
  unfoldable pub reserve : ℕ → ℤ → ℕ → Tx Db ℤ
  reserve host_id amount_cents last =
      let created : BookingCreated = record {
        booking_id = booking_id;
        spot_id = spot_id;
        host_id = host_id;
        renter_id = renter_id;
        booked = booked;
        license_plate = license_plate;
        amount_cents = amount_cents;
        expires_at = clock.hold_at + hold_ms;
        ends_at = last;
      } in
      do
        write (upsert (created_row created clock.write_at (pos 1)))
        publish stamp spot_id booking_id (pos 1) (some renter_id) (BookingEvent.created created)
        return (pos 1)

  -- The checks, below the lock on the spot's row.
  unfoldable pub authorise_new : SpotMirror → Tx Db ℤ
  authorise_new spot = do
    (availability, price, host_id) ← context (bookable spot) not_ready
    require spot.active (api 409 "Unavailable")
    require (not (host_id == renter_id)) (api 409 "Not allowed")
    blocked ← gets (λ db. taken_for_spot spot_id clock.read_at db.bookings)
    minutes ← checked (check cal.weekday_of availability blocked booked)
    last ← context (Option.bind spot.timezone (ends_at cal booked)) not_ready
    reserve host_id (amount_of minutes price) last

  unfoldable pub existing_or_new : SpotMirror → Option Booking → Tx Db ℤ
  existing_or_new spot (some existing) = return existing.version
  existing_or_new spot none = authorise_new spot

  -- The transaction of `create_booking`: the version that the client waits for.
  unfoldable pub create_booking : Tx Db ℤ
  create_booking = do
    locked ← gets (λ db. find_spot spot_id db.spots)
    spot ← context locked (api 404 "Not Found")
    existing ← gets (λ db. find_booking booking_id db.bookings)
    existing_or_new spot existing
