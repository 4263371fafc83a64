-- ===== src/Booking/Service/Settle.antt =====
-- apps/services/booking-service/src: the transitions of a booking. `release`, `cancel`, `settle` and
-- `rate` of service/booking_service.rs, `confirm_paid` of service/payment_worker_service.rs, the
-- sweeper of sweeper.rs, and policy/access.rs.
use mathlib.Core.Option
use our_driveway.Prelude.{ℕ, ◌==◌, leb, Bool, false, Option, none, some, List, [], ◌∷◌}
use our_driveway.Prelude.Int.{ℤ, pos, ◌-ℤ◌, i64}
use our_driveway.Prelude.Result.{
  MyError, api, ok, Tx, ◌>>=◌, ◌>>◌, return, gets, require, context, committed,
}
use our_driveway.Shared.Versions.{Changed, changed, unchanged}
use our_driveway.Shared.Bookings.{
  Status, status_eq, Booking, BookingEvent, ReleaseReason, abandoned, expired, CancelReason,
  by_renter,
}
use our_driveway.Shared.Spots.{SpotMirror}
use our_driveway.Booking.Schedule.{Calendar, in_time}
use our_driveway.Booking.Table.{
  Db, Stamp, find_booking, find_spot, transition, rate_row, lapsed_holds, next_booking_version,
  set_booking_version, write, publish,
}

abbrev pub not_found : MyError
not_found = api 404 "Not Found"

-- `policy::access::authorize`
unfoldable pub authorize : Booking → ℕ → Status → Tx Db (Unit {0})
authorize booking renter_id expected = do
  require (booking.renter_id == renter_id) not_found
  require (status_eq booking.status expected) (api 409 "Already settled")

-- `BookingRepository::transition` on the rows of the transaction.
unfoldable pub move_row :
    ℕ → Status → List Status → Option ReleaseReason → Option CancelReason → Tx Db Changed
move_row id to from release cancel db =
    let (rows, moved) = transition id to from release cancel db.bookings in
    ok (moved, record db { bookings = rows })

-- What follows a transition: a version and an event if the row moved, nothing if not.
unfoldable pub numbered : Stamp → ℕ → ℕ → ℤ → Option ℕ → BookingEvent → Changed → Tx Db ℤ
numbered stamp spot_id booking_id version actor event unchanged = return (i64 (version -ℤ pos 1))
numbered stamp spot_id booking_id version actor event changed = do
  write (set_booking_version booking_id version)
  publish stamp spot_id booking_id version actor event
  return version

-- The transaction that `settle`, `confirm_paid` and the sweeper share.
unfoldable pub settle :
    Stamp
    → ℕ
    → ℕ
    → Option ℕ
    → Status
    → List Status
    → Option ReleaseReason
    → Option CancelReason
    → BookingEvent
    → Tx Db ℤ
settle stamp spot_id booking_id actor to from release cancel event = do
  version ← gets (λ db. next_booking_version booking_id db.bookings)
  moved ← move_row booking_id to from release cancel
  numbered stamp spot_id booking_id version actor event moved

unfoldable pub release : Db → Stamp → ℕ → ℕ → Tx Db ℤ
release read stamp renter_id booking_id = do
  booking ← context (find_booking booking_id read.bookings) not_found
  authorize booking renter_id Status.reserved
  settle stamp booking.spot_id booking_id (some renter_id) Status.released (Status.reserved ∷ [])
      (some abandoned) none (BookingEvent.released booking_id abandoned)

abbrev is_true : Option Bool → Bool
is_true none = false
is_true (some b) = b

module _ (cal : Calendar) where
  -- Whether a cancel can be shown to be in time, from the mirror of the spot.
  unfoldable pub cancellable : Db → Booking → ℕ → Bool
  cancellable read booking now = is_true (
      Option.bind (find_spot booking.spot_id read.spots)
        (λ (s : SpotMirror). Option.bind s.timezone (λ tz. in_time cal booking.booked tz now)))

  unfoldable pub cancel : Db → Stamp → ℕ → ℕ → ℕ → Tx Db ℤ
  cancel read stamp now renter_id booking_id = do
    booking ← context (find_booking booking_id read.bookings) not_found
    authorize booking renter_id Status.confirmed
    require (cancellable read booking now) (api 409 "Too late to cancel")
    settle stamp booking.spot_id booking_id (some renter_id) Status.cancelled
        (Status.confirmed ∷ []) none (some by_renter) (BookingEvent.cancelled booking_id by_renter)

-- `BookingRepository::rate` on the rows of the transaction.
unfoldable pub rate_in : ℕ → ℤ → Tx Db Bool
rate_in id rating db =
    let (rows, done) = rate_row id rating db.bookings in ok (done, record db { bookings = rows })

-- The transaction of `rate`.
unfoldable pub rate_booking : Stamp → Booking → ℕ → ℤ → Tx Db ℤ
rate_booking stamp booking booking_id rating = do
  done ← rate_in booking_id rating
  require done (api 409 "Already rated")
  version ← gets (λ db. next_booking_version booking_id db.bookings)
  write (set_booking_version booking_id version)
  publish stamp booking.spot_id booking_id version (some booking.renter_id)
      (BookingEvent.rated booking_id rating)
  return version

unfoldable pub rate : Db → Stamp → ℕ → ℕ → ℕ → ℤ → Tx Db ℤ
rate read stamp now renter_id booking_id rating = do
  booking ← context (find_booking booking_id read.bookings) not_found
  authorize booking renter_id Status.confirmed
  require (leb booking.ends_at now) (api 409 "Not over yet")
  rate_booking stamp booking booking_id rating

-- `PaymentWorkerService::confirm_paid`
unfoldable pub confirm_paid : Db → Stamp → ℕ → Tx Db ℤ
confirm_paid read stamp booking_id = do
  booking ← context (find_booking booking_id read.bookings) not_found
  settle stamp booking.spot_id booking_id none Status.confirmed (Status.reserved ∷ []) none none
      (BookingEvent.confirmed booking_id)

-- One hold of the sweeper's loop.
unfoldable pub sweep_one : Stamp → Booking → Tx Db ℤ
sweep_one stamp hold =
    settle stamp hold.spot_id hold.id none Status.released (Status.reserved ∷ []) (some expired)
      none (BookingEvent.released hold.id expired)

-- The loop of `sweep`: one transaction for each hold, each with its stamp.
unfoldable pub sweep_holds : List Stamp → List Booking → Db → Db
sweep_holds [] holds db = db
sweep_holds (stamp ∷ stamps) [] db = db
sweep_holds (stamp ∷ stamps) (hold ∷ holds) db =
    sweep_holds stamps holds (committed (sweep_one stamp hold) db)

abbrev pub max_per_sweep : ℕ
max_per_sweep = 200

-- `sweep`: `read` is the snapshot that `lapsed_holds` is asked of, at the database's `now`.
unfoldable pub sweep : Db → ℕ → List Stamp → Db → Db
sweep read now stamps db = sweep_holds stamps (lapsed_holds max_per_sweep now read.bookings) db
