-- ===== src/Booking/Outcome/Creation.antt =====
-- apps/services/booking-service/src/service/booking_service.rs: what the transaction of
-- `create_booking` leaves in the tables.
use mathlib.Core.Option
use our_driveway.Prelude.{
  ℕ, ◌+◌, ◌==◌, not, arith, ◌≡◌, refl, Bool, true, false, Option, none, some,
}
use our_driveway.Prelude.Int.{ℤ, pos}
use our_driveway.Prelude.Result.{
  MyError, api, Result, ok, err, Tx, ◌>>=◌, ◌>>◌, require, context, committed,
}
use our_driveway.Shared.Slots.{Availability}
use our_driveway.Shared.Bookings.{Status, Booking, BookingCreated, BookingEvent, created_row}
use our_driveway.Shared.Spots.{SpotMirror, bookable}
use our_driveway.Bus.Outbox.{Pending, enqueue}
use our_driveway.Booking.Availability.{Rejection, check}
use our_driveway.Booking.Schedule.{Calendar, ends_at}
use our_driveway.Booking.Table.{
  Db, Stamp, Envelope, find_booking, find_spot, taken_for_spot, put_row, upsert,
}
use our_driveway.Booking.Service.Create.{
  CreateBookingRequest, Clock, hold_ms, not_ready, checked, amount_of, reserve, authorise_new,
  existing_or_new, create_booking,
}

-- The spot is offered to the renter, and the row is the request's, at the spot's price.
pub record Offered (cal : Calendar) (renter_id : ℕ) (request : CreateBookingRequest) (db : Db)
    (availability : Availability) (minutes : ℤ) (row : Booking) : Type 0 where
  pub spot : SpotMirror
  pub price : ℤ
  pub there : find_spot request.spot_id db.spots ≡ some spot
  pub offer : bookable spot ≡ some (availability, price, row.host_id)
  pub active : spot.active ≡ true
  pub another : (row.host_id == renter_id) ≡ false
  pub renter : row.renter_id ≡ renter_id
  pub plate : row.license_plate ≡ request.license_plate
  pub amount : row.amount ≡ amount_of minutes price
  pub ending : Option.bind spot.timezone (ends_at cal request.booked) ≡ some row.ends_at

-- The event tells the row, which holds the spot from the clock's instant on.
pub record Told (clock : Clock) (row : Booking) (out : Pending Envelope) : Type 0 where
  pub event : BookingCreated
  pub payload : out.payload.payload ≡ BookingEvent.created event
  pub tells : created_row event clock.write_at (pos 1) ≡ row
  pub hold : event.expires_at ≡ clock.hold_at + hold_ms

-- Why a request is refused, or is one that was answered before.
pub data Refused (cal : Calendar) (renter_id : ℕ) (request : CreateBookingRequest) (booking_id : ℕ)
    (clock : Clock) (db : Db) : Type 0 where
  no_spot :
      find_spot request.spot_id db.spots ≡ none → Refused cal renter_id request booking_id clock db
  repeated :
      (b : Booking)
      → find_booking booking_id db.bookings ≡ some b
      → Refused cal renter_id request booking_id clock db
  incomplete :
      (spot : SpotMirror)
      → find_spot request.spot_id db.spots ≡ some spot
      → bookable spot ≡ none
      → Refused cal renter_id request booking_id clock db
  inactive :
      (spot : SpotMirror)
      → find_spot request.spot_id db.spots ≡ some spot
      → spot.active ≡ false
      → Refused cal renter_id request booking_id clock db
  own :
      (spot : SpotMirror) (availability : Availability) (price : ℤ) (host_id : ℕ)
      → find_spot request.spot_id db.spots ≡ some spot
      → bookable spot ≡ some (availability, price, host_id)
      → (host_id == renter_id) ≡ true
      → Refused cal renter_id request booking_id clock db
  unfit :
      (spot : SpotMirror) (availability : Availability) (price : ℤ) (host_id : ℕ) (why : Rejection)
      → find_spot request.spot_id db.spots ≡ some spot
      → bookable spot ≡ some (availability, price, host_id)
      → check cal.weekday_of availability
          (taken_for_spot request.spot_id clock.read_at db.bookings)
          request.booked
        ≡ err why
      → Refused cal renter_id request booking_id clock db
  endless :
      (spot : SpotMirror)
      → find_spot request.spot_id db.spots ≡ some spot
      → Option.bind spot.timezone (ends_at cal request.booked) ≡ none
      → Refused cal renter_id request booking_id clock db

-- The new row and its first event, below the checks that they passed, or every table as it was,
-- where one of the checks refuses.
pub data Creation (cal : Calendar) (renter_id : ℕ) (request : CreateBookingRequest) (booking_id : ℕ)
    (stamp : Stamp) (clock : Clock) (db db' : Db) : Type 0 where
  kept :
      Refused cal renter_id request booking_id clock db
      → db' ≡ db
      → Creation cal renter_id request booking_id stamp clock db db'
  made :
      (availability : Availability) (minutes : ℤ) (row : Booking) (out : Pending Envelope)
      → find_booking booking_id db.bookings ≡ none
      → check cal.weekday_of availability
          (taken_for_spot request.spot_id clock.read_at db.bookings)
          request.booked
        ≡ ok minutes
      → row.id ≡ booking_id
      → row.spot_id ≡ request.spot_id
      → row.booked ≡ request.booked
      → row.status ≡ Status.reserved
      → row.version ≡ pos 1
      → db'.bookings ≡ put_row row db.bookings
      → db'.outbox ≡ enqueue out db.outbox
      → out.id ≡ stamp.event_id
      → out.payload.aggregate ≡ booking_id
      → out.payload.version ≡ pos 1
      → Offered cal renter_id request db availability minutes row
      → Told clock row out
      → db'.spots ≡ db.spots
      → Creation cal renter_id request booking_id stamp clock db db'

module _ (cal : Calendar) (renter_id : ℕ) (request : CreateBookingRequest) (booking_id : ℕ)
    (stamp : Stamp) (clock : Clock) (db : Db) where
  abbrev Creates : Tx Db ℤ → Type 0
  Creates m = Creation cal renter_id request booking_id stamp clock db (committed m db)

  abbrev Refuses : Type 0
  Refuses = Refused cal renter_id request booking_id clock db

  Creates-require :
      (c : Bool) (e : MyError) (m : Tx Db ℤ)
      → (c ≡ false → Refuses)
      → (c ≡ true → Creates m)
      → Creates (require c e >> m)
  Creates-require true e m r h = h refl
  Creates-require false e m r h = kept (r refl) refl

  Creates-context :
      {A : Type 0} (o : Option A) (e : MyError) (f : A → Tx Db ℤ)
      → (o ≡ none → Refuses)
      → ((a : A) → o ≡ some a → Creates (f a))
      → Creates (context o e >>= f)
  Creates-context none e f r h = kept (r refl) refl
  Creates-context (some a) e f r h = h a refl

  Creates-checked :
      (c : Result Rejection ℤ) (f : ℤ → Tx Db ℤ)
      → ((x : Rejection) → c ≡ err x → Refuses)
      → ((m : ℤ) → c ≡ ok m → Creates (f m))
      → Creates (checked c >>= f)
  Creates-checked (ok m) f r h = h m refl
  Creates-checked (err x) f r h = kept (r x refl) refl

  module _ (spot : SpotMirror) (there : find_spot request.spot_id db.spots ≡ some spot) where
    reserve-Creates :
        (availability : Availability) (minutes price : ℤ) (host_id last : ℕ)
        → find_booking booking_id db.bookings ≡ none
        → check cal.weekday_of availability
            (taken_for_spot request.spot_id clock.read_at db.bookings)
            request.booked
          ≡ ok minutes
        → bookable spot ≡ some (availability, price, host_id)
        → spot.active ≡ true
        → not (host_id == renter_id) ≡ true
        → Option.bind spot.timezone (ends_at cal request.booked) ≡ some last
        → Creates (
            reserve cal renter_id request booking_id stamp clock host_id
              (amount_of minutes price)
              last)
    unfolding reserve created_row upsert Option.bind
    reserve-Creates availability minutes price host_id last e c b ac apart l =
        made availability minutes _ _ e c refl refl refl refl refl refl refl refl refl refl
          (record {
            spot = spot;
            price = price;
            there = there;
            offer = b;
            active = ac;
            another = ground arith;
            renter = refl;
            plate = refl;
            amount = refl;
            ending = l;
          })
          (record { event = _; payload = refl; tells = rw e refl; hold = refl }) refl

    authorise_new-Creates :
        find_booking booking_id db.bookings ≡ none
        → Creates (authorise_new cal renter_id request booking_id stamp clock spot)
    unfolding authorise_new
    authorise_new-Creates e =
        Creates-context (bookable spot) not_ready _ (incomplete spot there)
          (λ (availability, price, host_id) b.
            Creates-require spot.active (api 409 "Unavailable") _ (inactive spot there) (λ ac.
              Creates-require (not (host_id == renter_id)) (api 409 "Not allowed") _
                (λ h. own spot availability price host_id there b (ground arith))
                (λ apart.
                  Creates-checked
                    (check cal.weekday_of availability
                      (taken_for_spot request.spot_id clock.read_at db.bookings) request.booked)
                    _ (λ x. unfit spot availability price host_id x there b)
                    (λ m c.
                      Creates-context (Option.bind spot.timezone (ends_at cal request.booked))
                        not_ready _ (endless spot there)
                        (λ last l.
                          reserve-Creates availability m price host_id last e c b ac apart l)))))

    existing_or_new-Creates :
        (o : Option Booking)
        → find_booking booking_id db.bookings ≡ o
        → Creates (existing_or_new cal renter_id request booking_id stamp clock spot o)
    unfolding existing_or_new
    existing_or_new-Creates none e = authorise_new-Creates e
    existing_or_new-Creates (some b) e = kept (repeated b e) refl

  pub create_booking-Creation :
      Creation cal renter_id request booking_id stamp clock db
        (committed (create_booking cal renter_id request booking_id stamp clock) db)
  unfolding create_booking
  create_booking-Creation =
      Creates-context (find_spot request.spot_id db.spots) (api 404 "Not Found") _ no_spot
        (λ spot there.
          existing_or_new-Creates spot there (find_booking booking_id db.bookings) refl)
