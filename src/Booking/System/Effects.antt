-- ===== src/Booking/System/Effects.antt =====
-- apps/services/booking-service: what each transaction leaves in the tables.
use our_driveway.Prelude.{ℕ, suc, ◌≤◌, ◌==◌, ◌&&◌, leb, length, arith, refl, subst, sym, Bool}
use our_driveway.Prelude.Result.{MyError, Result, ok, err}
use our_driveway.Shared.Bookings.{Status, status_eq, BookingEvent, abandoned, expired, by_renter}
use our_driveway.Booking.Schedule.{Calendar}
use our_driveway.Booking.Table.{Db, Stamp, find_booking}
use our_driveway.Booking.Service.Settle.{cancellable}
use our_driveway.Booking.Outcome.{Outcome, passes, due}
use our_driveway.Booking.Outcome.Creation.{Creation, create_booking-Creation}
use our_driveway.Booking.Outcome.Chain.{Chain, stop, link}
use our_driveway.Booking.Outcome.Reaction.{Reacted, Reacted-Chain, apply_spot-Reacted}
use our_driveway.Booking.Outcome.Handlers.{
  release-Leaves, cancel-Leaves, rate-Leaves, confirm_paid-Leaves, sweep_one-Leaves,
}
use our_driveway.Booking.System.{
  Call, creates, releases, cancels, rates_one, confirms, sweeps, mirrors, stamps_of, run_call,
}

-- What each transaction is to leave. A renter's call goes by the booking that it read, which is to be
-- the renter's and in the status that the call starts from; the row is to admit the event.
abbrev pub Effect : Calendar → Call → Db → Db → Type 0
Effect cal (creates renter_id request booking_id stamps clock) db db' =
    Creation cal renter_id request booking_id (stamps 0) clock db db'
Effect cal (releases read stamps renter_id id) db db' =
    Outcome
      (passes (find_booking id read.bookings) (λ b.
        b.renter_id == renter_id
        && (status_eq b.status Status.reserved && due (BookingEvent.released id abandoned) id db)))
      (BookingEvent.released id abandoned) id (stamps 0).event_id db db'
Effect cal (cancels read stamps now renter_id id) db db' =
    Outcome
      (passes (find_booking id read.bookings) (λ b.
        b.renter_id == renter_id
        && (status_eq b.status Status.confirmed
            && (cancellable cal read b now && due (BookingEvent.cancelled id by_renter) id db))))
      (BookingEvent.cancelled id by_renter) id (stamps 0).event_id db db'
Effect cal (rates_one read stamps now renter_id id rating) db db' =
    Outcome
      (passes (find_booking id read.bookings) (λ b.
        b.renter_id == renter_id
        && (status_eq b.status Status.confirmed
            && (leb b.ends_at now && due (BookingEvent.rated id rating) id db))))
      (BookingEvent.rated id rating) id (stamps 0).event_id db db'
Effect cal (confirms read stamps id) db db' =
    Outcome (passes (find_booking id read.bookings) (λ b. due (BookingEvent.confirmed id) id db))
      (BookingEvent.confirmed id) id (stamps 0).event_id db db'
Effect cal (sweeps stamps hold) db db' =
    Outcome (due (BookingEvent.released hold.id expired) hold.id db)
      (BookingEvent.released hold.id expired) hold.id (stamps 0).event_id db db'
Effect cal (mirrors stamps event when version) db db' = Reacted cal stamps event when version db db'

-- What each transaction leaves, committed or rolled back. A creation writes nothing, where the
-- booking is there or one of the checks refuses it, or one row of the request, below a spot that
-- is bookable and active and of another host, at its price, for hours that passed the availability
-- check, and the event that tells it. A release, a cancellation, a rating, a confirmation and the
-- sweep of a hold each run exactly where the handler's guards on the booking that it read let it,
-- and the row in the table admits the event: then that row alone moves as the event tells, with
-- the next version, one event is added, with that version, and the spots stay; else every table is
-- as it was. An event of a spot cancels the bookings that the spot can no longer honour, and
-- updates its mirror.
pub run_call-Effect : (cal : Calendar) (c : Call) (db : Db) → Effect cal c db (run_call cal c db)
unfolding run_call
run_call-Effect cal (creates renter_id request booking_id stamps clock) db =
    create_booking-Creation cal renter_id request booking_id (stamps 0) clock db
run_call-Effect cal (releases read stamps renter_id booking_id) db =
    release-Leaves db (stamps 0) read booking_id renter_id
run_call-Effect cal (cancels read stamps now renter_id booking_id) db =
    cancel-Leaves db (stamps 0) read booking_id cal now renter_id
run_call-Effect cal (rates_one read stamps now renter_id booking_id rating) db =
    rate-Leaves db (stamps 0) read booking_id now renter_id rating
run_call-Effect cal (confirms read stamps booking_id) db =
    confirm_paid-Leaves db (stamps 0) read booking_id
run_call-Effect cal (sweeps stamps hold) db = sweep_one-Leaves db (stamps 0) hold
run_call-Effect cal (mirrors stamps event when version) db =
    let (db', e, r) = apply_spot-Reacted cal stamps event when version db in
    subst
      (λ (r : Result MyError (Unit {0} × Db)).
        Reacted cal stamps event when version db (elim r [ ok (a, s') ↦ s' | err x ↦ db ]))
      (sym e) r

-- The same, whichever moves they are: a creation, or outcomes in a row.
abbrev pub Chained : Calendar → Call → Db → Db → Type 0
Chained cal (creates renter_id request booking_id stamps clock) db db' =
    Creation cal renter_id request booking_id (stamps 0) clock db db'
Chained cal c db db' = (m : ℕ) × (m ≤ suc (length db.bookings)) × Chain (stamps_of c) 0 m db db'

one :
    {stamps : ℕ → Stamp} {runs : Bool} {event : BookingEvent} {db db' : Db} (id : ℕ)
    → Outcome runs event id (stamps 0).event_id db db'
    → (m : ℕ) × (m ≤ suc (length db.bookings)) × Chain stamps 0 m db db'
one id o = (1, omega arith, link id o (stop refl refl))

Effect-Chained :
    (cal : Calendar) (c : Call) (db db' : Db) → Effect cal c db db' → Chained cal c db db'
Effect-Chained cal (creates renter_id request booking_id stamps clock) db db' o = o
Effect-Chained cal (releases read stamps renter_id id) db db' o = one id o
Effect-Chained cal (cancels read stamps now renter_id id) db db' o = one id o
Effect-Chained cal (rates_one read stamps now renter_id id rating) db db' o = one id o
Effect-Chained cal (confirms read stamps id) db db' o = one id o
Effect-Chained cal (sweeps stamps hold) db db' o = one hold.id o
Effect-Chained cal (mirrors stamps event when version) db db' o =
    let (m, l, os) = Reacted-Chain cal stamps event when version db db' o in (m, omega arith, os)

pub run_call-Chained : (cal : Calendar) (c : Call) (db : Db) → Chained cal c db (run_call cal c db)
run_call-Chained cal c db = Effect-Chained cal c db (run_call cal c db) (run_call-Effect cal c db)
