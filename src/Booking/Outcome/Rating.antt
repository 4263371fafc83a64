-- ===== src/Booking/Outcome/Rating.antt =====
-- apps/services/booking-service/src/service/booking_service.rs: the transaction of `rate`.
use our_driveway.Prelude.{
  ℕ, Bool, ◌&&◌, ◌≡◌, refl, sym, ◌∙◌, true, false, none, some, arith, Bool-cases, Option-cases, inl,
  inr, subst,
}
use our_driveway.Prelude.Int.{ℤ}
use our_driveway.Prelude.Result.{MyError, api, Result, ok, err, Tx}
use our_driveway.Shared.Versions.{next_version}
use our_driveway.Shared.Bookings.{Status, status_eq, Booking, BookingEvent}
use our_driveway.Bus.Outbox.{enqueue}
use our_driveway.Booking.Table.{
  Db, Stamp, find_booking, put_row, rate_row, set_booking_version, next_booking_version, is_none,
}
use our_driveway.Booking.Table.Laws.{find-id, find-put_row, find-set_booking_version-put_row}
use our_driveway.Booking.Service.Settle.{rate_in, rate_booking}
use our_driveway.Booking.Outcome.{Outcome, same, wrote, next_found, admits, due}
use our_driveway.Booking.Outcome.Leaves.{Leaves}

module _ (db : Db) (stamp : Stamp) (id : ℕ) where
  rate_row-none :
      (rating : ℤ)
      → find_booking id db.bookings ≡ none
      → rate_row id rating db.bookings ≡ (db.bookings, false)
  unfolding rate_row
  rate_row-none rating e = ground arith

  rate_row_refused :
      (rating : ℤ) (b : Booking)
      → find_booking id db.bookings ≡ some b
      → (status_eq b.status Status.confirmed && is_none b.rating) ≡ false
      → rate_row id rating db.bookings ≡ (db.bookings, false)
  unfolding rate_row
  rate_row_refused rating b e g = ground arith

  rate_row_done :
      (rating : ℤ) (b : Booking)
      → find_booking id db.bookings ≡ some b
      → (status_eq b.status Status.confirmed && is_none b.rating) ≡ true
      → rate_row id rating db.bookings
        ≡ (put_row (record b { rating = some rating }) db.bookings, true)
  unfolding rate_row
  rate_row_done rating b e g = ground arith

  rate_booking_refused :
      (b : Booking) (rating : ℤ)
      → rate_row id rating db.bookings ≡ (db.bookings, false)
      → rate_booking stamp b id rating db ≡ err (api 409 "Already rated")
  unfolding rate_booking rate_in
  rate_booking_refused b rating e = rw (e, rate_booking, rate_in) refl

  module _ (by b : Booking) (rating : ℤ) where
    -- The row with the rating, and the tables after it is numbered and announced.
    abbrev starred : Booking
    starred = record b { rating = some rating }

    abbrev after_rating : ℤ → Db
    after_rating v = record {
      bookings = set_booking_version id v (put_row starred db.bookings);
      spots = db.spots;
      outbox =
          enqueue
            (record {
              id = stamp.event_id;
              payload = record {
                subject = by.spot_id;
                aggregate = id;
                version = v;
                occurred_at = stamp.occurred_at;
                actor_id = some by.renter_id;
                payload = BookingEvent.rated id rating;
              };
              created_at = stamp.created_at;
            })
            db.outbox;
    }

    rate_booking_done :
        rate_row id rating db.bookings ≡ (put_row starred db.bookings, true)
        → rate_booking stamp by id rating db
          ≡ ok (
            next_booking_version id (put_row starred db.bookings),
            after_rating (next_booking_version id (put_row starred db.bookings)),
          )
    unfolding rate_booking rate_in
    rate_booking_done e = rw (e, rate_booking, rate_in) refl

    next_starred :
        find_booking id db.bookings ≡ some b
        → next_booking_version id (put_row starred db.bookings) ≡ next_version (some b.version)
    next_starred e =
        next_found (record db { bookings = put_row starred db.bookings }) id starred
          (find-put_row id starred db.bookings ∙ ground (arith, find-id id db.bookings b e))

    starred-Outcome :
        find_booking id db.bookings ≡ some b
        → admits (BookingEvent.rated id rating) b ≡ true
        → Outcome
            (due (BookingEvent.rated id rating) id db)
            (BookingEvent.rated id rating)
            id
            stamp.event_id
            db
            (after_rating (next_booking_version id (put_row starred db.bookings)))
    starred-Outcome e g =
        wrote b _ (rw e g) e g
          (λ k. rw (next_starred e) (
            find-set_booking_version-put_row k id _ starred db.bookings
              (find-id id db.bookings b e)))
          refl refl refl refl (next_starred e) refl

  committed_of :
      {r : Result MyError (ℤ × Db)} (runs : Bool) (event : BookingEvent) (m : Tx Db ℤ)
      → m db ≡ r
      → Outcome runs event id stamp.event_id db (elim r [ ok (a, s') ↦ s' | err x ↦ db ])
      → Leaves runs event id stamp.event_id m db
  committed_of runs event m e o =
      subst
        (λ (r : Result MyError (ℤ × Db)).
          Outcome runs event id stamp.event_id db (elim r [ ok (a, s') ↦ s' | err x ↦ db ]))
        (sym e) o

  pub rate_booking-Leaves :
      (by : Booking) (rating : ℤ)
      → Leaves
          (due (BookingEvent.rated id rating) id db)
          (BookingEvent.rated id rating)
          id
          stamp.event_id
          (rate_booking stamp by id rating)
          db
  rate_booking-Leaves by rating = elim (Option-cases (find_booking id db.bookings)) [
    | inl e ↦
        committed_of (due (BookingEvent.rated id rating) id db) (BookingEvent.rated id rating)
          (rate_booking stamp by id rating)
          (rate_booking_refused by rating (rate_row-none rating e)) (same (rw e refl) refl)
    | inr (b, e) ↦ elim (Bool-cases (admits (BookingEvent.rated id rating) b)) [
      | inl g ↦
          committed_of (due (BookingEvent.rated id rating) id db) (BookingEvent.rated id rating)
            (rate_booking stamp by id rating)
            (rate_booking_done by b rating (rate_row_done rating b e g))
            (starred-Outcome by b rating e g)
      | inr g ↦
          committed_of (due (BookingEvent.rated id rating) id db) (BookingEvent.rated id rating)
            (rate_booking stamp by id rating)
            (rate_booking_refused by rating (rate_row_refused rating b e g)) (same (rw e g) refl)
    ]
  ]
