-- ===== src/Booking/Outcome/Handlers.antt =====
-- apps/services/booking-service/src: the handlers that move one booking, each committed or rolled
-- back as a whole.
use our_driveway.Prelude.{ℕ, ◌==◌, ◌&&◌, leb, refl, none, some, [], ◌∷◌}
use our_driveway.Prelude.Int.{ℤ}
use our_driveway.Shared.Bookings.{
  Status, status_eq, Booking, BookingEvent, abandoned, expired, by_renter, spot_unavailable,
}
use our_driveway.Booking.Schedule.{Calendar}
use our_driveway.Booking.Table.{Db, Stamp, find_booking, moved}
use our_driveway.Booking.Service.Settle.{
  release, cancellable, cancel, rate, confirm_paid, sweep_one, not_found,
}
use our_driveway.Booking.Reactor.{cancel_unavailable}
use our_driveway.Booking.Outcome.{Settles, passes, due, settle-Settles}
use our_driveway.Booking.Outcome.Leaves.{
  Leaves, Leaves-require, Leaves-context, Leaves-authorize, settle-Leaves,
}
use our_driveway.Booking.Outcome.Rating.{rate_booking-Leaves}

module _ (db : Db) (stamp : Stamp) where
  pub cancel_unavailable-Settles :
      (b : Booking)
      → let event = BookingEvent.cancelled b.id spot_unavailable in
        Settles (due event b.id db) event b.id stamp.event_id (cancel_unavailable stamp b) db
  unfolding cancel_unavailable moved
  cancel_unavailable-Settles b =
      settle-Settles stamp b.spot_id b.id none Status.cancelled (Status.confirmed ∷ []) none
        (some spot_unavailable) _ db (λ r. (refl, refl))

  pub sweep_one-Leaves :
      (hold : Booking)
      → let event = BookingEvent.released hold.id expired in
        Leaves (due event hold.id db) event hold.id stamp.event_id (sweep_one stamp hold) db
  unfolding sweep_one moved
  sweep_one-Leaves hold =
      settle-Leaves stamp hold.spot_id hold.id none Status.released (Status.reserved ∷ [])
        (some expired) none _ db (λ r. (refl, refl))

  module _ (read : Db) (id : ℕ) where
    pub confirm_paid-Leaves :
        let event = BookingEvent.confirmed id in
        Leaves
          (passes (find_booking id read.bookings) (λ b. due event id db))
          event
          id
          stamp.event_id
          (confirm_paid read stamp id)
          db
    unfolding confirm_paid moved
    confirm_paid-Leaves =
        let event = BookingEvent.confirmed id in
        Leaves-context event id stamp.event_id db (λ b. due event id db)
          (find_booking id read.bookings) not_found _
          (λ b.
            settle-Leaves stamp b.spot_id id none Status.confirmed (Status.reserved ∷ []) none none
              event db (λ r. (refl, refl)))

    pub release-Leaves :
        (renter_id : ℕ)
        → let event = BookingEvent.released id abandoned in
          Leaves
            (passes (find_booking id read.bookings) (λ b.
              b.renter_id == renter_id && (status_eq b.status Status.reserved && due event id db)))
            event
            id
            stamp.event_id
            (release read stamp renter_id id)
            db
    unfolding release moved
    release-Leaves renter_id =
        let event = BookingEvent.released id abandoned in
        Leaves-context event id stamp.event_id db _ (find_booking id read.bookings) not_found _
          (λ b.
            Leaves-authorize event id stamp.event_id db (due event id db) b renter_id
              Status.reserved _
              (settle-Leaves stamp b.spot_id id (some renter_id) Status.released
                (Status.reserved ∷ []) (some abandoned) none event db (λ r. (refl, refl))))

    pub cancel-Leaves :
        (cal : Calendar) (now renter_id : ℕ)
        → let event = BookingEvent.cancelled id by_renter in
          Leaves
            (passes (find_booking id read.bookings) (λ b.
              b.renter_id == renter_id
              && (status_eq b.status Status.confirmed
                  && (cancellable cal read b now && due event id db))))
            event
            id
            stamp.event_id
            (cancel cal read stamp now renter_id id)
            db
    unfolding cancel moved
    cancel-Leaves cal now renter_id =
        let event = BookingEvent.cancelled id by_renter in
        Leaves-context event id stamp.event_id db _ (find_booking id read.bookings) not_found _
          (λ b.
            Leaves-authorize event id stamp.event_id db
              (cancellable cal read b now && due event id db) b renter_id Status.confirmed _
              (Leaves-require event id stamp.event_id db (due event id db)
                (cancellable cal read b now) _ _
                (settle-Leaves stamp b.spot_id id (some renter_id) Status.cancelled
                  (Status.confirmed ∷ []) none (some by_renter) event db (λ r. (refl, refl)))))

    pub rate-Leaves :
        (now renter_id : ℕ) (rating : ℤ)
        → let event = BookingEvent.rated id rating in
          Leaves
            (passes (find_booking id read.bookings) (λ b.
              b.renter_id == renter_id
              && (status_eq b.status Status.confirmed && (leb b.ends_at now && due event id db))))
            event
            id
            stamp.event_id
            (rate read stamp now renter_id id rating)
            db
    unfolding rate
    rate-Leaves now renter_id rating =
        let event = BookingEvent.rated id rating in
        Leaves-context event id stamp.event_id db _ (find_booking id read.bookings) not_found _
          (λ b.
            Leaves-authorize event id stamp.event_id db (leb b.ends_at now && due event id db) b
              renter_id Status.confirmed _
              (Leaves-require event id stamp.event_id db (due event id db) (leb b.ends_at now) _ _
                (rate_booking-Leaves db stamp id b rating)))
