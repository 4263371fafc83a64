-- ===== src/Booking/Outcome/Leaves.antt =====
-- apps/services/booking-service/src/service: the steps that the handlers share, and when they let a
-- transaction run.
use our_driveway.Prelude.{
  ℕ, ◌==◌, ◌&&◌, refl, sym, Bool, true, false, Option, none, some, List, Bool-cases, inl, inr,
  subst,
}
use our_driveway.Prelude.Int.{ℤ}
use our_driveway.Prelude.Result.{
  MyError, Result, ok, err, Tx, ◌>>=◌, ◌>>◌, require, context, committed,
}
use our_driveway.Shared.Bookings.{
  Status, status_eq, Booking, BookingEvent, ReleaseReason, CancelReason,
}
use our_driveway.Booking.Table.{Db, Stamp}
use our_driveway.Booking.Service.Settle.{authorize, settle}
use our_driveway.Booking.Outcome.{Outcome, same, Settles, Tells, passes, due, settle-Settles}

-- What a transaction leaves in the tables, whether it answers or is rolled back.
abbrev pub Leaves : Bool → BookingEvent → ℕ → ℕ → Tx Db ℤ → Db → Type 0
Leaves runs event id event_id m db = Outcome runs event id event_id db (committed m db)

module _ (event : BookingEvent) (id event_id : ℕ) (db : Db) where
  pub Leaves-of-Settles :
      (runs : Bool) (m : Tx Db ℤ)
      → Settles runs event id event_id m db
      → Leaves runs event id event_id m db
  Leaves-of-Settles runs m (v, db', e, o) =
      subst
        (λ (r : Result MyError (ℤ × Db)).
          Outcome runs event id event_id db (elim r [ ok (a, s') ↦ s' | err x ↦ db ]))
        (sym e) o

  pub Leaves-require :
      (runs c : Bool) (e : MyError) (m : Tx Db ℤ)
      → Leaves runs event id event_id m db
      → Leaves (c && runs) event id event_id (require c e >> m) db
  Leaves-require runs true e m h = h
  Leaves-require runs false e m h = same refl refl

  pub Leaves-context :
      {A : Type 0} (runs : A → Bool) (o : Option A) (e : MyError) (f : A → Tx Db ℤ)
      → ((a : A) → Leaves (runs a) event id event_id (f a) db)
      → Leaves (passes o runs) event id event_id (context o e >>= f) db
  Leaves-context runs none e f h = same refl refl
  Leaves-context runs (some a) e f h = h a

  pub Leaves-authorize :
      (runs : Bool) (b : Booking) (renter_id : ℕ) (s : Status) (m : Tx Db ℤ)
      → Leaves runs event id event_id m db
      → Leaves
          (b.renter_id == renter_id && (status_eq b.status s && runs))
          event
          id
          event_id
          (authorize b renter_id s >> m)
          db
  unfolding authorize
  Leaves-authorize runs b renter_id s m h = elim (Bool-cases (b.renter_id == renter_id)) [
    | inl e ↦ elim (Bool-cases (status_eq b.status s)) [
      | inl f ↦ rw (e, f) h
      | inr f ↦ rw (e, f) (same refl refl)
    ]
    | inr e ↦ rw e (same refl refl)
  ]

module _ (stamp : Stamp) (spot_id id : ℕ) (actor : Option ℕ) (to : Status) (from : List Status)
    (why_released : Option ReleaseReason) (why_cancelled : Option CancelReason)
    (event : BookingEvent) (db : Db) where
  pub settle-Leaves :
      Tells stamp spot_id id actor to from why_released why_cancelled event db
      → Leaves
          (due event id db)
          event
          id
          stamp.event_id
          (settle stamp spot_id id actor to from why_released why_cancelled event)
          db
  settle-Leaves tells =
      Leaves-of-Settles event id stamp.event_id db (due event id db)
        (settle stamp spot_id id actor to from why_released why_cancelled event)
        (settle-Settles stamp spot_id id actor to from why_released why_cancelled event db tells)
