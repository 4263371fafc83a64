-- ===== src/Booking/Outcome.antt =====
-- What a transaction of booking-service that moves one booking leaves behind: every table as it was, or
-- one row as its event tells, with the next version, and that event.
pub mod Leaves
pub mod Rating
pub mod Handlers
pub mod Creation
pub mod Chain
pub mod Reaction
use our_driveway.Prelude.{
  ℕ, ◌==◌, ◌≡◌, refl, sym, ap, ◌∙◌, Bool, true, false, Option, none, some, List, [], ◌∷◌, arith,
  if◌then◌else◌, ◌&&◌, Bool-cases, Option-cases, inl, inr,
}
use our_driveway.Prelude.Int.{ℤ, ◌-ℤ◌, pos, i64}
use our_driveway.Prelude.Result.{MyError, Result, ok, err, Tx, committed}
use our_driveway.Shared.Slots.{Booked}
use our_driveway.Shared.Versions.{Changed, changed, unchanged, from_rows, next_version, set_version}
use our_driveway.Shared.Bookings.{
  Status, status_eq, among, Booking, BookingEvent, ReleaseReason, CancelReason,
}
use our_driveway.Bus.Outbox.{Pending, enqueue}
use our_driveway.Booking.Table.{
  Db, Stamp, Envelope, find_booking, put_row, moved, transition, rate_row, next_booking_version,
  is_none, set_booking_version,
}
use our_driveway.Booking.Table.Laws.{
  find-put_row, find-id, renumbered, find-set_booking_version-put_row,
}
use our_driveway.Booking.Service.Settle.{
  settle, move_row, numbered, rate_in, release, cancel, rate, confirm_paid, sweep_one,
}

-- The life of a booking; to rate it leaves it confirmed.
pub data Moves : Status → Status → Type 0 where
  pays : Moves Status.reserved Status.confirmed
  lets_go : Moves Status.reserved Status.released
  withdraws : Moves Status.confirmed Status.cancelled
  rates : Moves Status.confirmed Status.confirmed

-- The row after an event, but for its version.
abbrev pub told : BookingEvent → Booking → Booking
told (BookingEvent.created e) b = b
told (BookingEvent.confirmed id) b = record b { status = Status.confirmed; hold_until = none }
told (BookingEvent.released id why) b = record b {
  status = Status.released;
  hold_until = none;
  release_reason = some why;
}
told (BookingEvent.cancelled id why) b = record b {
  status = Status.cancelled;
  hold_until = none;
  cancel_reason = some why;
}
told (BookingEvent.rated id rating) b = record b { rating = some rating }

-- Whether a row admits an event.
abbrev pub admits : BookingEvent → Booking → Bool
admits (BookingEvent.created e) b = false
admits (BookingEvent.confirmed id) b = among (Status.reserved ∷ []) b.status
admits (BookingEvent.released id why) b = among (Status.reserved ∷ []) b.status
admits (BookingEvent.cancelled id why) b = among (Status.confirmed ∷ []) b.status
admits (BookingEvent.rated id rating) b = status_eq b.status Status.confirmed && is_none b.rating

-- Whether there is something, and it passes the test.
abbrev pub passes : {A : Type 0} → Option A → (A → Bool) → Bool
passes none f = false
passes (some a) f = f a

-- Whether the row with the id is there, and admits the event.
abbrev pub due : BookingEvent → ℕ → Db → Bool
due event id db = passes (find_booking id db.bookings) (admits event)

abbrev pub after : BookingEvent → Booking → Booking
after event b = renumbered (next_version (some b.version)) (told event b)

-- The new row is the old one, moved on and numbered anew; what it holds of the spot is unchanged.
pub record Follows (old new : Booking) : Type 0 where
  pub spot : new.spot_id ≡ old.spot_id
  pub slots : new.booked ≡ old.booked
  pub ending : new.ends_at ≡ old.ends_at
  pub status : Moves old.status new.status
  pub version : new.version ≡ set_version old.version (next_version (some old.version))

-- A transaction that is to tell `event` of the booking `id`, if `runs`.
pub data Outcome (runs : Bool) (event : BookingEvent) (id event_id : ℕ) (db db' : Db) : Type 0 where
  same : runs ≡ false → db' ≡ db → Outcome runs event id event_id db db'
  wrote :
      (old : Booking) (row : Pending Envelope)
      → runs ≡ true
      → find_booking id db.bookings ≡ some old
      → admits event old ≡ true
      → ((k : ℕ)
          → find_booking k db'.bookings
            ≡ (if id == k then some (after event old) else find_booking k db.bookings))
      → db'.spots ≡ db.spots
      → db'.outbox ≡ enqueue row db.outbox
      → row.id ≡ event_id
      → row.payload.aggregate ≡ id
      → row.payload.version ≡ next_version (some old.version)
      → row.payload.payload ≡ event
      → Outcome runs event id event_id db db'

pub Outcome-spots :
    (runs : Bool) (event : BookingEvent) (id event_id : ℕ) (db db' : Db)
    → Outcome runs event id event_id db db'
    → db'.spots ≡ db.spots
Outcome-spots runs event id event_id db db' (same r e) = ap (λ (d : Db). d.spots) e
Outcome-spots runs event id event_id db db' (wrote old row r f ad g sp o i a v p) = sp

pays_of : (s : Status) → among (Status.reserved ∷ []) s ≡ true → Moves s Status.confirmed
pays_of Status.reserved h = pays
pays_of Status.confirmed h = cc
pays_of Status.released h = cc
pays_of Status.cancelled h = cc
pays_of (Status.other n) h = cc

lets_go_of : (s : Status) → among (Status.reserved ∷ []) s ≡ true → Moves s Status.released
lets_go_of Status.reserved h = lets_go
lets_go_of Status.confirmed h = cc
lets_go_of Status.released h = cc
lets_go_of Status.cancelled h = cc
lets_go_of (Status.other n) h = cc

withdraws_of : (s : Status) → among (Status.confirmed ∷ []) s ≡ true → Moves s Status.cancelled
withdraws_of Status.confirmed h = withdraws
withdraws_of Status.reserved h = cc
withdraws_of Status.released h = cc
withdraws_of Status.cancelled h = cc
withdraws_of (Status.other n) h = cc

rates_of : (s : Status) → status_eq s Status.confirmed ≡ true → Moves s s
rates_of Status.confirmed h = rates
rates_of Status.reserved h = cc
rates_of Status.released h = cc
rates_of Status.cancelled h = cc
rates_of (Status.other n) h = cc

-- A row that an event is told of follows the row before.
pub after-Follows :
    (event : BookingEvent) (b : Booking) → admits event b ≡ true → Follows b (after event b)
after-Follows (BookingEvent.created e) b h = cc
after-Follows (BookingEvent.confirmed id) b h = record {
  spot = refl;
  slots = refl;
  ending = refl;
  status = pays_of b.status h;
  version = refl;
}
after-Follows (BookingEvent.released id why) b h = record {
  spot = refl;
  slots = refl;
  ending = refl;
  status = lets_go_of b.status h;
  version = refl;
}
after-Follows (BookingEvent.cancelled id why) b h = record {
  spot = refl;
  slots = refl;
  ending = refl;
  status = withdraws_of b.status h;
  version = refl;
}
after-Follows (BookingEvent.rated id rating) b h = record {
  spot = refl;
  slots = refl;
  ending = refl;
  status = rates_of b.status (ground arith);
  version = refl;
}

-- A transaction that answers, with its outcome.
abbrev pub Settles : Bool → BookingEvent → ℕ → ℕ → Tx Db ℤ → Db → Type 0
Settles runs event id event_id m db =
    (v : ℤ) × (db' : Db) × (m db ≡ ok (v, db')) × Outcome runs event id event_id db db'

pub next_found :
    (db : Db) (id : ℕ) (b : Booking)
    → find_booking id db.bookings ≡ some b
    → next_booking_version id db.bookings ≡ next_version (some b.version)
unfolding next_booking_version
next_found db id b e = rw (e, next_booking_version)

module _ (stamp : Stamp) (spot_id id : ℕ) (actor : Option ℕ) (to : Status) (from : List Status)
    (why_released : Option ReleaseReason) (why_cancelled : Option CancelReason)
    (event : BookingEvent) (db : Db) where
  transition_missing :
      find_booking id db.bookings ≡ none
      → transition id to from why_released why_cancelled db.bookings ≡ (db.bookings, unchanged)
  unfolding transition from_rows
  transition_missing e = ground arith

  transition_refused :
      (b : Booking)
      → find_booking id db.bookings ≡ some b
      → among from b.status ≡ false
      → transition id to from why_released why_cancelled db.bookings ≡ (db.bookings, unchanged)
  unfolding transition from_rows
  transition_refused b e g = ground arith

  transition-moved :
      (b : Booking)
      → find_booking id db.bookings ≡ some b
      → among from b.status ≡ true
      → transition id to from why_released why_cancelled db.bookings
        ≡ (put_row (moved to why_released why_cancelled b) db.bookings, changed)
  unfolding transition from_rows
  transition-moved b e g = ground arith

  settle_unchanged :
      transition id to from why_released why_cancelled db.bookings ≡ (db.bookings, unchanged)
      → settle stamp spot_id id actor to from why_released why_cancelled event db
        ≡ ok (i64 (next_booking_version id db.bookings -ℤ pos 1), db)
  unfolding settle move_row numbered
  settle_unchanged e = rw (e, settle)

  -- The rows and the outbox after a move.
  abbrev settled : ℤ → Booking → Db
  settled v b = record {
    bookings =
        set_booking_version id v (put_row (moved to why_released why_cancelled b) db.bookings);
    spots = db.spots;
    outbox =
        enqueue
          (record {
            id = stamp.event_id;
            payload = record {
              subject = spot_id;
              aggregate = id;
              version = v;
              occurred_at = stamp.occurred_at;
              actor_id = actor;
              payload = event;
            };
            created_at = stamp.created_at;
          })
          db.outbox;
  }

  settle-moved :
      (b : Booking)
      → transition id to from why_released why_cancelled db.bookings
        ≡ (put_row (moved to why_released why_cancelled b) db.bookings, changed)
      → settle stamp spot_id id actor to from why_released why_cancelled event db
        ≡ ok (next_booking_version id db.bookings, settled (next_booking_version id db.bookings) b)
  unfolding settle move_row numbered
  settle-moved b e = rw (e, settle)

  -- The move is the one that the event tells of.
  abbrev pub Tells : Type 0
  Tells =
      (b : Booking)
      → (admits event b ≡ among from b.status)
        × (moved to why_released why_cancelled b ≡ told event b)

  moved-id : (b : Booking) → (moved to why_released why_cancelled b).id ≡ b.id
  unfolding moved
  moved-id b = refl

  settled-Outcome :
      (b : Booking)
      → find_booking id db.bookings ≡ some b
      → among from b.status ≡ true
      → Tells
      → Outcome
          (due event id db)
          event
          id
          stamp.event_id
          db
          (settled (next_booking_version id db.bookings) b)
  settled-Outcome b e g tells =
      let (admitted, move) = tells b in
      wrote b _ (rw e (admitted ∙ g)) e (admitted ∙ g)
        (λ k.
          rw (next_found db id b e, sym move)
            (find-set_booking_version-put_row k id _ _ db.bookings
              (moved-id b ∙ find-id id db.bookings b e)))
        refl refl refl refl (next_found db id b e) refl

  -- `settle` always answers; it moves the row exactly where the row admits the event.
  pub settle-Settles :
      Tells
      → Settles
          (due event id db)
          event
          id
          stamp.event_id
          (settle stamp spot_id id actor to from why_released why_cancelled event)
          db
  settle-Settles tells = elim (Option-cases (find_booking id db.bookings)) [
    | inl e ↦ (_, db, settle_unchanged (transition_missing e), same (rw e refl) refl)
    | inr (b, e) ↦ elim (Bool-cases (among from b.status)) [
      | inl g ↦ (_, _, settle-moved b (transition-moved b e g), settled-Outcome b e g tells)
      | inr g ↦
          (_, db, settle_unchanged (transition_refused b e g), same (rw e ((tells b).0 ∙ g)) refl)
    ]
  ]
