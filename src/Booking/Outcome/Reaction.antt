-- ===== src/Booking/Outcome/Reaction.antt =====
-- apps/services/booking-service/src/projector.rs: what the transaction of a SPOTS event leaves in the
-- tables, one booking of the spot after another.
use our_driveway.Prelude.{
  ℕ, suc, ◌≤◌, ◌==◌, ◌&&◌, ltb, length, keep, arith, ◌≡◌, refl, ◌∙◌, Bool, true, false, Option,
  none, some, List, [], ◌∷◌, Bool-cases, Option-cases, inl, inr,
}
use our_driveway.Prelude.Membership.{length-keep-le}
use our_driveway.Prelude.Int.{ℤ}
use our_driveway.Prelude.Result.{ok, bind_ok}
use our_driveway.Shared.Bookings.{Booking, BookingEvent, Status, status_eq, spot_unavailable}
use our_driveway.Shared.Slots.{Availability}
use our_driveway.Shared.Spots.{SpotEvent, spot_id_of}
use our_driveway.Booking.Availability.{check}
use our_driveway.Booking.Schedule.{Calendar}
use our_driveway.Booking.Table.{Db, Stamp, upcoming_confirmed, merge, set_spot_version}
use our_driveway.Booking.Reactor.{
  is_ok, cancel_unavailable, patch_of, fits, kept_by, cancel_each, withdraw, react, apply_spot,
}
use our_driveway.Booking.Outcome.{Outcome, Outcome-spots, due}
use our_driveway.Booking.Outcome.Chain.{Chain, stop, skip, link, Chain-extend}
use our_driveway.Booking.Outcome.Handlers.{cancel_unavailable-Settles}

-- Whether a paid booking outlives an event of its spot: its hours still lie in the spot's.
abbrev pub stays : Calendar → SpotEvent → Booking → Bool
stays cal (SpotEvent.created e) b = true
stays cal (SpotEvent.updated e) b = elim e.availability [
  | none ↦ true
  | some a ↦ is_ok (check cal.weekday_of a [] b.booked)
]
stays cal (SpotEvent.deleted id) b = false

-- The paid bookings of a spot that end after an instant.
abbrev pub ahead : ℕ → ℕ → List Booking → List Booking
ahead spot_id when rows =
    keep (λ b. b.spot_id == spot_id && status_eq b.status Status.confirmed && ltb when b.ends_at)
      rows

-- The bookings that an event of their spot puts in question.
abbrev pub in_question : SpotEvent → ℕ → List Booking → List Booking
in_question (SpotEvent.created e) when rows = []
in_question (SpotEvent.updated e) when rows = elim e.availability [
  | none ↦ []
  | some a ↦ ahead e.spot_id when rows
]
in_question (SpotEvent.deleted id) when rows = ahead id when rows

-- Of the bookings, in their order, each that does not stay is cancelled, if its row is there and
-- confirmed; the `n`-th takes the `n`-th stamp.
pub data Withdrawn (keeps : Booking → Bool) (stamps : ℕ → Stamp)
    : ℕ → List Booking → Db → Db → Type 0 where
  all_done : {n : ℕ} {db : Db} → Withdrawn keeps stamps n [] db db
  left :
      {n : ℕ} {b : Booking} {bs : List Booking} {db db' : Db}
      → keeps b ≡ true
      → Withdrawn keeps stamps (suc n) bs db db'
      → Withdrawn keeps stamps n (b ∷ bs) db db'
  ended :
      {n : ℕ} {b : Booking} {bs : List Booking} {db mid db' : Db}
      → keeps b ≡ false
      → Outcome
          (due (BookingEvent.cancelled b.id spot_unavailable) b.id db)
          (BookingEvent.cancelled b.id spot_unavailable)
          b.id
          (stamps n).event_id
          db
          mid
      → Withdrawn keeps stamps (suc n) bs mid db'
      → Withdrawn keeps stamps n (b ∷ bs) db db'

-- The bookings in question are gone through, and the event goes into the mirror of its spot.
pub record Reacted (cal : Calendar) (stamps : ℕ → Stamp) (event : SpotEvent) (when : ℕ)
    (version : ℤ) (db db' : Db) : Type 0 where
  pub mid : Db
  pub withdrawn : Withdrawn (stays cal event) stamps 0 (in_question event when db.bookings) db mid
  pub bookings : db'.bookings ≡ mid.bookings
  pub outbox : db'.outbox ≡ mid.outbox
  pub mirror :
      db'.spots
      ≡ set_spot_version
          (spot_id_of event)
          version
          (merge (spot_id_of event) (patch_of event) db.spots)

module _ (keeps : Booking → Bool) (stamps : ℕ → Stamp) where
  Withdrawn-spots :
      {n : ℕ} {bs : List Booking} {db db' : Db}
      → Withdrawn keeps stamps n bs db db'
      → db'.spots ≡ db.spots
  Withdrawn-spots all_done = refl
  Withdrawn-spots (left k w) = Withdrawn-spots w
  Withdrawn-spots (ended k o w) = Withdrawn-spots w ∙ Outcome-spots _ _ _ _ _ _ o

  Withdrawn-Chain :
      {n : ℕ} {bs : List Booking} {db db' : Db}
      → Withdrawn keeps stamps n bs db db'
      → Chain stamps n (length bs) db db'
  Withdrawn-Chain all_done = stop refl refl
  Withdrawn-Chain (left k w) = skip (Withdrawn-Chain w)
  Withdrawn-Chain (ended k o w) = link _ o (Withdrawn-Chain w)

in_question_bound :
    (event : SpotEvent) (when : ℕ) (rows : List Booking)
    → length (in_question event when rows) ≤ length rows
in_question_bound (SpotEvent.created e) when rows = omega arith
in_question_bound (SpotEvent.deleted id) when rows = omega (
  arith,
  length-keep-le
      (λ (b : Booking).
        b.spot_id == id && status_eq b.status Status.confirmed && ltb when b.ends_at)
      rows,
)
in_question_bound (SpotEvent.updated e) when rows = elim (Option-cases e.availability) [
  | inl h ↦ rw h (omega arith)
  | inr (a, h) ↦ rw h (
      omega (
        arith,
        length-keep-le
            (λ (b : Booking).
              b.spot_id == e.spot_id && status_eq b.status Status.confirmed && ltb when b.ends_at)
            rows,
      ))
]

pub Reacted-Chain :
    (cal : Calendar) (stamps : ℕ → Stamp) (event : SpotEvent) (when : ℕ) (version : ℤ) (db db' : Db)
    → Reacted cal stamps event when version db db'
    → (m : ℕ) × (m ≤ length db.bookings) × Chain stamps 0 m db db'
Reacted-Chain cal stamps event when version db db' r = (
  length (in_question event when db.bookings),
  in_question_bound event when db.bookings,
  Chain-extend stamps (Withdrawn-Chain (stays cal event) stamps r.withdrawn) r.bookings r.outbox,
)

module _ (cal : Calendar) (stamps : ℕ → Stamp) where
  cancel_each-Withdrawn :
      (hours : Option Availability) (n : ℕ) (bs : List Booking) (db : Db)
      → (db' : Db) × (cancel_each cal hours stamps n bs db ≡ ok (tt, db'))
        × Withdrawn (kept_by cal hours) stamps n bs db db'
  unfolding cancel_each
  cancel_each-Withdrawn hours n [] db = (db, refl, all_done)
  cancel_each-Withdrawn hours n (b ∷ rest) db = elim (Bool-cases (kept_by cal hours b)) [
    | inl k ↦
        let (db', e, w) = cancel_each-Withdrawn hours (suc n) rest db in (db', rw k e, left k w)
    | inr k ↦
        let (v, mid, e, o) = cancel_unavailable-Settles db (stamps n) b in
        let (db', f, w) = cancel_each-Withdrawn hours (suc n) rest mid in
        (db', rw k (bind_ok (cancel_unavailable (stamps n) b) _ db mid v e ∙ f), ended k o w)
  ]

  withdraw-Withdrawn :
      (hours : Option Availability) (spot_id when : ℕ) (db : Db)
      → (db' : Db) × (withdraw cal hours stamps spot_id when db ≡ ok (tt, db'))
        × Withdrawn (kept_by cal hours) stamps 0 (ahead spot_id when db.bookings) db db'
  unfolding withdraw upcoming_confirmed
  withdraw-Withdrawn hours spot_id when db =
      cancel_each-Withdrawn hours 0 (ahead spot_id when db.bookings) db

  react-Withdrawn :
      (event : SpotEvent) (when : ℕ) (db : Db)
      → (db' : Db) × (react cal stamps event when db ≡ ok (tt, db'))
        × Withdrawn (stays cal event) stamps 0 (in_question event when db.bookings) db db'
  unfolding react withdraw kept_by fits
  react-Withdrawn (SpotEvent.created e) when db = (db, refl, all_done)
  react-Withdrawn (SpotEvent.deleted id) when db = withdraw-Withdrawn none id when db
  react-Withdrawn (SpotEvent.updated e) when db = elim (Option-cases e.availability) [
    | inl h ↦ (db, rw (h, react), rw h all_done)
    | inr (a, h) ↦
        let (db', f, w) = withdraw-Withdrawn (some a) e.spot_id when db in
        (db', rw (h, react) f, rw h w)
  ]

  -- `SpotProjector::apply` always answers. Where the spot is deleted or its hours change, it goes
  -- through the confirmed bookings of the spot that end after the event, in their order: each
  -- whose hours do not lie in the spot's, or every one of a deleted spot, is cancelled as the
  -- spot's doing, if its row is still there and confirmed, with the next version and one event
  -- that tells it; the others stay. Then the event is merged into the mirror of the spot, with its
  -- version.
  pub apply_spot-Reacted :
      (event : SpotEvent) (when : ℕ) (version : ℤ) (db : Db)
      → (db' : Db) × (apply_spot cal stamps event when version db ≡ ok (tt, db'))
        × Reacted cal stamps event when version db db'
  unfolding apply_spot
  apply_spot-Reacted event when version db =
      let (mid, e, w) = react-Withdrawn event when db in
      let final : Db = record mid {
        spots =
            set_spot_version (spot_id_of event) version
              (merge (spot_id_of event) (patch_of event) mid.spots);
      } in
      (
        final,
        bind_ok (react cal stamps event when) _ db mid tt e,
        record {
          mid = mid;
          withdrawn = w;
          bookings = refl;
          outbox = refl;
          mirror = rw (Withdrawn-spots (stays cal event) stamps w);
        },
      )
