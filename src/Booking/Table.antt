-- ===== src/Booking/Table.antt =====
-- apps/services/booking-service/src/repository: the tables `booking` and `spot`, keyed by their
-- ids, and the `_outbox` beside them. A statement reads or writes these rows.
pub mod Laws
pub mod Taken
use mathlib.Core.Option
use our_driveway.Prelude.{
  or_else, ℕ, ◌==◌, ltb, Bool, true, false, not, ◌&&◌, Option, none, some, List, [], ◌∷◌, ◌++◌,
  if◌then◌else◌, find?, keep, take,
}
use our_driveway.Prelude.Int.{ℤ, pos}
use our_driveway.Prelude.Text.{Text, text_eq}
use our_driveway.Prelude.Result.{Tx, modify}
use our_driveway.Shared.Slots.{TimeSlot, Booked}
use our_driveway.Shared.Versions.{Changed, from_rows, next_version, set_version}
use our_driveway.Shared.Bookings.{
  Status, status_eq, among, Booking, BookingEvent, ReleaseReason, CancelReason,
}
use our_driveway.Shared.Spots.{SpotMirror, SpotMirrorPatch}
use our_driveway.Bus.Outbox.{Pending, enqueue}

-- `Envelope<BookingEvent>` with its subject `bookings.spot.<spot>`, about `booking:<aggregate>`.
pub record Envelope : Type 0 where
  pub subject : ℕ
  pub aggregate : ℕ
  pub version : ℤ
  pub occurred_at : ℕ
  pub actor_id : Option ℕ
  pub payload : BookingEvent

-- A row of the `spot` table: the mirrored columns, and the spot's version.
pub record SpotRow : Type 0 where
  pub mirror : SpotMirror
  pub version : ℤ

pub record Db : Type 0 where
  pub bookings : List Booking
  pub spots : List SpotRow
  pub outbox : List (Pending Envelope)

-- The id and the instants that `Envelope::new` and the outbox row take from outside.
pub record Stamp : Type 0 where
  pub event_id : ℕ
  pub occurred_at : ℕ
  pub created_at : ℕ

-- `BookingRepository::find_by_id`
unfoldable pub find_booking : ℕ → List Booking → Option Booking
find_booking id rows = find? (λ b. b.id == id) rows

-- A row is inserted, or replaces the row with its id.
unfoldable pub put_row : Booking → List Booking → List Booking
put_row row [] = row ∷ []
put_row row (b ∷ rows) = if b.id == row.id then row ∷ rows else b ∷ put_row row rows

-- The `SET` list of `upsert`: a field of the row that is `None` leaves its column alone.
abbrev pub kept_columns : Option Booking → Booking → Booking
kept_columns old row = record row {
  hold_until = or_else row.hold_until (Option.bind old (λ (b : Booking). b.hold_until));
  release_reason = or_else row.release_reason (Option.bind old (λ (b : Booking). b.release_reason));
  cancel_reason = or_else row.cancel_reason (Option.bind old (λ (b : Booking). b.cancel_reason));
  rating = or_else row.rating (Option.bind old (λ (b : Booking). b.rating));
}

-- `BookingRepository::upsert`: insert, or write over the row with the id.
unfoldable pub upsert : Booking → List Booking → List Booking
upsert row rows = put_row (kept_columns (find_booking row.id rows) row) rows

-- The `SET` list of `transition`.
unfoldable pub moved : Status → Option ReleaseReason → Option CancelReason → Booking → Booking
moved to release cancel b = record b {
  status = to;
  hold_until = none;
  release_reason = or_else release b.release_reason;
  cancel_reason = or_else cancel b.cancel_reason;
}

-- `BookingRepository::transition`: an `UPDATE` of the row with the id, if its status is in `from`.
unfoldable pub transition :
    ℕ
    → Status
    → List Status
    → Option ReleaseReason
    → Option CancelReason
    → List Booking
    → List Booking × Changed
transition id to from release cancel rows = elim (find_booking id rows) [
  | none ↦ (rows, from_rows 0)
  | some b ↦
      if among from b.status
      then (put_row (moved to release cancel b) rows, from_rows 1)
      else (rows, from_rows 0)
]

abbrev pub is_none : {A : Type 0} → Option A → Bool
is_none none = true
is_none (some a) = false

-- `BookingRepository::rate`: only a confirmed row with no rating; whether a row was written.
unfoldable pub rate_row : ℕ → ℤ → List Booking → List Booking × Bool
rate_row id rating rows = elim (find_booking id rows) [
  | none ↦ (rows, false)
  | some b ↦
      if status_eq b.status Status.confirmed && is_none b.rating
      then (put_row (record b { rating = some rating }) rows, true)
      else (rows, false)
]

-- `booked.entry(date).or_default().extend(slots)`
unfoldable pub extend_date : Text → List TimeSlot → Booked → Booked
extend_date date slots [] = (date, slots) ∷ []
extend_date date slots ((d, old) ∷ rest) =
    if text_eq d date then (d, old ++ slots) ∷ rest else (d, old) ∷ extend_date date slots rest

unfoldable pub extend_all : Booked → Booked → Booked
extend_all [] acc = acc
extend_all ((date, slots) ∷ rest) acc = extend_all rest (extend_date date slots acc)

-- The filter of `taken_for_spot`.
unfoldable pub blocks : ℕ → ℕ → Booking → Bool
blocks spot_id now b =
    b.spot_id == spot_id
    && ltb now b.ends_at
    && not (among (Status.released ∷ Status.cancelled ∷ []) b.status)

unfoldable pub union_of : List Booking → Booked → Booked
union_of [] acc = acc
union_of (b ∷ rows) acc = union_of rows (extend_all b.booked acc)

-- `BookingRepository::taken_for_spot`
unfoldable pub taken_for_spot : ℕ → ℕ → List Booking → Booked
taken_for_spot spot_id now rows = union_of (keep (blocks spot_id now) rows) []

-- The filter of `lapsed_holds`.
unfoldable pub lapsed : ℕ → Booking → Bool
lapsed now b =
    status_eq b.status Status.reserved
    && elim b.hold_until [ none ↦ false | some until ↦ ltb until now ]

-- `BookingRepository::lapsed_holds`
unfoldable pub lapsed_holds : ℕ → ℕ → List Booking → List Booking
lapsed_holds limit now rows = take limit (keep (lapsed now) rows)

-- `BookingRepository::upcoming_confirmed`
unfoldable pub upcoming_confirmed : ℕ → ℕ → List Booking → List Booking
upcoming_confirmed spot_id when rows =
    keep (λ b. b.spot_id == spot_id && status_eq b.status Status.confirmed && ltb when b.ends_at)
      rows

-- `SpotMirrorRepository::find_by_id` and `find_for_update`.
unfoldable pub find_spot_row : ℕ → List SpotRow → Option SpotRow
find_spot_row id rows = find? (λ s. s.mirror.id == id) rows

unfoldable pub find_spot : ℕ → List SpotRow → Option SpotMirror
find_spot id rows = Option.map (λ (s : SpotRow). s.mirror) (find_spot_row id rows)

abbrev given : {A : Type 0} → Option A → A → A
given none old = old
given (some a) old = a

-- The row that a patch inserts: `active` and `deleted` have defaults.
unfoldable pub inserted : ℕ → SpotMirrorPatch → SpotMirror
inserted id p = record {
  id = id;
  host_id = p.host_id;
  price_per_hour = p.price_per_hour;
  availability = p.availability;
  timezone = p.timezone;
  active = given p.active true;
  deleted = given p.deleted false;
}

-- The row that a patch changes: what it does not name stays.
unfoldable pub patched : SpotMirrorPatch → SpotMirror → SpotMirror
patched p s = record {
  id = s.id;
  host_id = or_else p.host_id s.host_id;
  price_per_hour = or_else p.price_per_hour s.price_per_hour;
  availability = or_else p.availability s.availability;
  timezone = or_else p.timezone s.timezone;
  active = given p.active s.active;
  deleted = given p.deleted s.deleted;
}

-- `SpotMirrorRepository::merge`
unfoldable pub merge : ℕ → SpotMirrorPatch → List SpotRow → List SpotRow
merge id p [] = record { mirror = inserted id p; version = pos 0 } ∷ []
merge id p (s ∷ rows) =
    if s.mirror.id == id
    then record s { mirror = patched p s.mirror } ∷ rows
    else s ∷ merge id p rows

-- `set_version!` on the `spot` table.
unfoldable pub set_spot_version : ℕ → ℤ → List SpotRow → List SpotRow
set_spot_version id version [] = []
set_spot_version id version (s ∷ rows) =
    if s.mirror.id == id
    then record s { version = set_version s.version version } ∷ rows
    else s ∷ set_spot_version id version rows

-- `next_version!` and `set_version!` on the `booking` table.
unfoldable pub next_booking_version : ℕ → List Booking → ℤ
next_booking_version id rows = elim (find_booking id rows) [
  | none ↦ next_version none
  | some b ↦ next_version (some b.version)
]

unfoldable pub set_booking_version : ℕ → ℤ → List Booking → List Booking
set_booking_version id version rows = elim (find_booking id rows) [
  | none ↦ rows
  | some b ↦ put_row (record b { version = set_version b.version version }) rows
]

abbrev pub write : (List Booking → List Booking) → Tx Db (Unit {0})
write f = modify (λ db. record db { bookings = f db.bookings })

-- `outbox::enqueue` of an envelope.
abbrev pub publish : Stamp → ℕ → ℕ → ℤ → Option ℕ → BookingEvent → Tx Db (Unit {0})
publish stamp spot_id booking_id version actor event = modify (λ db. record db {
  outbox =
      enqueue
        (record {
          id = stamp.event_id;
          payload = record {
            subject = spot_id;
            aggregate = booking_id;
            version = version;
            occurred_at = stamp.occurred_at;
            actor_id = actor;
            payload = event;
          };
          created_at = stamp.created_at;
        })
        db.outbox;
})
