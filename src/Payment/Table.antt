-- ===== src/Payment/Table.antt =====
-- apps/services/payment-service/src/repository: the tables `payment`, `payout`, `booking` and
-- `connect_account`, and the `_outbox` beside them.
pub mod Laws
use mathlib.Core.Option
use our_driveway.Prelude.{
  given, or_else, ℕ, ◌==◌, ltb, leb, Bool, true, false, ◌&&◌, Option, none, some, List, [], ◌∷◌,
  if◌then◌else◌, find?, any,
}
use our_driveway.Prelude.Int.{ℤ, pos, ◌+ℤ◌, ltb_ℤ, pos_part, neg_part, half_i64}
use our_driveway.Prelude.Text.{Text}
use our_driveway.Prelude.Result.{Tx, modify}
use our_driveway.Shared.Versions.{Changed, from_rows, next_version, set_version}
use our_driveway.Shared.Bookings.{Status, status_eq}
use our_driveway.Bus.Outbox.{Pending, enqueue}
use our_driveway.Payment.Rows.{
  PaymentStatus, PayoutStatus, payment_eq, payout_eq, counted, PaymentEvent, Payment, PaymentPatch,
  Payout, PayoutPatch, BookingMirror,
}
unfoldable pub use our_driveway.Shared.Keyed.{find_row, put, guarded}

-- `payments.booking.<booking>` and `payments.payout.<host>`.
pub data Subject : Type 0 where
  payment_subject payout_subject : ℕ → Subject

-- `payment:<id>` and `payout:<id>`.
pub data Aggregate : Type 0 where
  payment payout : ℕ → Aggregate

-- `Envelope<PaymentEvent>` with its subject.
pub record Envelope : Type 0 where
  pub subject : Subject
  pub aggregate : Aggregate
  pub version : ℤ
  pub occurred_at : ℕ
  pub actor_id : Option ℕ
  pub payload : PaymentEvent

pub record Db : Type 0 where
  pub payments : List Payment
  pub payouts : List Payout
  pub bookings : List BookingMirror
  pub accounts : List (ℕ × Text)
  pub outbox : List (Pending Envelope)

abbrev pub payment_id : Payment → ℕ
payment_id p = p.id

abbrev pub payout_id : Payout → ℕ
payout_id p = p.id

abbrev pub mirror_id : BookingMirror → ℕ
mirror_id b = b.id

-- `PaymentRepository::find_by_booking_id`
unfoldable pub find_by_booking_id : ℕ → List Payment → Option Payment
find_by_booking_id booking_id rows = find? (λ p. p.booking_id == booking_id) rows

-- The `SET` list of `PaymentRepository::upsert`: a field of the row that is `None` leaves its column alone.
abbrev pub kept_payment : Option Payment → Payment → Payment
kept_payment old row = record row {
  intent_id = or_else row.intent_id (Option.bind old (λ (p : Payment). p.intent_id));
  refund_id = or_else row.refund_id (Option.bind old (λ (p : Payment). p.refund_id));
  refunded_at = or_else row.refunded_at (Option.bind old (λ (p : Payment). p.refunded_at));
  failure_reason = or_else row.failure_reason (Option.bind old (λ (p : Payment). p.failure_reason));
}

-- `PaymentRepository::upsert`
unfoldable pub upsert_payment : Payment → List Payment → List Payment
upsert_payment row rows = put payment_id (kept_payment (find_row payment_id row.id rows) row) rows

-- The `SET` list of `PayoutRepository::upsert`.
abbrev kept_payout : Option Payout → Payout → Payout
kept_payout old row = record row {
  transfer_id = or_else row.transfer_id (Option.bind old (λ (p : Payout). p.transfer_id));
  failure_reason = or_else row.failure_reason (Option.bind old (λ (p : Payout). p.failure_reason));
}

-- `PayoutRepository::upsert`
unfoldable pub upsert_payout : Payout → List Payout → List Payout
upsert_payout row rows = put payout_id (kept_payout (find_row payout_id row.id rows) row) rows

-- The `SET` list of a `PaymentPatch`.
unfoldable pub patch_payment : PaymentPatch → Payment → Payment
patch_payment patch p = record p {
  status = given patch.status p.status;
  intent_id = or_else patch.intent_id p.intent_id;
  refund_id = or_else patch.refund_id p.refund_id;
  refunded_at = or_else patch.refunded_at p.refunded_at;
  failure_reason = or_else patch.failure_reason p.failure_reason;
}

unfoldable pub patch_payout : PayoutPatch → Payout → Payout
patch_payout patch p = record p {
  status = given patch.status p.status;
  transfer_id = or_else patch.transfer_id p.transfer_id;
  failure_reason = or_else patch.failure_reason p.failure_reason;
}

-- `PaymentRepository::transition`
unfoldable pub transition_payment :
    ℕ → List PaymentStatus → PaymentPatch → List Payment → List Payment × Changed
transition_payment id from patch rows =
    guarded payment_id (λ p. any (payment_eq p.status) from) (patch_payment patch) id rows

-- `PayoutRepository::transition`
unfoldable pub transition_payout :
    ℕ → List PayoutStatus → PayoutPatch → List Payout → List Payout × Changed
transition_payout id from patch rows =
    guarded payout_id (λ p. any (payout_eq p.status) from) (patch_payout patch) id rows

-- `sum(amount)` over the rows of a filter; 0 over none.
module _ {A : Type 0} where
  abbrev pub part : (A → Bool) → (A → ℤ) → A → ℤ
  part counts amount a = if counts a then amount a else pos 0

  unfoldable pub sum_where : (A → Bool) → (A → ℤ) → List A → ℤ
  sum_where counts amount [] = pos 0
  sum_where counts amount (a ∷ rows) = part counts amount a +ℤ sum_where counts amount rows

-- A `numeric` cast to a `bigint`: an error where it does not fit.
abbrev pub to_bigint : ℤ → Option ℤ
to_bigint z = if ltb (pos_part z) half_i64 && leb (neg_part z) half_i64 then some z else none

-- The half of the join in `earned` that is about the booking.
unfoldable pub settled_booking : ℕ → ℤ → BookingMirror → Bool
settled_booking host_id cutoff b =
    b.host_id == host_id && status_eq b.status Status.confirmed && ltb_ℤ (pos b.ends_at) cutoff

abbrev is_settled : ℕ → ℤ → Option BookingMirror → Bool
is_settled host_id cutoff none = false
is_settled host_id cutoff (some b) = settled_booking host_id cutoff b

-- The filter of `earned`: the booking of a payment is found by its key.
unfoldable pub earns : ℕ → ℤ → List BookingMirror → Payment → Bool
earns host_id cutoff bookings p =
    p.host_id == host_id
    && payment_eq p.status PaymentStatus.succeeded
    && is_settled host_id cutoff (find_row mirror_id p.booking_id bookings)

unfoldable pub earned_sum : ℕ → ℤ → Db → ℤ
earned_sum host_id cutoff db =
    sum_where (earns host_id cutoff db.bookings) (λ p. p.amount_cents) db.payments

-- `PaymentRepository::earned`
unfoldable pub earned : ℕ → ℤ → Db → Option ℤ
earned host_id cutoff db = to_bigint (earned_sum host_id cutoff db)

-- The filter of `total_for`.
unfoldable pub counts_for : ℕ → Payout → Bool
counts_for host_id p = p.host_id == host_id && any (payout_eq p.status) counted

unfoldable pub total_sum : ℕ → List Payout → ℤ
total_sum host_id payouts = sum_where (counts_for host_id) (λ p. p.amount_cents) payouts

-- `PayoutRepository::total_for`
unfoldable pub total_for : ℕ → Db → Option ℤ
total_for host_id db = to_bigint (total_sum host_id db.payouts)

abbrev version_of_payment : Payment → ℤ
version_of_payment p = p.version

abbrev version_of_payout : Payout → ℤ
version_of_payout p = p.version

-- `next_version!` and `set_version!` on the two tables.
unfoldable pub next_payment_version : ℕ → List Payment → ℤ
next_payment_version id rows =
    next_version (Option.map version_of_payment (find_row payment_id id rows))

unfoldable pub next_payout_version : ℕ → List Payout → ℤ
next_payout_version id rows =
    next_version (Option.map version_of_payout (find_row payout_id id rows))

unfoldable pub set_payment_version : ℕ → ℤ → List Payment → List Payment
set_payment_version id v rows = elim (find_row payment_id id rows) [
  | none ↦ rows
  | some p ↦ put payment_id (record p { version = set_version p.version v }) rows
]

unfoldable pub set_payout_version : ℕ → ℤ → List Payout → List Payout
set_payout_version id v rows = elim (find_row payout_id id rows) [
  | none ↦ rows
  | some p ↦ put payout_id (record p { version = set_version p.version v }) rows
]
