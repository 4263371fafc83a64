-- ===== src/Payment/Service.antt =====
-- apps/services/payment-service/src/service/payment_service.rs: a checkout, a webhook of Stripe's and
-- a host's withdrawal. What Stripe answers and the clock are arguments.
use our_driveway.Prelude.{ℕ, ◌==◌, ltb, true, false, Option, none, some, List}
use our_driveway.Prelude.Int.{ℤ, pos, ◌-ℤ◌, ◌*ℤ◌}
use our_driveway.Prelude.Text.{Text}
use our_driveway.Prelude.Result.{
  MyError, api, bus, Result, ok, err, Tx, ◌>>=◌, ◌>>◌, return, fail, gets, modify, require, context,
}
use our_driveway.Shared.Versions.{Changed, changed, unchanged}
use our_driveway.Shared.Bookings.{Status, status_eq}
use our_driveway.Bus.Outbox.{enqueue}
use our_driveway.Payment.Rows.{
  PaymentStatus, unpaid, PaymentCreated, PaymentEvent, Payment, created_payment, PaymentPatch,
  patch_succeeded, patch_failed, Payout, requested_payout, BookingMirror, available_cents,
}
use our_driveway.Payment.Policy.{Rejection, check}
use our_driveway.Payment.Table.{
  upsert_payment, upsert_payout, Subject, Aggregate, Db, find_row, payment_id, mirror_id,
  find_by_booking_id, transition_payment, earned, total_for, next_payment_version,
  next_payout_version, set_payment_version,
}

-- The id and the instants that `Envelope::new` and the outbox row take from outside.
pub record Stamp : Type 0 where
  pub event_id : ℕ
  pub occurred_at : ℕ
  pub created_at : ℕ

-- `outbox::enqueue` of an envelope.
abbrev pub publish : Stamp → Subject → Aggregate → ℤ → Option ℕ → PaymentEvent → Tx Db (Unit {0})
publish stamp subject aggregate version actor event = modify (λ db. record db {
  outbox =
      enqueue
        (record {
          id = stamp.event_id;
          payload = record {
            subject = subject;
            aggregate = aggregate;
            version = version;
            occurred_at = stamp.occurred_at;
            actor_id = actor;
            payload = event;
          };
          created_at = stamp.created_at;
        })
        db.outbox;
})

abbrev pub write_payments : (List Payment → List Payment) → Tx Db (Unit {0})
write_payments f = modify (λ db. record db { payments = f db.payments })

abbrev pub write_payouts : (List Payout → List Payout) → Tx Db (Unit {0})
write_payouts f = modify (λ db. record db { payouts = f db.payouts })

-- `PaymentRepository::transition` on the rows of the transaction.
unfoldable pub move_payment : ℕ → List PaymentStatus → PaymentPatch → Tx Db Changed
move_payment id from patch db =
    let (rows, moved) = transition_payment id from patch db.payments in
    ok (moved, record db { payments = rows })

-- What follows the transition: nothing if no row moved, a version and an event if one did.
unfoldable pub number_payment : Stamp → ℕ → ℕ → ℤ → PaymentEvent → Changed → Tx Db (Unit {0})
number_payment stamp booking_id id version event unchanged = return tt
number_payment stamp booking_id id version event changed = do
  write_payments (set_payment_version id version)
  publish stamp (Subject.payment_subject booking_id) (Aggregate.payment id) version none event

-- The transaction that `record_webhook` and `settle_up` share.
unfoldable pub settle :
    Stamp → ℕ → ℕ → List PaymentStatus → PaymentPatch → PaymentEvent → Tx Db (Unit {0})
settle stamp booking_id id from patch event = do
  version ← gets (λ db. next_payment_version id db.payments)
  moved ← move_payment id from patch
  number_payment stamp booking_id id version event moved

-- `Outcome`: what a verified webhook said.
pub data Outcome : Type 0 where
  succeeded failed : ℕ → Text → Outcome
  ignored : Outcome

abbrev pub live : ℕ → Option ℕ → Option ℕ
live now none = none
live now (some until) = elim (ltb now until) [ true ↦ some until | false ↦ none ]

-- The answer for a session that is there already: its id and secret, if Stripe still has one.
abbrev pub resumed :
    (Text → Result MyError (Option Text)) → Option Payment → Result MyError (Option (Text × Text))
resumed retrieve none = ok none
resumed retrieve (some p) = elim (retrieve p.session_id) [
  | err e ↦ err e
  | ok none ↦ ok none
  | ok (some secret) ↦ ok (some (p.session_id, secret))
]

abbrev pub of_result : {A : Type 0} → Result MyError A → Tx Db A
of_result (ok a) db = ok (a, db)
of_result (err e) db = err e

-- The payment of a booking's session.
abbrev pub created_event : ℕ → BookingMirror → Text × Text → ℕ → PaymentCreated
created_event payment_id booking session created_at = record {
  payment_id = payment_id;
  booking_id = booking.id;
  host_id = booking.host_id;
  renter_id = booking.renter_id;
  session_id = session.0;
  amount_cents = booking.amount_cents;
  created_at = created_at;
}

-- `uuid_of` is `Uuid::new_v5` of `payment:<booking>`.
module _ (uuid_of : ℕ → ℕ) where
  unfoldable pub record_webhook : Stamp → Outcome → Tx Db (Unit {0})
  record_webhook stamp (Outcome.succeeded booking_id intent_id) =
      settle stamp booking_id (uuid_of booking_id) unpaid (patch_succeeded intent_id)
        (PaymentEvent.succeeded (uuid_of booking_id) booking_id intent_id)
  record_webhook stamp (Outcome.failed booking_id reason) =
      settle stamp booking_id (uuid_of booking_id) unpaid (patch_failed reason)
        (PaymentEvent.failed (uuid_of booking_id) booking_id reason)
  record_webhook stamp Outcome.ignored = return tt

  -- The transaction of `create_session`.
  unfoldable pub write_session : Stamp → PaymentCreated → Tx Db (Unit {0})
  write_session stamp e = do
    version ← gets (λ db. next_payment_version e.payment_id db.payments)
    write_payments (upsert_payment (created_payment e version))
    publish stamp (Subject.payment_subject e.booking_id) (Aggregate.payment e.payment_id) version
        none (PaymentEvent.created e)

  -- A session that Stripe creates for the booking, if no earlier one goes on.
  unfoldable pub new_session :
      (BookingMirror → ℕ → Result MyError (Text × Text))
      → BookingMirror
      → ℕ
      → Stamp
      → ℕ
      → Option (Text × Text)
      → Tx Db (Text × Text)
  new_session create booking hold_until stamp created_at (some session) = return session
  new_session create booking hold_until stamp created_at none = elim (create booking hold_until) [
    | err e ↦ fail e
    | ok session ↦ do
      write_session stamp (created_event (uuid_of booking.id) booking session created_at)
      return session
  ]

  -- `retrieve` and `create` are the calls of Stripe's; `read` is the snapshot of the reads.
  unfoldable pub create_session :
      (Text → Result MyError (Option Text))
      → (BookingMirror → ℕ → Result MyError (Text × Text))
      → Db
      → ℕ
      → Stamp
      → ℕ
      → ℕ
      → ℕ
      → Tx Db (Text × Text)
  create_session retrieve create read now stamp created_at renter_id booking_id = do
    booking ← context (find_row mirror_id booking_id read.bookings) (api 404 "Not Found")
    require (booking.renter_id == renter_id) (api 403 "Forbidden")
    require (status_eq booking.status Status.reserved) (api 409 "Conflict")
    hold_until ← context (live now booking.hold_until) (api 410 "Hold Expired")
    session ← of_result (resumed retrieve (find_by_booking_id booking_id read.payments))
    new_session create booking hold_until stamp created_at session

-- `refused`
abbrev pub refused : Rejection → MyError
refused Rejection.nothing_available = api 409 "Nothing to Withdraw"
refused Rejection.below_minimum = api 409 "Below the Minimum"
refused (Rejection.above_available cents) = api 409 "More Than Available"

-- What `request_payout` takes from outside, with the two readings of the clock.
pub record Asked : Type 0 where
  pub host_id : ℕ
  pub requested_cents : ℤ
  pub payout_id : ℕ
  pub now : ℕ
  pub requested_at : ℕ
  pub stamp : Stamp

-- `Utc::now() - settlement_secs`
abbrev pub cutoff_at : ℤ → ℕ → ℤ
cutoff_at settlement_secs now = pos now -ℤ settlement_secs *ℤ pos 1000

-- `earnings_with`, and the balance that it leaves.
unfoldable pub balance : ℤ → ℕ → Tx Db ℤ
balance cutoff host_id db = elim (earned host_id cutoff db) [
  | none ↦ err bus
  | some earned_cents ↦ elim (total_for host_id db) [
    | none ↦ err bus
    | some paid_out_cents ↦ ok (
      available_cents (record { earned_cents = earned_cents; paid_out_cents = paid_out_cents }),
      db,
    )
  ]
]

abbrev pub granted : Result Rejection ℤ → Tx Db ℤ
granted (ok amount) db = ok (amount, db)
granted (err rejection) db = err (refused rejection)

-- The row and the event of a withdrawal of `amount_cents`.
unfoldable pub write_payout : Asked → ℤ → Tx Db (ℤ × ℤ)
write_payout asked amount_cents = do
  version ← gets (λ db. next_payout_version asked.payout_id db.payouts)
  row ←
      context
        (requested_payout
          (PaymentEvent.payout_requested asked.payout_id asked.host_id amount_cents
            asked.requested_at)
          version)
        bus
  write_payouts (upsert_payout row)
  publish asked.stamp (Subject.payout_subject asked.host_id) (Aggregate.payout asked.payout_id)
      version (some asked.host_id)
      (PaymentEvent.payout_requested asked.payout_id asked.host_id amount_cents asked.requested_at)
  return (version, amount_cents)

-- `request_payout`: under the lock of the host, the transaction runs alone.
unfoldable pub request_payout : ℤ → Asked → Tx Db (ℤ × ℤ)
request_payout settlement_secs asked = do
  available ← balance (cutoff_at settlement_secs asked.now) asked.host_id
  amount ← granted (check asked.requested_cents available)
  write_payout asked amount
