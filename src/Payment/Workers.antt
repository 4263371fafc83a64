-- ===== src/Payment/Workers.antt =====
-- apps/services/payment-service/src/service/settlement_worker_service.rs, payout_worker_service.rs and
-- worker.rs: money moves when a booking ends, and when a host has asked for it.
use mathlib.Core.Option
use our_driveway.Prelude.{ℕ, ◌==◌, Bool, true, false, Option, none, some, List, [], ◌∷◌, find?}
use our_driveway.Prelude.Int.{ℤ}
use our_driveway.Prelude.Text.{Text}
use our_driveway.Prelude.Result.{
  MyError, bus, Result, ok, err, Tx, ◌>>=◌, ◌>>◌, return, fail, gets, context,
}
use our_driveway.Shared.Versions.{Changed, changed, unchanged}
use our_driveway.Shared.Bookings.{BookingEvent}
use our_driveway.Payment.Rows.{
  PaymentStatus, PayoutStatus, payout_eq, unpaid, PaymentEvent, Payment, patch_refunded,
  patch_expired, Payout, PayoutPatch, patch_paid, patch_payout_failed,
}
use our_driveway.Payment.Policy.{Action, decide}
use our_driveway.Payment.Table.{
  Subject, Aggregate, Db, find_row, payout_id, mirror_id, find_by_booking_id, transition_payout,
  next_payout_version, set_payout_version,
}
use our_driveway.Payment.Service.{Stamp, publish, write_payouts, settle}

-- The calls of Stripe's that move money or void a session.
pub record Stripe : Type 0 where
  pub refund : Text → ℕ → Result MyError Text
  pub expire_session : Text → Result MyError (Unit {0})

abbrev pub is_some : {A : Type 0} → Option A → Bool
is_some none = false
is_some (some a) = true

-- The two arms of `settle_up` that act: the call of Stripe's, and the transaction behind it.
unfoldable pub act : Stripe → Stamp → ℕ → ℕ → Payment → Action → Tx Db (Unit {0})
act stripe stamp refunded_at booking_id payment Action.nothing = return tt
act stripe stamp refunded_at booking_id payment Action.refund = do
  intent_id ← context payment.intent_id bus
  elim (stripe.refund intent_id payment.id) [
    | err e ↦ fail e
    | ok refund_id ↦
        settle stamp booking_id payment.id (PaymentStatus.succeeded ∷ [])
          (patch_refunded refund_id refunded_at)
          (PaymentEvent.refunded payment.id booking_id refund_id payment.amount_cents refunded_at)
  ]
act stripe stamp refunded_at booking_id payment Action.expire_session =
    elim (stripe.expire_session payment.session_id) [
      | err e ↦ fail e
      | ok x ↦
          settle stamp booking_id payment.id unpaid patch_expired
            (PaymentEvent.session_expired payment.id booking_id)
    ]

-- `read` and `read_booking` are the snapshots of its two reads.
unfoldable pub settle_up : Stripe → Db → Db → Stamp → ℕ → ℕ → Tx Db (Unit {0})
settle_up stripe read read_booking stamp refunded_at booking_id =
    elim (find_by_booking_id booking_id read.payments) [
      | none ↦ return tt
      | some payment ↦ do
        booking ← context (find_row mirror_id booking_id read_booking.bookings) bus
        act stripe stamp refunded_at booking_id payment
            (decide booking.status payment.status (is_some payment.refund_id))
    ]

-- `Transferred`
pub data Transferred : Type 0 where
  done refused : Text → Transferred

-- `PayoutRepository::transition` on the rows of the transaction.
unfoldable pub move_payout : ℕ → List PayoutStatus → PayoutPatch → Tx Db Changed
move_payout id from patch db =
    let (rows, moved) = transition_payout id from patch db.payouts in
    ok (moved, record db { payouts = rows })

unfoldable pub number_payout : Stamp → ℕ → ℕ → ℤ → PaymentEvent → Changed → Tx Db (Unit {0})
number_payout stamp host_id id version event unchanged = return tt
number_payout stamp host_id id version event changed = do
  write_payouts (set_payout_version id version)
  publish stamp (Subject.payout_subject host_id) (Aggregate.payout id) version (some host_id) event

-- The transaction of `pay_out`.
unfoldable pub conclude : Stamp → ℕ → ℕ → PayoutPatch → PaymentEvent → Tx Db (Unit {0})
conclude stamp host_id id patch event = do
  version ← gets (λ db. next_payout_version id db.payouts)
  moved ← move_payout id (PayoutStatus.requested ∷ []) patch
  number_payout stamp host_id id version event moved

-- The patch and the event of Stripe's answer.
abbrev pub conclusion : Transferred → Payout → ℕ → PayoutPatch × PaymentEvent
conclusion (Transferred.done transfer_id) p at =
    (patch_paid transfer_id, PaymentEvent.payout_paid p.id p.host_id transfer_id at)
conclusion (Transferred.refused reason) p at =
    (patch_payout_failed reason, PaymentEvent.payout_failed p.id p.host_id reason at)

-- `ConnectAccountRepository::find`
unfoldable pub find_account : ℕ → List (ℕ × Text) → Option Text
find_account host_id accounts =
    Option.map (λ (a : ℕ × Text). a.1) (find? (λ a. a.0 == host_id) accounts)

-- `transfer` is the call of Stripe's, keyed by the payout; `read` and `read_account` are the
-- snapshots of the two reads.
unfoldable pub pay_out :
    (Text → ℤ → ℕ → Result MyError Transferred) → Db → Db → Stamp → ℕ → ℕ → Tx Db (Unit {0})
pay_out transfer read read_account stamp at id = elim (find_row payout_id id read.payouts) [
  | none ↦ fail bus
  | some p ↦ elim (payout_eq p.status PayoutStatus.requested) [
    | false ↦ return tt
    | true ↦ do
      account_id ← context (find_account p.host_id read_account.accounts) bus
      elim (transfer account_id p.amount_cents id) [
        | err e ↦ fail e
        | ok answer ↦
            let (patch, event) = conclusion answer p at in conclude stamp p.host_id id patch event
      ]
  ]
]

-- `BookingWorker::handle`: `reached` tells whether the mirror has the event's version in time.
unfoldable pub handle_booking :
    Stripe → (ℕ → ℤ → Bool) → Db → Db → Stamp → ℕ → BookingEvent → ℤ → Tx Db (Unit {0})
handle_booking stripe reached read read_booking stamp refunded_at event version = elim event [
  | BookingEvent.released booking_id reason ↦ on_end booking_id
  | BookingEvent.cancelled booking_id reason ↦ on_end booking_id
  | _ ↦ return tt
]
  where
    on_end : ℕ → Tx Db (Unit {0})
    on_end booking_id = elim (reached booking_id version) [
      | true ↦ settle_up stripe read read_booking stamp refunded_at booking_id
      | false ↦ fail bus
    ]

-- `PaymentWorker::handle`
unfoldable pub handle_payment :
    Stripe
    → (Text → ℤ → ℕ → Result MyError Transferred)
    → Db
    → Db
    → Stamp
    → ℕ
    → PaymentEvent
    → Tx Db (Unit {0})
handle_payment stripe transfer read read_again stamp at
      (PaymentEvent.succeeded payment_id booking_id intent_id) =
    settle_up stripe read read_again stamp at booking_id
handle_payment stripe transfer read read_again stamp at
      (PaymentEvent.payout_requested payout_id host_id cents requested_at) =
    pay_out transfer read read_again stamp at payout_id
handle_payment stripe transfer read read_again stamp at _ = return tt
