-- ===== src/Payment/Rows.antt =====
-- shared/src/domain_models/payment/payment.rs, payout.rs and booking.rs, and
-- shared/src/events/payment.rs: the rows of payment-service and its events. A uuid is a number, an
-- instant is the milliseconds since the epoch, a handle of Stripe's is a text.
use our_driveway.Prelude.{ℕ, ◌==◌, Bool, true, false, Option, none, some, List, [], ◌∷◌}
use our_driveway.Prelude.Int.{ℤ, pos, ◌-ℤ◌, i64}
use our_driveway.Prelude.Text.{Text}
use our_driveway.Shared.Slots.{Booked}
use our_driveway.Shared.Bookings.{Status, CancelReason, ReleaseReason}

-- The strings of a payment's `status`; any other text is `other`, by some numbering of the texts.
pub data PaymentStatus : Type 0 where
  created succeeded failed refunded expired : PaymentStatus
  other : ℕ → PaymentStatus

-- The strings of a payout's `status`.
pub data PayoutStatus : Type 0 where
  requested paid failed : PayoutStatus

abbrev pub payment_eq : PaymentStatus → PaymentStatus → Bool
payment_eq PaymentStatus.created PaymentStatus.created = true
payment_eq PaymentStatus.succeeded PaymentStatus.succeeded = true
payment_eq PaymentStatus.failed PaymentStatus.failed = true
payment_eq PaymentStatus.refunded PaymentStatus.refunded = true
payment_eq PaymentStatus.expired PaymentStatus.expired = true
payment_eq (PaymentStatus.other a) (PaymentStatus.other b) = a == b
payment_eq _ _ = false

abbrev pub payout_eq : PayoutStatus → PayoutStatus → Bool
payout_eq PayoutStatus.requested PayoutStatus.requested = true
payout_eq PayoutStatus.paid PayoutStatus.paid = true
payout_eq PayoutStatus.failed PayoutStatus.failed = true
payout_eq _ _ = false

-- `status::UNPAID`
abbrev pub unpaid : List PaymentStatus
unpaid = PaymentStatus.created ∷ PaymentStatus.failed ∷ []

-- `payout::status::COUNTED`
abbrev pub counted : List PayoutStatus
counted = PayoutStatus.requested ∷ PayoutStatus.paid ∷ []

abbrev pub min_cents : ℤ
min_cents = pos 1000

pub record PaymentCreated : Type 0 where
  pub payment_id : ℕ
  pub booking_id : ℕ
  pub host_id : ℕ
  pub renter_id : ℕ
  pub session_id : Text
  pub amount_cents : ℤ
  pub created_at : ℕ

-- The fields of a variant stand in the source's order.
pub data PaymentEvent : Type 0 where
  created : PaymentCreated → PaymentEvent
  succeeded : ℕ → ℕ → Text → PaymentEvent
  failed : ℕ → ℕ → Text → PaymentEvent
  refunded : ℕ → ℕ → Text → ℤ → ℕ → PaymentEvent
  session_expired : ℕ → ℕ → PaymentEvent
  payout_requested : ℕ → ℕ → ℤ → ℕ → PaymentEvent
  payout_paid : ℕ → ℕ → Text → ℕ → PaymentEvent
  payout_failed : ℕ → ℕ → Text → ℕ → PaymentEvent

-- A row of the `payment` table.
pub record Payment : Type 0 where
  pub id : ℕ
  pub version : ℤ
  pub booking_id : ℕ
  pub host_id : ℕ
  pub renter_id : ℕ
  pub amount_cents : ℤ
  pub session_id : Text
  pub intent_id : Option Text
  pub status : PaymentStatus
  pub refund_id : Option Text
  pub refunded_at : Option ℕ
  pub failure_reason : Option Text
  pub created_at : ℕ

-- `Payment::created`
unfoldable pub created_payment : PaymentCreated → ℤ → Payment
created_payment e version = record {
  id = e.payment_id;
  version = version;
  booking_id = e.booking_id;
  host_id = e.host_id;
  renter_id = e.renter_id;
  amount_cents = e.amount_cents;
  session_id = e.session_id;
  intent_id = none;
  status = PaymentStatus.created;
  refund_id = none;
  refunded_at = none;
  failure_reason = none;
  created_at = e.created_at;
}

pub record PaymentPatch : Type 0 where
  pub status : Option PaymentStatus
  pub intent_id : Option Text
  pub refund_id : Option Text
  pub refunded_at : Option ℕ
  pub failure_reason : Option Text

abbrev blank : PaymentPatch
blank = record {
  status = none;
  intent_id = none;
  refund_id = none;
  refunded_at = none;
  failure_reason = none;
}

-- `PaymentPatch::succeeded`, `failed`, `refunded` and `expired`.
abbrev pub patch_succeeded : Text → PaymentPatch
patch_succeeded intent_id = record blank {
  status = some PaymentStatus.succeeded;
  intent_id = some intent_id;
}

abbrev pub patch_failed : Text → PaymentPatch
patch_failed reason = record blank {
  status = some PaymentStatus.failed;
  failure_reason = some reason;
}

abbrev pub patch_refunded : Text → ℕ → PaymentPatch
patch_refunded refund_id refunded_at = record blank {
  status = some PaymentStatus.refunded;
  refund_id = some refund_id;
  refunded_at = some refunded_at;
}

abbrev pub patch_expired : PaymentPatch
patch_expired = record blank { status = some PaymentStatus.expired }

-- A row of the `payout` table.
pub record Payout : Type 0 where
  pub id : ℕ
  pub version : ℤ
  pub host_id : ℕ
  pub amount_cents : ℤ
  pub status : PayoutStatus
  pub transfer_id : Option Text
  pub failure_reason : Option Text
  pub created_at : ℕ

-- `Payout::requested`
unfoldable pub requested_payout : PaymentEvent → ℤ → Option Payout
requested_payout (PaymentEvent.payout_requested payout_id host_id amount_cents requested_at)
      version =
    some (record {
      id = payout_id;
      version = version;
      host_id = host_id;
      amount_cents = amount_cents;
      status = PayoutStatus.requested;
      transfer_id = none;
      failure_reason = none;
      created_at = requested_at;
    })
requested_payout _ version = none

pub record PayoutPatch : Type 0 where
  pub status : Option PayoutStatus
  pub transfer_id : Option Text
  pub failure_reason : Option Text

-- `PayoutPatch::paid` and `failed`.
abbrev pub patch_paid : Text → PayoutPatch
patch_paid transfer_id = record {
  status = some PayoutStatus.paid;
  transfer_id = some transfer_id;
  failure_reason = none;
}

abbrev pub patch_payout_failed : Text → PayoutPatch
patch_payout_failed reason = record {
  status = some PayoutStatus.failed;
  transfer_id = none;
  failure_reason = some reason;
}

-- A row of payment-service's `booking` table.
pub record BookingMirror : Type 0 where
  pub id : ℕ
  pub version : ℤ
  pub spot_id : ℕ
  pub host_id : ℕ
  pub renter_id : ℕ
  pub amount_cents : ℤ
  pub booked : Booked
  pub status : Status
  pub hold_until : Option ℕ
  pub ends_at : ℕ
  pub cancel_reason : Option CancelReason
  pub release_reason : Option ReleaseReason

-- `Earnings`
pub record Earnings : Type 0 where
  pub earned_cents : ℤ
  pub paid_out_cents : ℤ

-- `Earnings::available_cents`
abbrev pub available_cents : Earnings → ℤ
available_cents e = i64 (e.earned_cents -ℤ e.paid_out_cents)
