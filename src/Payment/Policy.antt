-- ===== src/Payment/Policy.antt =====
-- apps/services/payment-service/src/policy: settlement.rs decides what happens to money when a booking
-- ends, payout.rs how much of a balance a withdrawal may take.
use our_driveway.Prelude.{Bool, if◌then◌else◌}
use our_driveway.Prelude.Int.{ℤ, pos, ltb_ℤ, leb_ℤ}
use our_driveway.Prelude.Result.{Result, ok, err}
use our_driveway.Shared.Bookings.{Status}
use our_driveway.Payment.Rows.{PaymentStatus, min_cents}

pub data Action : Type 0 where
  refund expire_session nothing : Action

-- The inner `match` of `decide`, on the status of the payment.
abbrev pub settle_ended : PaymentStatus → Action
settle_ended PaymentStatus.succeeded = Action.refund
settle_ended PaymentStatus.created = Action.expire_session
settle_ended PaymentStatus.failed = Action.expire_session
settle_ended _ = Action.nothing

abbrev by_booking : Status → PaymentStatus → Action
by_booking Status.released payment = settle_ended payment
by_booking Status.cancelled payment = settle_ended payment
by_booking _ payment = Action.nothing

-- `settlement::decide`
unfoldable pub decide : Status → PaymentStatus → Bool → Action
decide booking payment refunded = if refunded then Action.nothing else by_booking booking payment

pub data Rejection : Type 0 where
  nothing_available below_minimum : Rejection
  above_available : ℤ → Rejection

-- `payout::check`
unfoldable pub check : ℤ → ℤ → Result Rejection ℤ
check requested_cents available_cents =
    if leb_ℤ available_cents (pos 0)
    then err Rejection.nothing_available
    else if ltb_ℤ requested_cents min_cents
    then err Rejection.below_minimum
    else if ltb_ℤ available_cents requested_cents
    then err (Rejection.above_available available_cents)
    else ok requested_cents
