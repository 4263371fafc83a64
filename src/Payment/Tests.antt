-- ===== src/Payment/Tests.antt =====
-- apps/services/payment-service/src: the theorems on a host's earnings and on payments, on small tables.
use mathlib.Core.Option
use our_driveway.Prelude.{ℕ, ◌+◌, ◌≡◌, refl, List, [], ◌∷◌, All, none, some, Option, ◌⊎◌, arith}
use our_driveway.Prelude.Int.{ℤ, pos, ◌-ℤ◌, ◌*ℤ◌, ◌≤ℤ◌}
use our_driveway.Prelude.Text.{Text, codes}
use our_driveway.Prelude.Result.{MyError, Result, ok, committed}
use our_driveway.Shared.Bookings.{Status, Booking, BookingEvent}
use our_driveway.Booking.Table.{moved}
use our_driveway.Booking.Table.Laws.{renumbered}
use our_driveway.Payment.Mirror.{apply_booking}
use our_driveway.Payment.Mirror.Follows.{view, confirms, apply_booking-view}
use our_driveway.Payment.Rows.{
  PaymentEvent, PaymentStatus, Payment, BookingMirror, unpaid, patch_failed,
}
use our_driveway.Payment.Table.{
  Db, find_row, payment_id, mirror_id, find_by_booking_id, total_sum, sum_where,
}
use our_driveway.Payment.Service.{
  Stamp, Asked, cutoff_at, request_payout, Outcome, record_webhook, create_session,
}
use our_driveway.Payment.Workers.{Transferred, pay_out, Stripe, settle_up}
use our_driveway.Payment.Funds.{Granted, request_payout-Granted}
use our_driveway.Payment.Funds.Covered.{Amounts, earned-nonneg}
use our_driveway.Payment.Funds.History.{start, asks, pays, Covered, Withdrawals-Covered}
use our_driveway.Payment.Settled.{Settled}
use our_driveway.Payment.Life.{Settlement, settle_up-Settlement}
use our_driveway.Payment.Life.History.{Call, webhooks, settles, run_all, Paired}
use our_driveway.Payment.Life.Invariant.{run_all-Paired, run_all-refunded}
use our_driveway.Payment.Life.Webhooks.{succeeded_once, failed_again, create_session_resets}

abbrev text : Text
text = codes "pi_1"

abbrev paid : Payment
paid = record {
  id = 7;
  version = pos 2;
  booking_id = 3;
  host_id = 1;
  renter_id = 2;
  amount_cents = pos 5000;
  session_id = text;
  intent_id = some text;
  status = PaymentStatus.succeeded;
  refund_id = none;
  refunded_at = none;
  failure_reason = none;
  created_at = 5;
}

abbrev parked : BookingMirror
parked = record {
  id = 3;
  version = pos 2;
  spot_id = 4;
  host_id = 1;
  renter_id = 2;
  amount_cents = pos 5000;
  booked = [];
  status = Status.confirmed;
  hold_until = none;
  ends_at = 10;
  cancel_reason = none;
  release_reason = none;
}

abbrev tables : Payment → BookingMirror → Db
tables p b = record {
  payments = p ∷ [];
  payouts = [];
  bookings = b ∷ [];
  accounts = (1, text) ∷ [];
  outbox = [];
}

abbrev paid_db : Db
paid_db = tables paid parked

abbrev stamp : ℕ → Stamp
stamp n = record { event_id = n; occurred_at = 20; created_at = 20 }

abbrev asked : Asked
asked = record {
  host_id = 1;
  requested_cents = pos 4000;
  payout_id = 50;
  now = 100;
  requested_at = 100;
  stamp = stamp 1;
}

abbrev answers : Text → ℤ → ℕ → Result MyError Transferred
answers account cents id = ok (Transferred.done text)

abbrev after_request : Db
after_request = committed (request_payout (pos 0) asked) paid_db

paid-Amounts : Amounts paid_db
paid-Amounts = record { payments = (refl, tt); payouts = tt }

none_withdrawn : (host : ℕ) → total_sum host [] ≡ pos 0
unfolding total_sum sum_where
none_withdrawn host = refl

paid_Covered : Covered (pos 1000) paid_db
paid_Covered = record {
  amounts = paid-Amounts;
  within = λ host.
      rw (none_withdrawn host) (omega (arith, earned-nonneg host (pos 1000) paid_db paid-Amounts));
}

no_payout : find_row (λ p. p.id) 50 paid_db.payouts ≡ none
unfolding find_row
no_payout = refl

in_time : cutoff_at (pos 0) 100 ≤ℤ pos 1000
unfolding ◌-ℤ◌ ◌*ℤ◌
in_time = omega arith

Withdrawals-Covered_example :
    Covered
      (pos 1000)
      (committed (pay_out answers after_request paid_db (stamp 2) 30 50) after_request)
Withdrawals-Covered_example =
    Withdrawals-Covered (pos 1000) paid_db
      (committed (pay_out answers after_request paid_db (stamp 2) 30 50) after_request)
      (pays answers after_request paid_db (stamp 2) 30 50
        (asks (pos 0) asked start no_payout in_time))
      paid_Covered

request_payout-Granted_example :
    (committed (request_payout (pos 0) asked) paid_db ≡ paid_db)
    ⊎ Granted (pos 0) asked paid_db (committed (request_payout (pos 0) asked) paid_db)
request_payout-Granted_example = request_payout-Granted (pos 0) asked paid_db

abbrev uuid_of : ℕ → ℕ
uuid_of booking = 4 + booking

abbrev stripe : Stripe
stripe = record { refund = λ intent id. ok (codes "re_1"); expire_session = λ session. ok tt }

abbrev withdrawn : BookingMirror
withdrawn = record parked { status = Status.cancelled }

abbrev refund_calls : List Call
refund_calls =
    webhooks (stamp 3) (Outcome.succeeded 3 text)
    ∷ settles stripe (tables paid withdrawn) (tables paid withdrawn) (stamp 4) 40 3
    ∷ []

run_all-Paired_example : All Paired (run_all uuid_of refund_calls (tables paid withdrawn)).payments
run_all-Paired_example =
    run_all-Paired uuid_of refund_calls (tables paid withdrawn) ((text, refl), tt)

settle_up-Settlement_example :
    Settlement stripe
      (tables paid withdrawn)
      (tables paid withdrawn)
      (stamp 4)
      40
      3
      (tables paid withdrawn)
      (committed
        (settle_up stripe (tables paid withdrawn) (tables paid withdrawn) (stamp 4) 40 3)
        (tables paid withdrawn))
settle_up-Settlement_example =
    settle_up-Settlement stripe (stamp 4) 40 3 (tables paid withdrawn) (tables paid withdrawn)
      (tables paid withdrawn)

abbrev refunded : Payment
refunded = record paid {
  status = PaymentStatus.refunded;
  refund_id = some text;
  refunded_at = some 40;
}

refunded_found : find_row payment_id 7 (tables refunded withdrawn).payments ≡ some refunded
unfolding find_row
refunded_found = refl

run_all-refunded_example :
    find_row payment_id 7 (run_all uuid_of refund_calls (tables refunded withdrawn)).payments
    ≡ some refunded
run_all-refunded_example =
    run_all-refunded uuid_of 7 refunded refl refund_calls (tables refunded withdrawn) (tt, (tt, tt))
      refunded_found

abbrev declined : Payment
declined = record paid {
  status = PaymentStatus.failed;
  intent_id = none;
  failure_reason = some text;
}

declined_found : find_row payment_id 7 (tables declined parked).payments ≡ some declined
unfolding find_row
declined_found = refl

succeeded_once_example :
    committed (record_webhook uuid_of (stamp 6) (Outcome.succeeded 3 text)) (
      committed
        (record_webhook uuid_of (stamp 5) (Outcome.succeeded 3 text))
        (tables declined parked))
    ≡ committed
        (record_webhook uuid_of (stamp 5) (Outcome.succeeded 3 text))
        (tables declined parked)
succeeded_once_example =
    succeeded_once uuid_of 3 (tables declined parked) declined declined_found (stamp 5) (stamp 6)
      text

abbrev failed_once : Db
failed_once =
    committed (record_webhook uuid_of (stamp 5) (Outcome.failed 3 text)) (tables declined parked)

failed_again_example :
    Settled 7 unpaid
      (patch_failed text)
      (PaymentEvent.failed 7 3 text)
      (stamp 5)
      (tables declined parked)
      failed_once
    × Settled 7 unpaid
        (patch_failed text)
        (PaymentEvent.failed 7 3 text)
        (stamp 6)
        failed_once
        (committed (record_webhook uuid_of (stamp 6) (Outcome.failed 3 text)) failed_once)
failed_again_example =
    failed_again uuid_of 3 (tables declined parked) declined declined_found (stamp 5) (stamp 6) text
      refl

-- The mirror of the booking before its confirmation reached it.
abbrev held : BookingMirror
held = record parked { status = Status.reserved; hold_until = some 90 }

held_found : find_row mirror_id 3 (tables paid held).bookings ≡ some held
unfolding find_row
held_found = refl

session_found : find_by_booking_id 3 (tables paid held).payments ≡ some paid
unfolding find_by_booking_id
session_found = refl

abbrev no_secret : Text → Result MyError (Option Text)
no_secret session = ok none

abbrev opens : BookingMirror → ℕ → Result MyError (Text × Text)
opens booking hold = ok (text, text)

create_session_resets_example :
    (p : Payment) × (find_row payment_id 7
        (committed
          (create_session uuid_of no_secret opens (tables paid held) 80 (stamp 8) 80 2 3)
          (tables paid held)).payments
      ≡ some p)
    × (p.status ≡ PaymentStatus.created)
    × (p.intent_id
        ≡ Option.bind
            (find_row payment_id 7 (tables paid held).payments)
            (λ (q : Payment). q.intent_id))
    × (p.session_id ≡ text)
create_session_resets_example =
    create_session_resets uuid_of no_secret opens (tables paid held) 80 (stamp 8) 80 90 held
      (text, text) (tables paid held) held_found refl refl refl (rw session_found refl) refl

abbrev booking : Booking
booking = record {
  id = 3;
  version = pos 1;
  spot_id = 4;
  host_id = 1;
  renter_id = 2;
  booked = [];
  license_plate = [];
  amount = pos 5000;
  status = Status.reserved;
  hold_until = some 90;
  release_reason = none;
  cancel_reason = none;
  ends_at = 10;
  rating = none;
  created_at = 1;
}

view_found : find_row mirror_id 3 (view booking ∷ []) ≡ some (view booking)
unfolding find_row
view_found = refl

apply_booking-view_example :
    find_row mirror_id 3 (apply_booking (BookingEvent.confirmed 3) (pos 2) (view booking ∷ []))
    ≡ some (view (renumbered (pos 2) (moved Status.confirmed none none booking)))
apply_booking-view_example =
    apply_booking-view booking (moved Status.confirmed none none booking) (BookingEvent.confirmed 3)
      (pos 2) (view booking ∷ []) (confirms refl) view_found
