-- ===== src/Payment/Life/Webhooks.antt =====
-- apps/services/payment-service/src/service/payment_service.rs: what a webhook does that comes twice, and
-- what a checkout does to a payment that is there already.
use mathlib.Core.Option
use our_driveway.Prelude.{
  ℕ, ltb, ◌≡◌, refl, ◌∙◌, true, Bool-cases, any, none, some, Option, inl, inr, ==-refl,
}
use our_driveway.Prelude.Text.{Text}
use our_driveway.Prelude.Result.{MyError, Result, ok, committed, ◌>>=◌, context}
use our_driveway.Shared.Bookings.{Status}
use our_driveway.Payment.Rows.{
  PaymentStatus, payment_eq, unpaid, PaymentEvent, Payment, created_payment, patch_succeeded,
  patch_failed, BookingMirror,
}
use our_driveway.Payment.Table.{
  upsert_payment, kept_payment, Db, find_row, put, payment_id, mirror_id, find_by_booking_id,
  patch_payment, next_payment_version,
}
use our_driveway.Shared.Keyed.Laws.{find-put_here}
use our_driveway.Payment.Service.{
  Stamp, settle, Outcome, record_webhook, create_session, new_session, write_session, resumed,
  created_event,
}
use our_driveway.Payment.Settled.{Settled, settle_barred, find-Settled, settle_admitted}

module _ (uuid_of : ℕ → ℕ) (booking_id : ℕ) (db : Db) (p : Payment)
    (found : find_row payment_id (uuid_of booking_id) db.payments ≡ some p) where
  -- The same success twice is one: of a payment that is there, the second delivery changes no table,
  -- whatever event id it would take.
  pub succeeded_once :
      (first second : Stamp) (intent_id : Text)
      → committed
          (record_webhook uuid_of second (Outcome.succeeded booking_id intent_id))
          (committed (record_webhook uuid_of first (Outcome.succeeded booking_id intent_id)) db)
        ≡ committed (record_webhook uuid_of first (Outcome.succeeded booking_id intent_id)) db
  unfolding record_webhook patch_payment
  succeeded_once first second intent_id =
      let id = uuid_of booking_id in
      let event = PaymentEvent.succeeded id booking_id intent_id in
      let once =
        committed (settle first booking_id id unpaid (patch_succeeded intent_id) event) db in
      elim (Bool-cases (any (payment_eq p.status) unpaid)) [
        | inl t ↦
            let s =
              settle_admitted first booking_id id unpaid (patch_succeeded intent_id) event db p
                found t in
            let there = find-Settled id unpaid (patch_succeeded intent_id) first db once s id in
            settle_barred second booking_id id unpaid (patch_succeeded intent_id) event once
              (record (patch_payment (patch_succeeded intent_id) s.old) { version = s.version })
              (there ∙ rw (==-refl id) refl) refl
        | inr f ↦
            let same =
              settle_barred first booking_id id unpaid (patch_succeeded intent_id) event db p found
                f in
            rw same (
              settle_barred second booking_id id unpaid (patch_succeeded intent_id) event db p found
                f)
      ]

  -- The same failure twice is two: of a payment that is unpaid, created or failed before, the
  -- first delivery records the failure, and the second records it anew, each with the next version
  -- and one event that tells of it.
  pub failed_again :
      (first second : Stamp) (reason : Text)
      → any (payment_eq p.status) unpaid ≡ true
      → Settled
          (uuid_of booking_id)
          unpaid
          (patch_failed reason)
          (PaymentEvent.failed (uuid_of booking_id) booking_id reason)
          first
          db
          (committed (record_webhook uuid_of first (Outcome.failed booking_id reason)) db)
        × Settled
            (uuid_of booking_id)
            unpaid
            (patch_failed reason)
            (PaymentEvent.failed (uuid_of booking_id) booking_id reason)
            second
            (committed (record_webhook uuid_of first (Outcome.failed booking_id reason)) db)
            (committed
              (record_webhook uuid_of second (Outcome.failed booking_id reason))
              (committed (record_webhook uuid_of first (Outcome.failed booking_id reason)) db))
  unfolding record_webhook patch_payment
  failed_again first second reason t =
      let id = uuid_of booking_id in
      let event = PaymentEvent.failed id booking_id reason in
      let once = committed (settle first booking_id id unpaid (patch_failed reason) event) db in
      let s = settle_admitted first booking_id id unpaid (patch_failed reason) event db p found t in
      let there = find-Settled id unpaid (patch_failed reason) first db once s id in
      (
        s,
        settle_admitted second booking_id id unpaid (patch_failed reason) event once
            (record (patch_payment (patch_failed reason) s.old) { version = s.version })
            (there ∙ rw (==-refl id) refl) refl,
      )

-- A checkout that Stripe opens a session for leaves the payment `created`, with the new session and with the
-- intent that it had, whatever the payment of the booking was: the booking that it reads is the
-- renter's, reserved and on hold, and no earlier session goes on.
pub create_session_resets :
    (uuid_of : ℕ → ℕ) (retrieve : Text → Result MyError (Option Text))
    (create : BookingMirror → ℕ → Result MyError (Text × Text)) (read : Db) (now : ℕ)
    (stamp : Stamp) (at hold : ℕ) (b : BookingMirror) (session : Text × Text) (db : Db)
    → find_row mirror_id b.id read.bookings ≡ some b
    → b.status ≡ Status.reserved
    → b.hold_until ≡ some hold
    → ltb now hold ≡ true
    → resumed retrieve (find_by_booking_id b.id read.payments) ≡ ok none
    → create b hold ≡ ok session
    → (p : Payment) × (find_row payment_id
          (uuid_of b.id)
          (committed
            (create_session uuid_of retrieve create read now stamp at b.renter_id b.id)
            db).payments
        ≡ some p)
      × (p.status ≡ PaymentStatus.created)
      × (p.intent_id
          ≡ Option.bind
              (find_row payment_id (uuid_of b.id) db.payments)
              (λ (q : Payment). q.intent_id))
      × (p.session_id ≡ session.0)
unfolding create_session new_session write_session created_payment upsert_payment
create_session_resets uuid_of retrieve create read now stamp at hold b session db f s h l r c =
    let row = kept_payment (find_row payment_id (uuid_of b.id) db.payments) (
      created_payment (created_event (uuid_of b.id) b session at)
        (next_payment_version (uuid_of b.id) db.payments)) in
    let ran : (committed (create_session uuid_of retrieve create read now stamp at b.renter_id b.id)
          db).payments
        ≡ put payment_id row db.payments =
      rw
        (
          f,
          create_session,
          committed,
          ◌>>=◌,
          context,
          ==-refl b.renter_id,
          s,
          h,
          l,
          r,
          new_session,
          c,
        )
        refl in
    (row, rw ran (find-put_here payment_id row db.payments), refl, refl, refl)
