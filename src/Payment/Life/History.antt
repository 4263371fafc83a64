-- ===== src/Payment/Life/History.antt =====
-- apps/services/payment-service/src/service: checkouts, webhooks and settlements one after another, and what
-- stays true of the payments.
use our_driveway.Prelude.{
  ℕ, ◌==◌, ◌≡◌, refl, Bool, true, false, List, [], ◌∷◌, none, some, Option, ◌⊎◌, inl, inr,
}
use our_driveway.Prelude.Int.{ℤ}
use our_driveway.Prelude.Text.{Text}
use our_driveway.Prelude.Result.{
  MyError, Result, ok, err, Result-cases, Tx, committed, api, ◌>>=◌, ◌>>◌, require, context,
}
use our_driveway.Shared.Bookings.{Status, status_eq}
use our_driveway.Payment.Rows.{
  PaymentStatus, unpaid, PaymentCreated, PaymentEvent, Payment, created_payment, patch_succeeded,
  patch_failed, BookingMirror,
}
use our_driveway.Payment.Table.{
  upsert_payment, Db, find_row, mirror_id, find_by_booking_id, next_payment_version,
}
use our_driveway.Payment.Service.{
  Stamp, Outcome, record_webhook, create_session, new_session, write_session, live, resumed,
  of_result, created_event,
}
use our_driveway.Payment.Workers.{Stripe, settle_up}
use our_driveway.Payment.Settled.{Settled, settle-Settled}

-- One call that may write a payment, with the answers of Stripe's and the snapshots that it reads.
pub data Call : Type 0 where
  checks_out :
      (Text → Result MyError (Option Text))
      → (BookingMirror → ℕ → Result MyError (Text × Text))
      → Db
      → ℕ
      → Stamp
      → ℕ
      → ℕ
      → ℕ
      → Call
  webhooks : Stamp → Outcome → Call
  settles : Stripe → Db → Db → Stamp → ℕ → ℕ → Call

module _ (uuid_of : ℕ → ℕ) where
  unfoldable pub run_call : Call → Db → Db
  run_call (checks_out retrieve create read now stamp created_at renter_id booking_id) db =
      committed
        (create_session uuid_of retrieve create read now stamp created_at renter_id booking_id) db
  run_call (webhooks stamp outcome) db = committed (record_webhook uuid_of stamp outcome) db
  run_call (settles stripe read read_booking stamp at booking_id) db =
      committed (settle_up stripe read read_booking stamp at booking_id) db

  unfoldable pub run_all : List Call → Db → Db
  run_all [] db = db
  run_all (c ∷ calls) db = run_all calls (run_call c db)

  -- A webhook leaves every table, or moves one unpaid payment.
  pub webhook-Settled :
      (stamp : Stamp) (outcome : Outcome) (db : Db)
      → (committed (record_webhook uuid_of stamp outcome) db ≡ db)
        ⊎ ((id : ℕ) × (text : Text) × (event : PaymentEvent) × (Settled id unpaid
                (patch_succeeded text)
                event
                stamp
                db
                (committed (record_webhook uuid_of stamp outcome) db)
              ⊎ Settled id unpaid
                  (patch_failed text)
                  event
                  stamp
                  db
                  (committed (record_webhook uuid_of stamp outcome) db)))
  unfolding record_webhook
  webhook-Settled stamp (Outcome.succeeded b i) db =
      elim (settle-Settled stamp b (uuid_of b) unpaid (patch_succeeded i)
        (PaymentEvent.succeeded (uuid_of b) b i) db) [
          | inl e ↦ inl e
          | inr s ↦ inr (uuid_of b, i, _, inl s)
        ]
  webhook-Settled stamp (Outcome.failed b r) db =
      elim (settle-Settled stamp b (uuid_of b) unpaid (patch_failed r)
        (PaymentEvent.failed (uuid_of b) b r) db) [
          | inl e ↦ inl e
          | inr s ↦ inr (uuid_of b, r, _, inr s)
        ]
  webhook-Settled stamp Outcome.ignored db = inl refl

  -- A checkout leaves the payments, or writes the row of a session.
  unfoldable pub Checkout : Db → Db → Type 0
  Checkout db db' =
      (db'.payments ≡ db.payments)
      ⊎ ((e : PaymentCreated) × (v : ℤ) × (db'.payments
            ≡ upsert_payment (created_payment e v) db.payments))

  new_session-Checkout :
      (create : BookingMirror → ℕ → Result MyError (Text × Text)) (b : BookingMirror) (hold : ℕ)
      (stamp : Stamp) (at : ℕ) (session : Option (Text × Text)) (db : Db)
      → Checkout db (committed (new_session uuid_of create b hold stamp at session) db)
  unfolding Checkout new_session write_session
  new_session-Checkout create b hold stamp at (some s) db = inl refl
  new_session-Checkout create b hold stamp at none db = elim (Result-cases (create b hold)) [
    | inr (x, e) ↦ inl (rw (new_session, e) refl)
    | inl (s, e) ↦
        let made = created_event (uuid_of b.id) b s at in
        let v = next_payment_version (uuid_of b.id) db.payments in
        inr (made, v, rw (new_session, e) refl)
  ]

  module _ (db : Db) where
    unfoldable Checks : {A : Type 0} → Tx Db A → Type 0
    Checks m = Checkout db (committed m db)

    Checks-require :
        {A : Type 0} (c : Bool) (e : MyError) (m : Tx Db A) → Checks m → Checks (require c e >> m)
    unfolding Checkout Checks
    Checks-require true e m h = h
    Checks-require false e m h = inl refl

    Checks-context :
        {A B : Type 0} (o : Option A) (e : MyError) (f : A → Tx Db B)
        → ((a : A) → Checks (f a))
        → Checks (context o e >>= f)
    unfolding Checkout Checks
    Checks-context none e f h = inl refl
    Checks-context (some a) e f h = h a

    Checks-result :
        {A B : Type 0} (r : Result MyError A) (f : A → Tx Db B)
        → ((a : A) → Checks (f a))
        → Checks (of_result r >>= f)
    unfolding Checkout Checks
    Checks-result (ok a) f h = h a
    Checks-result (err e) f h = inl refl

    pub create_session-Checkout :
        (retrieve : Text → Result MyError (Option Text))
        (create : BookingMirror → ℕ → Result MyError (Text × Text)) (read : Db) (now : ℕ)
        (stamp : Stamp) (at renter_id booking_id : ℕ)
        → Checkout db (
            committed
              (create_session uuid_of retrieve create read now stamp at renter_id booking_id)
              db)
    unfolding Checks create_session
    create_session-Checkout retrieve create read now stamp at renter_id booking_id =
        Checks-context (find_row mirror_id booking_id read.bookings) (api 404 "Not Found") _ (λ b.
          Checks-require (b.renter_id == renter_id) (api 403 "Forbidden") _ (
            Checks-require (status_eq b.status Status.reserved) (api 409 "Conflict") _ (
              Checks-context (live now b.hold_until) (api 410 "Hold Expired") _ (λ hold.
                Checks-result (resumed retrieve (find_by_booking_id booking_id read.payments)) _
                  (λ s. new_session-Checkout create b hold stamp at s db)))))

-- What a payment in a status carries.
abbrev pub Pairing : PaymentStatus → Payment → Type 0
Pairing PaymentStatus.succeeded p = (i : Text) × (p.intent_id ≡ some i)
Pairing PaymentStatus.refunded p =
    (i : Text) × (r : Text) × (t : ℕ) × (p.intent_id ≡ some i)
    × (p.refund_id ≡ some r)
    × (p.refunded_at ≡ some t)
Pairing _ p = Unit {0}

abbrev pub Paired : Payment → Type 0
Paired p = Pairing p.status p
