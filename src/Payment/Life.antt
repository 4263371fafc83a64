-- ===== src/Payment/Life.antt =====
-- apps/services/payment-service/src/service/payment_service.rs, settlement_worker_service.rs: the life of
-- a payment, over checkouts, webhooks and settlements in any order.
pub mod History
pub mod Invariant
pub mod Webhooks
use our_driveway.Prelude.{
  ℕ, ◌==◌, ◌≡◌, refl, sym, ap, ◌∙◌, subst, Bool, true, false, Bool-cases, List, [], ◌∷◌, any, All,
  none, some, Option, Option-cases, ◌⊎◌, inl, inr, arith, if◌then◌else◌,
}
use our_driveway.Prelude.Int.{ℤ}
use our_driveway.Prelude.Text.{Text}
use our_driveway.Prelude.Result.{MyError, Result, ok, err, Result-cases, Tx, committed, bus}
use our_driveway.Bus.Outbox.{enqueue}
use our_driveway.Shared.Bookings.{Status}
use our_driveway.Payment.Rows.{
  PaymentStatus, payment_eq, unpaid, PaymentPatch, PaymentEvent, Payment, patch_succeeded,
  patch_failed, patch_refunded, patch_expired, BookingMirror,
}
use our_driveway.Payment.Policy.{Action, decide, settle_ended}
use our_driveway.Payment.Table.{
  Db, find_row, put, payment_id, mirror_id, find_by_booking_id, patch_payment,
}
use our_driveway.Shared.Keyed.Laws.{All-put, All-find}
use our_driveway.Payment.Service.{Stamp, settle, Outcome, record_webhook, create_session}
use our_driveway.Payment.Workers.{Stripe, act, settle_up, is_some}
use our_driveway.Payment.Settled.{Settled, settle-Settled, settle-Settles, Settles}

-- The booking has ended.
abbrev pub Ended : Status → Type 0
Ended s = (s ≡ Status.released) ⊎ (s ≡ Status.cancelled)

-- What is owed where a booking ends: a payment that has succeeded is refunded, and an unpaid one is voided, each
-- unless it was refunded before.
abbrev pub OwesRefund : Status → PaymentStatus → Option Text → Type 0
OwesRefund booking payment refund_id =
    Ended booking × (payment ≡ PaymentStatus.succeeded) × (refund_id ≡ none)

abbrev pub OwesVoid : Status → PaymentStatus → Option Text → Type 0
OwesVoid booking payment refund_id =
    Ended booking
    × ((payment ≡ PaymentStatus.created) ⊎ (payment ≡ PaymentStatus.failed))
    × (refund_id ≡ none)

-- The decision, as the code makes it, against what is owed.
data Decided (s : Status) (t : PaymentStatus) (o : Option Text) (a : Action) : Type 0 where
  owed : OwesRefund s t o → a ≡ Action.refund → Decided s t o a
  open_still : OwesVoid s t o → a ≡ Action.expire_session → Decided s t o a
  nothing_owed :
      (OwesRefund s t o → ⊥) → (OwesVoid s t o → ⊥) → a ≡ Action.nothing → Decided s t o a

Ended-Decided : (s : Status) (t : PaymentStatus) → Ended s → Decided s t none (settle_ended t)
Ended-Decided s PaymentStatus.created e = open_still (e, inl refl, refl) refl
Ended-Decided s PaymentStatus.succeeded e = owed (e, refl, refl) refl
Ended-Decided s PaymentStatus.failed e = open_still (e, inr refl, refl) refl
Ended-Decided s PaymentStatus.refunded e =
    nothing_owed (λ (x, y, z). absurd (cc))
      (λ (x, y, z). elim y [ inl h ↦ absurd (cc) | inr h ↦ absurd (cc) ]) refl
Ended-Decided s PaymentStatus.expired e =
    nothing_owed (λ (x, y, z). absurd (cc))
      (λ (x, y, z). elim y [ inl h ↦ absurd (cc) | inr h ↦ absurd (cc) ]) refl
Ended-Decided s (PaymentStatus.other n) e =
    nothing_owed (λ (x, y, z). absurd (cc))
      (λ (x, y, z). elim y [ inl h ↦ absurd (cc) | inr h ↦ absurd (cc) ]) refl

not-Ended-Decided :
    (s : Status) (t : PaymentStatus) (o : Option Text)
    → (Ended s → ⊥)
    → Decided s t o Action.nothing
not-Ended-Decided s t o n = nothing_owed (λ h. n h.0) (λ h. n h.0) refl

decide-Decided :
    (s : Status) (t : PaymentStatus) (o : Option Text) → Decided s t o (decide s t (is_some o))
unfolding decide
decide-Decided s t (some x) =
    nothing_owed (λ (e, y, z). absurd (cc)) (λ (e, y, z). absurd (cc)) refl
decide-Decided Status.released t none = Ended-Decided Status.released t (inl refl)
decide-Decided Status.cancelled t none = Ended-Decided Status.cancelled t (inr refl)
decide-Decided Status.reserved t none =
    not-Ended-Decided Status.reserved t none
      (λ h. elim h [ inl e ↦ absurd (cc) | inr e ↦ absurd (cc) ])
decide-Decided Status.confirmed t none =
    not-Ended-Decided Status.confirmed t none
      (λ h. elim h [ inl e ↦ absurd (cc) | inr e ↦ absurd (cc) ])
decide-Decided (Status.other n) t none =
    not-Ended-Decided (Status.other n) t none
      (λ h. elim h [ inl e ↦ absurd (cc) | inr e ↦ absurd (cc) ])

-- What a settlement has read: the payment of the booking, and the mirror of the booking.
pub record Read (read read_booking : Db) (booking_id : ℕ) : Type 0 where
  pub payment : Payment
  pub booking : BookingMirror
  pub paid : find_by_booking_id booking_id read.payments ≡ some payment
  pub mirrored : find_row mirror_id booking_id read_booking.bookings ≡ some booking

-- Every branch of a settlement.
pub data Settlement (stripe : Stripe) (read read_booking : Db) (stamp : Stamp)
    (refunded_at booking_id : ℕ) (db db' : Db) : Type 0 where
  unpaid_for :
      find_by_booking_id booking_id read.payments ≡ none
      → db' ≡ db
      → Settlement stripe read read_booking stamp refunded_at booking_id db db'
  not_mirrored :
      find_row mirror_id booking_id read_booking.bookings ≡ none
      → db' ≡ db
      → Settlement stripe read read_booking stamp refunded_at booking_id db db'
  rests :
      (r : Read read read_booking booking_id)
      → (OwesRefund r.booking.status r.payment.status r.payment.refund_id → ⊥)
      → (OwesVoid r.booking.status r.payment.status r.payment.refund_id → ⊥)
      → db' ≡ db
      → Settlement stripe read read_booking stamp refunded_at booking_id db db'
  no_intent :
      (r : Read read read_booking booking_id)
      → OwesRefund r.booking.status r.payment.status r.payment.refund_id
      → r.payment.intent_id ≡ none
      → db' ≡ db
      → Settlement stripe read read_booking stamp refunded_at booking_id db db'
  no_refund :
      (r : Read read read_booking booking_id) (intent : Text) (e : MyError)
      → OwesRefund r.booking.status r.payment.status r.payment.refund_id
      → r.payment.intent_id ≡ some intent
      → stripe.refund intent r.payment.id ≡ err e
      → db' ≡ db
      → Settlement stripe read read_booking stamp refunded_at booking_id db db'
  refunds :
      (r : Read read read_booking booking_id) (intent refund_id : Text)
      → OwesRefund r.booking.status r.payment.status r.payment.refund_id
      → r.payment.intent_id ≡ some intent
      → stripe.refund intent r.payment.id ≡ ok refund_id
      → Settles r.payment.id
          (PaymentStatus.succeeded ∷ [])
          (patch_refunded refund_id refunded_at)
          (PaymentEvent.refunded r.payment.id booking_id refund_id r.payment.amount_cents
            refunded_at)
          stamp
          db
          db'
      → Settlement stripe read read_booking stamp refunded_at booking_id db db'
  no_expiry :
      (r : Read read read_booking booking_id) (e : MyError)
      → OwesVoid r.booking.status r.payment.status r.payment.refund_id
      → stripe.expire_session r.payment.session_id ≡ err e
      → db' ≡ db
      → Settlement stripe read read_booking stamp refunded_at booking_id db db'
  voids :
      (r : Read read read_booking booking_id)
      → OwesVoid r.booking.status r.payment.status r.payment.refund_id
      → stripe.expire_session r.payment.session_id ≡ ok tt
      → Settles r.payment.id
          (PaymentStatus.created ∷ PaymentStatus.failed ∷ [])
          patch_expired
          (PaymentEvent.session_expired r.payment.id booking_id)
          stamp
          db
          db'
      → Settlement stripe read read_booking stamp refunded_at booking_id db db'

module _ (stripe : Stripe) (stamp : Stamp) (refunded_at booking_id : ℕ)
    (db read read_booking : Db) where
  abbrev Acted : Db → Type 0
  Acted db' = Settlement stripe read read_booking stamp refunded_at booking_id db db'

  module _ (r : Read read read_booking booking_id) where
    abbrev runs : Action → Db
    runs a = committed (act stripe stamp refunded_at booking_id r.payment a) db

    refund-Acted :
        OwesRefund r.booking.status r.payment.status r.payment.refund_id
        → Acted (runs Action.refund)
    unfolding act
    refund-Acted owes = elim (Option-cases r.payment.intent_id) [
      | inl e ↦ no_intent r owes e (rw (e, act) refl)
      | inr (intent, e) ↦ elim (Result-cases (stripe.refund intent r.payment.id)) [
        | inr (x, f) ↦ no_refund r intent x owes e f (rw (e, act, f) refl)
        | inl (refund_id, f) ↦
            let event =
              PaymentEvent.refunded r.payment.id booking_id refund_id r.payment.amount_cents
                refunded_at in
            let transaction =
              settle stamp booking_id r.payment.id (PaymentStatus.succeeded ∷ [])
                (patch_refunded refund_id refunded_at) event in
            let ran : runs Action.refund ≡ committed transaction db = rw (e, act, f) refl in
            refunds r intent refund_id owes e f (
              subst
                (λ d.
                  Settles r.payment.id (PaymentStatus.succeeded ∷ [])
                    (patch_refunded refund_id refunded_at) event stamp db d)
                (sym ran)
                (settle-Settles stamp booking_id r.payment.id (PaymentStatus.succeeded ∷ [])
                  (patch_refunded refund_id refunded_at) event db))
      ]
    ]

    void-Acted :
        OwesVoid r.booking.status r.payment.status r.payment.refund_id
        → Acted (runs Action.expire_session)
    unfolding act
    void-Acted owes = elim (Result-cases (stripe.expire_session r.payment.session_id)) [
      | inr (x, f) ↦ no_expiry r x owes f (rw (act, f) refl)
      | inl (x, f) ↦
          let event = PaymentEvent.session_expired r.payment.id booking_id in
          let ran : runs Action.expire_session
              ≡ committed (settle stamp booking_id r.payment.id unpaid patch_expired event) db =
            rw (act, f) refl in
          voids r owes f (
            subst (λ d. Settles r.payment.id unpaid patch_expired event stamp db d) (sym ran)
              (settle-Settles stamp booking_id r.payment.id unpaid patch_expired event db))
    ]

    act-Acted :
        (a : Action)
        → Decided r.booking.status r.payment.status r.payment.refund_id a
        → Acted (runs a)
    unfolding act
    act-Acted a (owed o e) = subst (λ b. Acted (runs b)) (sym e) (refund-Acted o)
    act-Acted a (open_still o e) = subst (λ b. Acted (runs b)) (sym e) (void-Acted o)
    act-Acted a (nothing_owed n m e) = subst (λ b. Acted (runs b)) (sym e) (rests r n m refl)

  -- A settlement refunds or voids exactly what is owed for the payment and the booking that it
  -- reads. A booking that has ended is owed a refund of a payment that has succeeded, and the end
  -- of the session of one that is created or has failed, each unless there was a refund. Where
  -- Stripe agrees, and the row of the payment still admits it, the row moves, with the next
  -- version and one event that tells it; on every other branch every table is as it was.
  pub settle_up-Settlement :
      Settlement stripe read read_booking stamp refunded_at booking_id db
        (committed (settle_up stripe read read_booking stamp refunded_at booking_id) db)
  unfolding settle_up
  settle_up-Settlement = elim (Option-cases (find_by_booking_id booking_id read.payments)) [
    | inl e ↦ unpaid_for e (rw (e, settle_up) refl)
    | inr (p, e) ↦ elim (Option-cases (find_row mirror_id booking_id read_booking.bookings)) [
      | inl f ↦ not_mirrored f (rw (e, settle_up, f) refl)
      | inr (b, f) ↦
          let r : Read read read_booking booking_id = record {
            payment = p;
            booking = b;
            paid = e;
            mirrored = f;
          } in
          let ran : committed (settle_up stripe read read_booking stamp refunded_at booking_id) db
              ≡ runs r (decide b.status p.status (is_some p.refund_id)) =
            rw (e, settle_up, f) refl in
          subst Acted (sym ran) (
            act-Acted r (decide b.status p.status (is_some p.refund_id))
              (decide-Decided b.status p.status p.refund_id))
    ]
  ]

-- What a settlement does to the rows: nothing, a refund, or the end of a session.
pub data Moved (stamp : Stamp) (refunded_at : ℕ) (db db' : Db) : Type 0 where
  idle : db' ≡ db → Moved stamp refunded_at db db'
  pays_back :
      (id : ℕ) (refund_id : Text) (event : PaymentEvent)
      → Settled id
          (PaymentStatus.succeeded ∷ [])
          (patch_refunded refund_id refunded_at)
          event
          stamp
          db
          db'
      → Moved stamp refunded_at db db'
  closes :
      (id : ℕ) (event : PaymentEvent)
      → Settled id unpaid patch_expired event stamp db db'
      → Moved stamp refunded_at db db'

module _ (stripe : Stripe) (read read_booking : Db) (stamp : Stamp) (refunded_at booking_id : ℕ)
    (db db' : Db) where
  pub Settlement-Moved :
      Settlement stripe read read_booking stamp refunded_at booking_id db db'
      → Moved stamp refunded_at db db'
  Settlement-Moved (unpaid_for e s) = idle s
  Settlement-Moved (not_mirrored e s) = idle s
  Settlement-Moved (rests r n m s) = idle s
  Settlement-Moved (no_intent r o i s) = idle s
  Settlement-Moved (no_refund r i x o e f s) = idle s
  Settlement-Moved (refunds r i k o e f s) = elim s [
    | inl (b, h) ↦ idle h
    | inr h ↦ pays_back r.payment.id k _ h
  ]
  Settlement-Moved (no_expiry r x o f s) = idle s
  Settlement-Moved (voids r o f s) = elim s [
    | inl (b, h) ↦ idle h
    | inr h ↦ closes r.payment.id _ h
  ]
