-- ===== src/Payment/Life/Invariant.antt =====
-- apps/services/payment-service/src/service: a payment that succeeded has its intent, a refunded one its
-- refund, and a refunded payment stays as it is.
use our_driveway.Prelude.{
  ℕ, ◌==◌, ==_iff, ◌≡◌, refl, sym, ap, ◌∙◌, subst, true, false, Bool-cases, List, [], ◌∷◌, any, All,
  some, inl, inr,
}
use our_driveway.Prelude.Int.{ℤ}
use our_driveway.Prelude.Text.{Text}
use our_driveway.Payment.Rows.{
  PaymentEvent, PaymentStatus, payment_eq, unpaid, PaymentPatch, Payment, created_payment,
  patch_succeeded, patch_failed, patch_refunded, patch_expired,
}
use our_driveway.Payment.Table.{
  upsert_payment, kept_payment, Db, find_row, put, payment_id, patch_payment,
}
use our_driveway.Shared.Keyed.Laws.{All-put, All-find}
use our_driveway.Payment.Service.{Stamp}
use our_driveway.Payment.Settled.{Settled, find-Settled}
use our_driveway.Payment.Life.{idle, pays_back, closes, Settlement-Moved, settle_up-Settlement}
use our_driveway.Payment.Life.History.{
  Call, checks_out, webhooks, settles, run_call, run_all, webhook-Settled, Checkout,
  create_session-Checkout, Pairing, Paired,
}

-- A patch that keeps the pairing of what it may change.
abbrev Keeps : List PaymentStatus → PaymentPatch → Type 0
Keeps from patch =
    (p : Payment) (v : ℤ)
    → any (payment_eq p.status) from ≡ true
    → Paired p
    → Paired (record (patch_payment patch p) { version = v })

is_succeeded :
    (s : PaymentStatus)
    → any (payment_eq s) (PaymentStatus.succeeded ∷ []) ≡ true
    → s ≡ PaymentStatus.succeeded
is_succeeded PaymentStatus.created h = absurd (cc)
is_succeeded PaymentStatus.succeeded h = refl
is_succeeded PaymentStatus.failed h = absurd (cc)
is_succeeded PaymentStatus.refunded h = absurd (cc)
is_succeeded PaymentStatus.expired h = absurd (cc)
is_succeeded (PaymentStatus.other n) h = absurd (cc)

Keeps-succeeded : (i : Text) → Keeps unpaid (patch_succeeded i)
unfolding patch_payment
Keeps-succeeded i p v a h = (i, refl)

Keeps-failed : (r : Text) → Keeps unpaid (patch_failed r)
unfolding patch_payment
Keeps-failed r p v a h = tt

Keeps-expired : Keeps unpaid patch_expired
unfolding patch_payment
Keeps-expired p v a h = tt

Keeps-refunded : (r : Text) (t : ℕ) → Keeps (PaymentStatus.succeeded ∷ []) (patch_refunded r t)
unfolding patch_payment
Keeps-refunded r t p v a h =
    let (i, e) = subst (λ s. Pairing s p) (is_succeeded p.status a) h in (i, r, t, e, refl, refl)

Settled-Paired :
    {event : PaymentEvent} (id : ℕ) (from : List PaymentStatus) (patch : PaymentPatch)
    (stamp : Stamp) (db db' : Db)
    → Keeps from patch
    → All Paired db.payments
    → Settled id from patch event stamp db db'
    → All Paired db'.payments
unfolding patch_payment
Settled-Paired id from patch stamp db db' keeps h s =
    let was = All-find Paired payment_id id db.payments s.old h s.found in
    rw s.payments (
      All-put Paired payment_id (record (patch_payment patch s.old) { version = s.version })
        (put payment_id (patch_payment patch s.old) db.payments)
        (All-put Paired payment_id (patch_payment patch s.old) db.payments h
          (keeps s.old s.old.version s.allowed was))
        (keeps s.old s.version s.allowed was))

module _ (uuid_of : ℕ → ℕ) where
  run_call-Paired :
      (c : Call) (db : Db) → All Paired db.payments → All Paired (run_call uuid_of c db).payments
  unfolding run_call Checkout created_payment upsert_payment
  run_call-Paired (checks_out retrieve create read now stamp at renter_id booking_id) db h =
      elim (create_session-Checkout uuid_of db retrieve create read now stamp at renter_id
        booking_id) [
          | inl e ↦ rw e h
          | inr (e, v, w) ↦ rw w (
              All-put Paired payment_id
                (kept_payment (find_row payment_id e.payment_id db.payments) (created_payment e v))
                db.payments h tt)
        ]
  run_call-Paired (webhooks stamp outcome) db h = elim (webhook-Settled uuid_of stamp outcome db) [
    | inl e ↦ rw e h
    | inr (id, text, event, inl s) ↦
        Settled-Paired id unpaid (patch_succeeded text) stamp db _ (Keeps-succeeded text) h s
    | inr (id, text, event, inr s) ↦
        Settled-Paired id unpaid (patch_failed text) stamp db _ (Keeps-failed text) h s
  ]
  run_call-Paired (settles stripe read read_booking stamp at booking_id) db h =
      elim (Settlement-Moved stripe read read_booking stamp at booking_id db _
        (settle_up-Settlement stripe stamp at booking_id db read read_booking)) [
          | idle e ↦ rw e h
          | pays_back id r event s ↦
              Settled-Paired id (PaymentStatus.succeeded ∷ []) (patch_refunded r at) stamp db _
                (Keeps-refunded r at) h s
          | closes id event s ↦ Settled-Paired id unpaid patch_expired stamp db _ Keeps-expired h s
        ]

  -- Where every payment that has succeeded has its intent, and every refunded one its intent, the id of
  -- its refund and its instant, this still holds after any checkouts, webhooks and settlements.
  pub run_all-Paired :
      (calls : List Call) (db : Db)
      → All Paired db.payments
      → All Paired (run_all uuid_of calls db).payments
  unfolding run_all
  run_all-Paired [] db h = h
  run_all-Paired (c ∷ calls) db h =
      run_all-Paired calls (run_call uuid_of c db) (run_call-Paired c db h)

-- No checkout.
abbrev pub Later : Call → Type 0
Later (checks_out retrieve create read now stamp at renter_id booking_id) = ⊥
Later _ = Unit {0}

-- A payment that no guard of `from` admits is not the one that moved.
Settled-other :
    {event : PaymentEvent} (id k : ℕ) (from : List PaymentStatus) (patch : PaymentPatch)
    (stamp : Stamp) (db db' : Db) (p : Payment)
    → find_row payment_id k db.payments ≡ some p
    → any (payment_eq p.status) from ≡ false
    → Settled id from patch event stamp db db'
    → find_row payment_id k db'.payments ≡ some p
Settled-other id k from patch stamp db db' p f b s = elim (Bool-cases (id == k)) [
  | inl e ↦
      let there : find_row payment_id id db.payments ≡ some p =
        subst (λ i. find_row payment_id i db.payments ≡ some p) (sym ((==_iff id k).0 e)) f in
      let same : some s.old ≡ some p = sym s.found ∙ there in
      let it : s.old ≡ p = cc in
      let bad : true ≡ false =
        sym s.allowed ∙ ap (λ (q : Payment). any (payment_eq q.status) from) it ∙ b in
      absurd (cc)
  | inr e ↦ let found = find-Settled id from patch stamp db db' s k in found ∙ rw e f
]

module _ (uuid_of : ℕ → ℕ) (k : ℕ) (p : Payment) (final : p.status ≡ PaymentStatus.refunded) where
  barred :
      (from : List PaymentStatus)
      → any (payment_eq PaymentStatus.refunded) from ≡ false
      → any (payment_eq p.status) from ≡ false
  barred from h = rw final h

  run_call-refunded :
      (c : Call) (db : Db)
      → Later c
      → find_row payment_id k db.payments ≡ some p
      → find_row payment_id k (run_call uuid_of c db).payments ≡ some p
  unfolding run_call
  run_call-refunded (checks_out retrieve create read now stamp at renter_id booking_id) db l f =
      absurd l
  run_call-refunded (webhooks stamp outcome) db l f =
      elim (webhook-Settled uuid_of stamp outcome db) [
        | inl e ↦ rw e f
        | inr (id, text, event, inl s) ↦
            Settled-other id k unpaid (patch_succeeded text) stamp db _ p f (barred unpaid refl) s
        | inr (id, text, event, inr s) ↦
            Settled-other id k unpaid (patch_failed text) stamp db _ p f (barred unpaid refl) s
      ]
  run_call-refunded (settles stripe read read_booking stamp at booking_id) db l f =
      elim (Settlement-Moved stripe read read_booking stamp at booking_id db _
        (settle_up-Settlement stripe stamp at booking_id db read read_booking)) [
          | idle e ↦ rw e f
          | pays_back id r event s ↦
              Settled-other id k (PaymentStatus.succeeded ∷ []) (patch_refunded r at) stamp db _ p f
                (barred (PaymentStatus.succeeded ∷ []) refl) s
          | closes id event s ↦
              Settled-other id k unpaid patch_expired stamp db _ p f (barred unpaid refl) s
        ]

  -- A refunded payment stays as it is, its refund and its version included, whatever webhooks and
  -- settlements follow and whatever Stripe answers them.
  pub run_all-refunded :
      (calls : List Call) (db : Db)
      → All Later calls
      → find_row payment_id k db.payments ≡ some p
      → find_row payment_id k (run_all uuid_of calls db).payments ≡ some p
  unfolding run_all
  run_all-refunded [] db l f = f
  run_all-refunded (c ∷ calls) db (l, ls) f =
      run_all-refunded calls (run_call uuid_of c db) ls (run_call-refunded c db l f)
