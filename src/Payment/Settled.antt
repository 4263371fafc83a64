-- ===== src/Payment/Settled.antt =====
-- apps/services/payment-service/src/service: the transaction that `record_webhook` and `settle_up` share
-- moves one payment, with one version and one event, or leaves every table as it was.
use our_driveway.Prelude.{
  ℕ, ◌==◌, ◌≡◌, refl, sym, ap, ◌∙◌, subst, Bool, true, false, List, any, none, some, Option,
  Option-cases, Bool-cases, ◌⊎◌, inl, inr, if◌then◌else◌,
}
use our_driveway.Prelude.Int.{ℤ}
use our_driveway.Prelude.Result.{committed, committed_ok}
use our_driveway.Shared.Versions.{Changed, changed, unchanged, set_version, next_version}
use our_driveway.Bus.Outbox.{Pending, enqueue}
use our_driveway.Payment.Rows.{PaymentStatus, payment_eq, PaymentPatch, PaymentEvent, Payment}
use our_driveway.Payment.Table.{
  Db, Envelope, Aggregate, find_row, put, payment_id, patch_payment, transition_payment,
  next_payment_version, set_payment_version,
}
use our_driveway.Shared.Keyed.Laws.{
  guarded-cases, guarded_admitted, find-put, find-put_here, find-id,
}
use our_driveway.Payment.Service.{Stamp, settle, move_payment, number_payment}

-- The payment moved, with the next version and one event; the other tables are as they were.
pub record Settled (id : ℕ) (from : List PaymentStatus) (patch : PaymentPatch)
    (event : PaymentEvent) (stamp : Stamp) (db db' : Db) : Type 0 where
  pub old : Payment
  pub version : ℤ
  pub row : Pending Envelope
  pub found : find_row payment_id id db.payments ≡ some old
  pub allowed : any (payment_eq old.status) from ≡ true
  pub payments :
      db'.payments
      ≡ put payment_id
          (record (patch_payment patch old) { version = version })
          (put payment_id (patch_payment patch old) db.payments)
  pub numbered : version ≡ set_version old.version (next_version (some old.version))
  pub outbox : db'.outbox ≡ enqueue row db.outbox
  pub event_id : row.id ≡ stamp.event_id
  pub about : row.payload.aggregate ≡ Aggregate.payment id
  pub carries : row.payload.version ≡ next_version (some old.version)
  pub tells : row.payload.payload ≡ event
  pub payouts : db'.payouts ≡ db.payouts
  pub bookings : db'.bookings ≡ db.bookings
  pub accounts : db'.accounts ≡ db.accounts

settle_moves :
    (stamp : Stamp) (booking_id id : ℕ) (from : List PaymentStatus) (patch : PaymentPatch)
    (event : PaymentEvent) (db : Db) (rows : List Payment) (moved : Changed)
    → transition_payment id from patch db.payments ≡ (rows, moved)
    → settle stamp booking_id id from patch event db
      ≡ number_payment stamp booking_id id
          (next_payment_version id db.payments)
          event
          moved
          (record db { payments = rows })
unfolding settle move_payment
settle_moves stamp booking_id id from patch event db rows moved e =
    rw (e, settle, move_payment) refl

set_payment_version_lem :
    (id : ℕ) (v : ℤ) (row : Payment) (rows : List Payment)
    → row.id ≡ id
    → set_payment_version id v (put payment_id row rows)
      ≡ put payment_id
          (record row { version = set_version row.version v })
          (put payment_id row rows)
unfolding set_payment_version
set_payment_version_lem id v row rows e =
    let here : find_row payment_id id (put payment_id row rows) ≡ some row =
      subst (λ k. find_row payment_id k (put payment_id row rows) ≡ some row) e
        (find-put_here payment_id row rows) in
    rw (here, set_payment_version) refl

next_payment_found :
    (id : ℕ) (rows : List Payment) (p : Payment)
    → find_row payment_id id rows ≡ some p
    → next_payment_version id rows ≡ next_version (some p.version)
unfolding next_payment_version
next_payment_found id rows p e = rw (e, next_payment_version) refl

module _ (stamp : Stamp) (booking_id id : ℕ) (from : List PaymentStatus) (patch : PaymentPatch)
    (event : PaymentEvent) (db : Db) where
  settle_refused :
      transition_payment id from patch db.payments ≡ (db.payments, unchanged)
      → committed (settle stamp booking_id id from patch event) db ≡ db
  unfolding number_payment
  settle_refused e =
      committed_ok (settle stamp booking_id id from patch event) db db tt
        (settle_moves stamp booking_id id from patch event db db.payments unchanged e)

  settle-moved :
      (old : Payment)
      → find_row payment_id id db.payments ≡ some old
      → any (payment_eq old.status) from ≡ true
      → transition_payment id from patch db.payments
        ≡ (put payment_id (patch_payment patch old) db.payments, changed)
      → Settled id from patch event stamp db
          (committed (settle stamp booking_id id from patch event) db)
  unfolding number_payment patch_payment
  settle-moved old f t e =
      let new = patch_payment patch old in
      let v = next_payment_version id db.payments in
      let rows = put payment_id new db.payments in
      let ran =
        committed_ok (settle stamp booking_id id from patch event) db _ tt
          (settle_moves stamp booking_id id from patch event db rows changed e) in
      let next = next_payment_found id db.payments old f in
      record {
        old = old;
        version = set_version new.version v;
        row = _;
        found = f;
        allowed = t;
        payments =
            ap (λ (d : Db). d.payments) ran
            ∙ set_payment_version_lem id v new db.payments
                (find-id payment_id id db.payments old f);
        numbered = ap (set_version old.version) next;
        outbox = ap (λ (d : Db). d.outbox) ran;
        event_id = refl;
        about = refl;
        carries = next;
        tells = refl;
        payouts = ap (λ (d : Db). d.payouts) ran;
        bookings = ap (λ (d : Db). d.bookings) ran;
        accounts = ap (λ (d : Db). d.accounts) ran;
      }

  pub settle-Settled :
      (committed (settle stamp booking_id id from patch event) db ≡ db)
      ⊎ Settled id from patch event stamp db
          (committed (settle stamp booking_id id from patch event) db)
  unfolding transition_payment
  settle-Settled =
      elim (guarded-cases payment_id (λ p. any (payment_eq p.status) from) (patch_payment patch) id
        db.payments) [
          | inl e ↦ inl (settle_refused e)
          | inr (old, f, t, e) ↦ inr (settle-moved old f t e)
        ]

  -- A payment whose status the guard admits moves.
  pub settle_admitted :
      (p : Payment)
      → find_row payment_id id db.payments ≡ some p
      → any (payment_eq p.status) from ≡ true
      → Settled id from patch event stamp db
          (committed (settle stamp booking_id id from patch event) db)
  unfolding transition_payment
  settle_admitted p f t = settle-moved p f t (
      guarded_admitted payment_id (λ q. any (payment_eq q.status) from) (patch_payment patch) id
        db.payments p f t)

  -- A payment whose status the guard does not admit is left as it is, and so is every table.
  pub settle_barred :
      (p : Payment)
      → find_row payment_id id db.payments ≡ some p
      → any (payment_eq p.status) from ≡ false
      → committed (settle stamp booking_id id from patch event) db ≡ db
  settle_barred p f b = elim settle-Settled [
    | inl e ↦ e
    | inr s ↦
        let same : some s.old ≡ some p = sym s.found ∙ f in
        let it : s.old ≡ p = cc in
        absurd
          (true_false (sym s.allowed ∙ ap (λ (q : Payment). any (payment_eq q.status) from) it ∙ b))
  ]
    where
      true_false : true ≡ false → ⊥
      true_false h = cc

-- No row with the id is in a status that may move.
abbrev pub Barred : ℕ → List PaymentStatus → Db → Type 0
Barred id from db =
    (p : Payment)
    → find_row payment_id id db.payments ≡ some p
    → any (payment_eq p.status) from ≡ false

-- What the transaction leaves: the payment moved, or is barred and every table is as it was.
abbrev pub Settles : ℕ → List PaymentStatus → PaymentPatch → PaymentEvent → Stamp → Db → Db → Type 0
Settles id from patch event stamp db db' =
    (Barred id from db × (db' ≡ db)) ⊎ Settled id from patch event stamp db db'

none-some : (p : Payment) → none ≡ some p → ⊥
none-some p h = cc

some_eq : (p q : Payment) → some p ≡ some q → p ≡ q
some_eq p q h = cc

module _ (stamp : Stamp) (booking_id id : ℕ) (from : List PaymentStatus) (patch : PaymentPatch)
    (event : PaymentEvent) (db : Db) where
  pub settle-Settles :
      Settles id from patch event stamp db
        (committed (settle stamp booking_id id from patch event) db)
  settle-Settles = elim (Option-cases (find_row payment_id id db.payments)) [
    | inl e ↦ inl (
      (λ p f. absurd (none-some p (sym e ∙ f))),
      elim (settle-Settled stamp booking_id id from patch event db) [
        | inl s ↦ s
        | inr s ↦ absurd (none-some s.old (sym e ∙ s.found))
      ],
    )
    | inr (p, e) ↦ elim (Bool-cases (any (payment_eq p.status) from)) [
      | inl t ↦ inr (settle_admitted stamp booking_id id from patch event db p e t)
      | inr b ↦ inl (
        (λ q f. subst (λ r. any (payment_eq r.status) from ≡ false) (some_eq p q (sym e ∙ f)) b),
        settle_barred stamp booking_id id from patch event db p e b,
      )
    ]
  ]

replaced :
    {A : Type 0} (c : Bool) (x y z w : Option A)
    → w ≡ (if c then y else z)
    → (if c then x else w) ≡ (if c then x else z)
replaced true x y z w e = refl
replaced false x y z w e = e

-- The rows that are found after a payment moved.
pub find-Settled :
    {event : PaymentEvent} (id : ℕ) (from : List PaymentStatus) (patch : PaymentPatch)
    (stamp : Stamp) (db db' : Db) (s : Settled id from patch event stamp db db') (k : ℕ)
    → find_row payment_id k db'.payments ≡ (
        if id == k
        then some (record (patch_payment patch s.old) { version = s.version })
        else find_row payment_id k db.payments)
unfolding patch_payment
find-Settled id from patch stamp db db' s k =
    let new = patch_payment patch s.old in
    let final = record new { version = s.version } in
    subst
      (λ i.
        find_row payment_id k db'.payments
        ≡ (if i == k then some final else find_row payment_id k db.payments))
      (find-id payment_id id db.payments s.old s.found)
      (rw s.payments (
        find-put payment_id k final (put payment_id new db.payments)
        ∙ replaced (s.old.id == k) _ _ _ _ (find-put payment_id k new db.payments)))
