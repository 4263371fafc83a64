-- ===== src/Payment/Funds.antt =====
-- apps/services/payment-service/src/service/payment_service.rs: what `request_payout` leaves in the tables,
-- and that a host's withdrawals stay within what the host has earned.
pub mod Covered
pub mod Concluded
pub mod Less
pub mod History
use our_driveway.Prelude.{
  ℕ, ◌==◌, ◌≤◌, ◌+◌, ◌≡◌, refl, sym, ap, ◌∙◌, subst, subst₂, Bool, true, false, Bool-cases, Option,
  none, some, Option-cases, List, [], ◌∷◌, arith, All, ◌⊎◌, inl, inr, if◌then◌else◌,
}
use our_driveway.Prelude.Int.{
  ℤ, pos, ◌+ℤ◌, ◌-ℤ◌, ◌≤ℤ◌, pos_part, neg_part, -ℤ_parts, i64, i64_fits, half_i64, InWord, parts_or,
  eq_of_parts,
}
use our_driveway.Prelude.Result.{
  bus, Result, Tx, ◌>>=◌, ok, err, Result-cases, committed, bind_ok, bind_err, committed_ok,
  committed_err,
}
use our_driveway.Payment.Rows.{
  PayoutStatus, Payout, Payment, available_cents, min_cents, requested_payout,
}
use our_driveway.Payment.Policy.{Rejection, check}
use our_driveway.Payment.Table.{
  upsert_payout, Db, payout_id, find_row, put, part, earned, earned_sum, total_for, total_sum,
  to_bigint, counts_for, sum_where,
}
use our_driveway.Payment.Table.Laws.{sum_where-nonneg, sum_where-put, part_of}
use our_driveway.Payment.Service.{
  Asked, balance, write_payout, request_payout, cutoff_at, refused, granted,
}

pub to_bigint-some : (z e : ℤ) → to_bigint z ≡ some e → (e ≡ z) × InWord half_i64 z
to_bigint-some z e h = ground arith

check-ok :
    (requested available amount : ℤ)
    → check requested available ≡ ok amount
    → (amount ≡ requested) × (min_cents ≤ℤ requested) × (requested ≤ℤ available)
unfolding check
check-ok requested available amount h = ground arith

-- A withdrawal that was granted: one new row, of what was asked.
pub record Granted (settlement_secs : ℤ) (asked : Asked) (db db' : Db) : Type 0 where
  pub row : Payout
  pub earned_cents : ℤ
  pub paid_out_cents : ℤ
  pub earns : earned asked.host_id (cutoff_at settlement_secs asked.now) db ≡ some earned_cents
  pub took : total_for asked.host_id db ≡ some paid_out_cents
  pub least : min_cents ≤ℤ asked.requested_cents
  pub covered :
      asked.requested_cents
      ≤ℤ available_cents (record { earned_cents = earned_cents; paid_out_cents = paid_out_cents })
  pub payouts : db'.payouts ≡ put payout_id row db.payouts
  pub payments : db'.payments ≡ db.payments
  pub bookings : db'.bookings ≡ db.bookings
  pub id : row.id ≡ asked.payout_id
  pub host : row.host_id ≡ asked.host_id
  pub amount : row.amount_cents ≡ asked.requested_cents
  pub status : row.status ≡ PayoutStatus.requested

-- The balance is read, or a sum does not fit.
balance-cases :
    (cutoff : ℤ) (host_id : ℕ) (db : Db)
    → (balance cutoff host_id db ≡ err bus)
      ⊎ ((e : ℤ) × (t : ℤ) × (earned host_id cutoff db ≡ some e)
          × (total_for host_id db ≡ some t)
          × (balance cutoff host_id db
              ≡ ok (available_cents (record { earned_cents = e; paid_out_cents = t }), db)))
unfolding balance
balance-cases cutoff host_id db = elim (Option-cases (earned host_id cutoff db)) [
  | inl e ↦ inl (rw (e, balance) refl)
  | inr (e, p) ↦ elim (Option-cases (total_for host_id db)) [
    | inl f ↦ inl (rw (p, f, balance) refl)
    | inr (t, q) ↦ inr (e, t, p, q, rw (p, q, balance) refl)
  ]
]

-- What a withdrawal that is granted writes.
write_payout_ok :
    (asked : Asked) (amount : ℤ) (db : Db)
    → (v : ℤ) × (db' : Db) × (row : Payout) × (write_payout asked amount db ≡ ok ((v, amount), db'))
      × (db'.payouts ≡ put payout_id row db.payouts)
      × (db'.payments ≡ db.payments)
      × (db'.bookings ≡ db.bookings)
      × (row.id ≡ asked.payout_id)
      × (row.host_id ≡ asked.host_id)
      × (row.amount_cents ≡ amount)
      × (row.status ≡ PayoutStatus.requested)
unfolding write_payout requested_payout upsert_payout
write_payout_ok asked amount db = (_, _, _, refl, refl, refl, refl, refl, refl, refl, refl)

-- The steps of `request_payout` behind the balance.
abbrev decided : Asked → ℤ → Tx Db ℤ
decided asked available = granted (check asked.requested_cents available)

abbrev pay : Asked → ℤ → Tx Db (ℤ × ℤ)
pay asked available = decided asked available >>= write_payout asked

-- A withdrawal leaves every table as it was, or writes one payout of the amount that was asked, which is at
-- least the minimum and at most the balance that it read.
pub request_payout-Granted :
    (settlement_secs : ℤ) (asked : Asked) (db : Db)
    → (committed (request_payout settlement_secs asked) db ≡ db)
      ⊎ Granted settlement_secs asked db (committed (request_payout settlement_secs asked) db)
unfolding request_payout
request_payout-Granted settlement_secs asked db =
    let cutoff = cutoff_at settlement_secs asked.now in
    elim (balance-cases cutoff asked.host_id db) [
      | inl h ↦ inl (
          committed_err (request_payout settlement_secs asked) db bus
            (bind_err (balance cutoff asked.host_id) (pay asked) db bus h))
      | inr (e, t, p, q, b) ↦
          let available = available_cents (record { earned_cents = e; paid_out_cents = t }) in
          elim (Result-cases (check asked.requested_cents available)) [
            | inr (r, c) ↦ inl (
                committed_err (request_payout settlement_secs asked) db (refused r) (
                  bind_ok (balance cutoff asked.host_id) (pay asked) db db available b
                  ∙ bind_err (decided asked available) (write_payout asked) db (refused r)
                      (ap (λ d. granted d db) c)))
            | inl (amount, c) ↦
                let (x, y, z) = check-ok asked.requested_cents available amount c in
                let (v, db', row, w, a1, a2, a3, a4, a5, a6, a7) =
                  write_payout_ok asked amount db in
                let ran =
                  committed_ok (request_payout settlement_secs asked) db db' (v, amount)
                    (bind_ok (balance cutoff asked.host_id) (pay asked) db db available b
                      ∙ (bind_ok (decided asked available) (write_payout asked) db db amount
                            (ap (λ d. granted d db) c)
                          ∙ w)) in
                inr (
                  subst (Granted settlement_secs asked db) (sym ran) (record {
                    row = row;
                    earned_cents = e;
                    paid_out_cents = t;
                    earns = p;
                    took = q;
                    least = y;
                    covered = z;
                    payouts = a1;
                    payments = a2;
                    bookings = a3;
                    id = a4;
                    host = a5;
                    amount = a6 ∙ x;
                    status = a7;
                  }))
          ]
    ]
