-- ===== src/Payment/Funds/Covered.antt =====
-- apps/services/payment-service/src/service/payment_service.rs: a withdrawal that is granted is covered by what
-- the host has earned, and leaves the other hosts' payouts.
use our_driveway.Prelude.{
  ℕ, ◌==◌, ◌+◌, ◌≡◌, refl, sym, ap, subst₂, true, false, none, List, arith, All,
}
use our_driveway.Prelude.Int.{
  ℤ, pos, ◌-ℤ◌, ◌≤ℤ◌, pos_part, neg_part, -ℤ_parts, i64_fits, half_i64, InWord, eq_of_parts,
}
use our_driveway.Payment.Rows.{PayoutStatus, Payout, Payment, available_cents}
use our_driveway.Payment.Table.{
  Db, payout_id, find_row, put, part, earned, earned_sum, total_for, total_sum, counts_for,
}
use our_driveway.Payment.Table.Laws.{sum_where-nonneg, sum_where-put, part_of}
use our_driveway.Payment.Service.{Asked, cutoff_at}
use our_driveway.Payment.Funds.{Granted, to_bigint-some}

-- No row has a negative amount.
pub record Amounts (db : Db) : Type 0 where
  pub payments : All (λ (p : Payment). neg_part p.amount_cents ≡ 0) db.payments
  pub payouts : All (λ (p : Payout). neg_part p.amount_cents ≡ 0) db.payouts

-- What the wrap-around subtraction of the two sums gives, where neither is negative.
available-bound :
    (e t : ℤ)
    → InWord half_i64 e
    → InWord half_i64 t
    → neg_part e ≡ 0
    → neg_part t ≡ 0
    → available_cents (record { earned_cents = e; paid_out_cents = t }) ≡ e -ℤ t
unfolding ◌-ℤ◌
available-bound e t we wt ne nt = i64_fits (e -ℤ t) (ground arith)

-- The sum of a host after the new row is written.
total-put :
    (host : ℕ) (row : Payout) (rows : List Payout)
    → find_row payout_id row.id rows ≡ none
    → (pos_part (total_sum host (put payout_id row rows))
        + neg_part (total_sum host rows)
        + neg_part (part (counts_for host) (λ p. p.amount_cents) row))
      ≡ (neg_part (total_sum host (put payout_id row rows))
          + pos_part (total_sum host rows)
          + pos_part (part (counts_for host) (λ p. p.amount_cents) row))
unfolding total_sum
total-put host row rows f =
    let absent : part_of (counts_for host) (λ (p : Payout). p.amount_cents)
          (find_row payout_id row.id rows)
        ≡ pos 0 =
      ap (part_of (counts_for host) (λ (p : Payout). p.amount_cents)) f in
    omega (
      arith,
      sum_where-put (counts_for host) (λ (p : Payout). p.amount_cents) payout_id row rows,
      ap pos_part absent,
      ap neg_part absent,
    )

-- A new part that fits into the difference keeps the sum covered.
covered_by :
    (e t t' r : ℤ)
    → neg_part e ≡ 0
    → neg_part t ≡ 0
    → pos_part t' + neg_part t + neg_part r ≡ neg_part t' + pos_part t + pos_part r
    → r ≤ℤ (e -ℤ t)
    → t' ≤ℤ e
covered_by e t t' r he ht h c = omega (arith, -ℤ_parts e t)

pub earned-nonneg :
    (host : ℕ) (cutoff : ℤ) (db : Db) → Amounts db → neg_part (earned_sum host cutoff db) ≡ 0
unfolding earned_sum
earned-nonneg host cutoff db a = sum_where-nonneg _ _ db.payments a.payments

pub total-nonneg : (host : ℕ) (db : Db) → Amounts db → neg_part (total_sum host db.payouts) ≡ 0
unfolding total_sum
total-nonneg host db a = sum_where-nonneg _ _ db.payouts a.payouts

counts-row :
    (host : ℕ) (row : Payout)
    → row.host_id ≡ host
    → row.status ≡ PayoutStatus.requested
    → counts_for host row ≡ true
unfolding counts_for
counts-row host row h e = rw (e, h) (ground arith)

-- The host's payouts stay within the earnings that the withdrawal was decided on.
pub Granted-covered :
    (settlement_secs : ℤ) (asked : Asked) (db db' : Db)
    → Amounts db
    → find_row payout_id asked.payout_id db.payouts ≡ none
    → Granted settlement_secs asked db db'
    → total_sum asked.host_id db'.payouts
      ≤ℤ earned_sum asked.host_id (cutoff_at settlement_secs asked.now) db
unfolding earned total_for
Granted-covered settlement_secs asked db db' a f g =
    let host = asked.host_id in
    let cutoff = cutoff_at settlement_secs asked.now in
    let (e, we) = to_bigint-some (earned_sum host cutoff db) g.earned_cents g.earns in
    let (t, wt) = to_bigint-some (total_sum host db.payouts) g.paid_out_cents g.took in
    let ne = earned-nonneg host cutoff db a in
    let nt = total-nonneg host db a in
    let bound =
      available-bound (earned_sum host cutoff db) (total_sum host db.payouts) we wt ne nt in
    let added = total-put host g.row db.payouts (rw g.id f) in
    let counts = counts-row host g.row g.host g.status in
    let here : part (counts_for host) (λ (p : Payout). p.amount_cents) g.row
        ≡ asked.requested_cents =
      rw counts g.amount in
    rw g.payouts (
      covered_by (earned_sum host cutoff db) (total_sum host db.payouts)
        (total_sum host (put payout_id g.row db.payouts))
        (part (counts_for host) (λ (p : Payout). p.amount_cents) g.row) ne nt added
        (subst₂ (λ (r z : ℤ). r ≤ℤ z) (sym here) (rw (e, t) bound) g.covered))

-- The other hosts' payouts stay as they were.
pub Granted-others :
    (settlement_secs : ℤ) (asked : Asked) (db db' : Db) (host : ℕ)
    → find_row payout_id asked.payout_id db.payouts ≡ none
    → Granted settlement_secs asked db db'
    → (asked.host_id == host) ≡ false
    → total_sum host db'.payouts ≡ total_sum host db.payouts
unfolding counts_for
Granted-others settlement_secs asked db db' host f g ne =
    let here : part (counts_for host) (λ (p : Payout). p.amount_cents) g.row ≡ pos 0 =
      rw (g.host, ne) refl in
    rw g.payouts (
      eq_of_parts _ _ (
        omega
          (arith, total-put host g.row db.payouts (rw g.id f), ap pos_part here, ap neg_part here)))
