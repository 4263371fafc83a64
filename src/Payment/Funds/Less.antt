-- ===== src/Payment/Funds/Less.antt =====
-- apps/services/payment-service/src/service/payout_worker_service.rs: a payout that is concluded counts for no
-- more than before.
use our_driveway.Prelude.{
  ℕ, ◌==◌, ◌≡◌, refl, sym, ap, ◌∙◌, subst, true, Bool-cases, some, ◌+◌, List, arith, inl, inr,
}
use our_driveway.Prelude.Int.{ℤ, ◌≤ℤ◌, pos_part, neg_part}
use our_driveway.Payment.Rows.{PayoutStatus, PayoutPatch, Payout, payout_eq}
use our_driveway.Payment.Table.{
  Db, payout_id, find_row, put, part, patch_payout, total_sum, counts_for,
}
use our_driveway.Shared.Keyed.Laws.{find-put_here, find-id, All-put, All-find}
use our_driveway.Payment.Table.Laws.{sum_where-put, part_of}
use our_driveway.Payment.Workers.{Transferred, conclusion}
use our_driveway.Payment.Funds.Covered.{Amounts}
use our_driveway.Payment.Funds.Concluded.{Concluded}

-- The amount that a row adds to the sum of a host.
abbrev counted_for : ℕ → Payout → ℤ
counted_for host p = part (counts_for host) (λ p. p.amount_cents) p

total-replace :
    (host : ℕ) (old new : Payout) (rows : List Payout)
    → find_row payout_id new.id rows ≡ some old
    → (pos_part (total_sum host (put payout_id new rows))
        + pos_part (counted_for host old)
        + neg_part (total_sum host rows)
        + neg_part (counted_for host new))
      ≡ (neg_part (total_sum host (put payout_id new rows))
          + neg_part (counted_for host old)
          + pos_part (total_sum host rows)
          + pos_part (counted_for host new))
unfolding total_sum
total-replace host old new rows f =
    let there : part_of (counts_for host) (λ (p : Payout). p.amount_cents)
          (find_row payout_id new.id rows)
        ≡ counted_for host old =
      ap (part_of (counts_for host) (λ (p : Payout). p.amount_cents)) f in
    omega (
      arith,
      sum_where-put (counts_for host) (λ (p : Payout). p.amount_cents) payout_id new rows,
      ap pos_part there,
      ap neg_part there,
    )

is_requested :
    (s : PayoutStatus) → payout_eq s PayoutStatus.requested ≡ true → s ≡ PayoutStatus.requested
is_requested PayoutStatus.requested h = refl
is_requested PayoutStatus.paid h = absurd (cc)
is_requested PayoutStatus.failed h = absurd (cc)

-- Stripe's answer never makes a payout count for more.
counts_less :
    (host at : ℕ) (answer : Transferred) (p old : Payout)
    → neg_part old.amount_cents ≡ 0
    → old.status ≡ PayoutStatus.requested
    → counted_for host (patch_payout (conclusion answer p at).0 old) ≤ℤ counted_for host old
unfolding counts_for patch_payout
counts_less host at (Transferred.done x) p old n w = elim (Bool-cases (old.host_id == host)) [
  | inl e ↦ rw (e, w) (omega arith)
  | inr e ↦ rw e (omega arith)
]
counts_less host at (Transferred.refused x) p old n w = elim (Bool-cases (old.host_id == host)) [
  | inl e ↦ rw (e, w) (omega (arith, n))
  | inr e ↦ rw e (omega arith)
]

patched_amount :
    (patch : PayoutPatch) (old : Payout) → (patch_payout patch old).amount_cents ≡ old.amount_cents
unfolding patch_payout
patched_amount patch old = refl

patched_id : (patch : PayoutPatch) (old : Payout) → (patch_payout patch old).id ≡ old.id
unfolding patch_payout
patched_id patch old = refl

numbered_part :
    (host : ℕ) (row : Payout) (v : ℤ)
    → counted_for host (record row { version = v }) ≡ counted_for host row
unfolding counts_for
numbered_part host row v = refl

module _ (at id : ℕ) (answer : Transferred) (p : Payout) (db db' : Db) (a : Amounts db)
    (c : Concluded id (conclusion answer p at).0 db db') where
  moved_row : Payout
  moved_row = patch_payout (conclusion answer p at).0 c.old

  old_amount : neg_part c.old.amount_cents ≡ 0
  old_amount =
      All-find (λ (q : Payout). neg_part q.amount_cents ≡ 0) payout_id id db.payouts c.old a.payouts
        c.found

  pub Concluded-less : (host : ℕ) → total_sum host db'.payouts ≤ℤ total_sum host db.payouts
  unfolding moved_row
  Concluded-less host =
      let at_id : find_row payout_id moved_row.id db.payouts ≡ some c.old =
        subst (λ k. find_row payout_id k db.payouts ≡ some c.old)
          (sym (find-id payout_id id db.payouts c.old c.found)
            ∙ sym (patched_id (conclusion answer p at).0 c.old))
          c.found in
      let final = record moved_row { version = c.version } in
      let same = numbered_part host moved_row c.version in
      rw c.payouts (
        omega (
          arith,
          counts_less host at answer p c.old old_amount (is_requested c.old.status c.was),
          total-replace host c.old moved_row db.payouts at_id,
          total-replace host moved_row final (put payout_id moved_row db.payouts)
              (find-put_here payout_id moved_row db.payouts),
          ap pos_part same,
          ap neg_part same,
        ))

  pub Concluded-Amounts : Amounts db'
  unfolding moved_row
  Concluded-Amounts =
      let ok_row : neg_part moved_row.amount_cents ≡ 0 =
        ap neg_part (patched_amount (conclusion answer p at).0 c.old) ∙ old_amount in
      record {
        payments = rw c.payments a.payments;
        payouts = rw c.payouts (
            All-put (λ (q : Payout). neg_part q.amount_cents ≡ 0) payout_id
              (record moved_row { version = c.version }) (put payout_id moved_row db.payouts)
              (All-put (λ (q : Payout). neg_part q.amount_cents ≡ 0) payout_id moved_row db.payouts
                a.payouts ok_row)
              ok_row);
      }
