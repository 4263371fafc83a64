-- ===== src/Payment/Funds/History.antt =====
-- apps/services/payment-service/src: the withdrawals of all hosts and Stripe's answers to them, in any order.
use our_driveway.Prelude.{
  ℕ, ◌==◌, ==_iff, ◌≡◌, refl, sym, subst, true, Bool-cases, none, arith, inl, inr,
}
use our_driveway.Prelude.Int.{ℤ, parts_or, ◌≤ℤ◌, neg_part}
use our_driveway.Prelude.Text.{Text}
use our_driveway.Prelude.Result.{MyError, Result, committed}
use our_driveway.Payment.Rows.{Payout, Payment}
use our_driveway.Payment.Table.{
  Db, payout_id, find_row, total_sum, earned_sum, earns, settled_booking,
}
use our_driveway.Shared.Keyed.Laws.{All-put}
use our_driveway.Payment.Table.Laws.{sum_where-mono}
use our_driveway.Payment.Service.{Stamp, Asked, request_payout, cutoff_at}
use our_driveway.Payment.Workers.{Transferred, conclusion, pay_out}
use our_driveway.Payment.Funds.{Granted, request_payout-Granted}
use our_driveway.Payment.Funds.Covered.{Amounts, Granted-covered, Granted-others}
use our_driveway.Payment.Funds.Less.{Concluded-less, Concluded-Amounts}
use our_driveway.Payment.Funds.Concluded.{Concluded, pay_out-Concluded}

Granted-amount :
    (secs : ℤ) (asked : Asked) (db db' : Db) → Amounts db → Granted secs asked db db' → Amounts db'
Granted-amount secs asked db db' a g = record {
  payments = rw g.payments a.payments;
  payouts = rw g.payouts (
      All-put (λ (q : Payout). neg_part q.amount_cents ≡ 0) payout_id g.row db.payouts a.payouts
        (rw g.amount (omega (arith, g.least, parts_or asked.requested_cents))));
}

-- Withdrawals, each under the lock of its host, and the worker's runs, in any order. A new payout has a
-- new id, and the earnings are read with a cutoff of at most `last`.
pub data Withdrawals (last : ℤ) (u : Db) : Db → Type 0 where
  start : Withdrawals last u u
  asks :
      {v : Db} (settlement_secs : ℤ) (asked : Asked)
      → Withdrawals last u v
      → find_row payout_id asked.payout_id v.payouts ≡ none
      → cutoff_at settlement_secs asked.now ≤ℤ last
      → Withdrawals last u (committed (request_payout settlement_secs asked) v)
  pays :
      {v : Db} (transfer : Text → ℤ → ℕ → Result MyError Transferred) (read read_account : Db)
      (stamp : Stamp) (at id : ℕ)
      → Withdrawals last u v
      → Withdrawals last u (committed (pay_out transfer read read_account stamp at id) v)

-- What is withdrawn, or being withdrawn, is earned.
pub record Covered (last : ℤ) (db : Db) : Type 0 where
  pub amounts : Amounts db
  pub within : (host : ℕ) → total_sum host db.payouts ≤ℤ earned_sum host last db

earns_mono :
    (host : ℕ) (cutoff last : ℤ) (db : Db)
    → cutoff ≤ℤ last
    → (q : Payment) → earns host cutoff db.bookings q ≡ true
    → earns host last db.bookings q ≡ true
unfolding earns settled_booking
earns_mono host cutoff last db l q h = ground arith

-- A later cutoff counts at least the same bookings.
earned-mono :
    (host : ℕ) (cutoff last : ℤ) (db : Db)
    → cutoff ≤ℤ last
    → Amounts db
    → earned_sum host cutoff db ≤ℤ earned_sum host last db
unfolding earned_sum
earned-mono host cutoff last db l a =
    sum_where-mono (earns host cutoff db.bookings) (earns host last db.bookings)
      (λ (q : Payment). q.amount_cents) (earns_mono host cutoff last db l) db.payments a.payments

-- The earnings do not depend on the payouts.
earned-same :
    (host : ℕ) (last : ℤ) (db db' : Db)
    → db'.payments ≡ db.payments
    → db'.bookings ≡ db.bookings
    → earned_sum host last db' ≡ earned_sum host last db
unfolding earned_sum
earned-same host last db db' p b = rw (p, b) refl

module _ (last : ℤ) (db db' : Db) (c : Covered last db) where
  Covered-Granted :
      (secs : ℤ) (asked : Asked)
      → find_row payout_id asked.payout_id db.payouts ≡ none
      → cutoff_at secs asked.now ≤ℤ last
      → Granted secs asked db db'
      → Covered last db'
  Covered-Granted secs asked f l g = record {
    amounts = Granted-amount secs asked db db' c.amounts g;
    within = λ host.
        subst (λ z. total_sum host db'.payouts ≤ℤ z)
          (sym (earned-same host last db db' g.payments g.bookings))
          (elim (Bool-cases (asked.host_id == host)) [
            | inl e ↦
                subst (λ h. total_sum h db'.payouts ≤ℤ earned_sum h last db)
                  ((==_iff asked.host_id host).0 e)
                  (omega (
                    arith,
                    Granted-covered secs asked db db' c.amounts f g,
                    earned-mono asked.host_id (cutoff_at secs asked.now) last db l c.amounts,
                  ))
            | inr e ↦ rw (Granted-others secs asked db db' host f g e) (c.within host)
          ]);
  }

  Covered-Concluded :
      (at id : ℕ) (answer : Transferred) (p : Payout)
      → Concluded id (conclusion answer p at).0 db db'
      → Covered last db'
  Covered-Concluded at id answer p k = record {
    amounts = Concluded-Amounts at id answer p db db' c.amounts k;
    within = λ host.
        rw (earned-same host last db db' k.payments k.bookings)
          (omega (arith, Concluded-less at id answer p db db' c.amounts k host, c.within host));
  }

-- From tables with no negative amounts in which no host has withdrawn more than what they have earned by
-- the instant `last`, whatever withdrawals and runs of the worker follow and in whatever order, the
-- same holds afterwards, where each new payout has a new id and no cutoff is past `last`: the payouts of a host
-- that are requested or paid never add up to more than the host's settled earnings.
pub Withdrawals-Covered :
    (last : ℤ) (u v : Db) → Withdrawals last u v → Covered last u → Covered last v
Withdrawals-Covered last u v start c = c
Withdrawals-Covered last u _ (asks {v = w} secs asked h f l) c =
    let before = Withdrawals-Covered last u w h c in
    elim (request_payout-Granted secs asked w) [
      | inl e ↦ subst (Covered last) (sym e) before
      | inr g ↦ Covered-Granted last w _ before secs asked f l g
    ]
Withdrawals-Covered last u _ (pays {v = w} transfer read read_account stamp at id h) c =
    let before = Withdrawals-Covered last u w h c in
    elim (pay_out-Concluded transfer read read_account stamp at id w) [
      | inl e ↦ subst (Covered last) (sym e) before
      | inr (answer, p, k) ↦ Covered-Concluded last w _ before at id answer p k
    ]
