-- ===== src/Payment/Funds/Concluded.antt =====
-- apps/services/payment-service/src/service/payout_worker_service.rs: what `pay_out` leaves in the tables.
use our_driveway.Prelude.{
  ℕ, ◌≡◌, refl, sym, ap, ◌∙◌, subst, true, Bool-cases, some, Option-cases, List, [], ◌∷◌, arith,
  any, ◌⊎◌, inl, inr,
}
use our_driveway.Prelude.Int.{ℤ}
use our_driveway.Prelude.Text.{Text}
use our_driveway.Prelude.Result.{MyError, Result, Result-cases, committed, committed_ok}
use our_driveway.Shared.Versions.{Changed, changed, unchanged, set_version}
use our_driveway.Payment.Rows.{PayoutStatus, PayoutPatch, Payout, PaymentEvent, payout_eq}
use our_driveway.Payment.Table.{
  Db, payout_id, find_row, put, patch_payout, transition_payout, next_payout_version,
  set_payout_version,
}
use our_driveway.Shared.Keyed.Laws.{guarded-cases, find-put_here, find-id}
use our_driveway.Payment.Service.{Stamp}
use our_driveway.Payment.Workers.{
  Transferred, conclude, conclusion, move_payout, number_payout, pay_out, find_account,
}

-- A payout that is concluded: the row in `requested` takes the patch and a version.
pub record Concluded (id : ℕ) (patch : PayoutPatch) (db db' : Db) : Type 0 where
  pub old : Payout
  pub version : ℤ
  pub found : find_row payout_id id db.payouts ≡ some old
  pub was : payout_eq old.status PayoutStatus.requested ≡ true
  pub payouts :
      db'.payouts
      ≡ put payout_id
          (record (patch_payout patch old) { version = version })
          (put payout_id (patch_payout patch old) db.payouts)
  pub payments : db'.payments ≡ db.payments
  pub bookings : db'.bookings ≡ db.bookings

conclude_moves :
    (stamp : Stamp) (host_id id : ℕ) (patch : PayoutPatch) (event : PaymentEvent) (db : Db)
    (rows : List Payout) (moved : Changed)
    → transition_payout id (PayoutStatus.requested ∷ []) patch db.payouts ≡ (rows, moved)
    → conclude stamp host_id id patch event db
      ≡ number_payout stamp host_id id
          (next_payout_version id db.payouts)
          event
          moved
          (record db { payouts = rows })
unfolding conclude move_payout
conclude_moves stamp host_id id patch event db rows moved e = rw (e, conclude, move_payout) refl

set_payout_version_lem :
    (id : ℕ) (v : ℤ) (row : Payout) (rows : List Payout)
    → row.id ≡ id
    → set_payout_version id v (put payout_id row rows)
      ≡ put payout_id (record row { version = set_version row.version v }) (put payout_id row rows)
unfolding set_payout_version
set_payout_version_lem id v row rows e =
    let here : find_row payout_id id (put payout_id row rows) ≡ some row =
      subst (λ k. find_row payout_id k (put payout_id row rows) ≡ some row) e
        (find-put_here payout_id row rows) in
    rw (here, set_payout_version) refl

conclude-Concluded :
    (stamp : Stamp) (host_id id : ℕ) (patch : PayoutPatch) (event : PaymentEvent) (db : Db)
    → (committed (conclude stamp host_id id patch event) db ≡ db)
      ⊎ Concluded id patch db (committed (conclude stamp host_id id patch event) db)
unfolding number_payout transition_payout patch_payout
conclude-Concluded stamp host_id id patch event db =
    elim (guarded-cases payout_id (λ p. any (payout_eq p.status) (PayoutStatus.requested ∷ []))
      (patch_payout patch) id db.payouts) [
        | inl e ↦ inl (
            committed_ok (conclude stamp host_id id patch event) db db tt
              (conclude_moves stamp host_id id patch event db db.payouts unchanged e))
        | inr (old, f, t, e) ↦
            let new = patch_payout patch old in
            let v = next_payout_version id db.payouts in
            let rows = put payout_id new db.payouts in
            inr (record {
              old = old;
              version = set_version new.version v;
              found = f;
              was = ground (arith, t);
              payouts =
                  ap (λ (d : Db). d.payouts)
                    (committed_ok (conclude stamp host_id id patch event) db _ tt
                      (conclude_moves stamp host_id id patch event db rows changed e))
                  ∙ set_payout_version_lem id v new db.payouts
                      (find-id payout_id id db.payouts old f);
              payments =
                  ap (λ (d : Db). d.payments)
                    (committed_ok (conclude stamp host_id id patch event) db _ tt
                      (conclude_moves stamp host_id id patch event db rows changed e));
              bookings =
                  ap (λ (d : Db). d.bookings)
                    (committed_ok (conclude stamp host_id id patch event) db _ tt
                      (conclude_moves stamp host_id id patch event db rows changed e));
            })
      ]

-- Only a payout in `requested` is concluded, with the answer of Stripe's.
pub pay_out-Concluded :
    (transfer : Text → ℤ → ℕ → Result MyError Transferred) (read read_account : Db) (stamp : Stamp)
    (at id : ℕ) (db : Db)
    → (committed (pay_out transfer read read_account stamp at id) db ≡ db)
      ⊎ ((answer : Transferred) × (p : Payout) × Concluded id
            (conclusion answer p at).0
            db
            (committed (pay_out transfer read read_account stamp at id) db))
unfolding pay_out
pay_out-Concluded transfer read read_account stamp at id db =
    elim (Option-cases (find_row payout_id id read.payouts)) [
      | inl e ↦ inl (rw (e, pay_out) refl)
      | inr (p, e) ↦ elim (Bool-cases (payout_eq p.status PayoutStatus.requested)) [
        | inr n ↦ inl (rw (e, pay_out, n) refl)
        | inl y ↦ elim (Option-cases (find_account p.host_id read_account.accounts)) [
          | inl a ↦ inl (rw (e, pay_out, y, a) refl)
          | inr (account, a) ↦ elim (Result-cases (transfer account p.amount_cents id)) [
            | inr (x, t) ↦ inl (rw (e, pay_out, y, a, t) refl)
            | inl (answer, t) ↦
                let c = conclusion answer p at in
                let ran : committed (pay_out transfer read read_account stamp at id) db
                    ≡ committed (conclude stamp p.host_id id c.0 c.1) db =
                  rw (e, pay_out, y, a, t) refl in
                elim (conclude-Concluded stamp p.host_id id c.0 c.1 db) [
                  | inl s ↦ inl (ran ∙ s)
                  | inr s ↦ inr (answer, p, subst (Concluded id c.0 db) (sym ran) s)
                ]
          ]
        ]
      ]
    ]
