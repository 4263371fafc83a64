-- ===== src/View/Wallet/Totals.antt =====
-- apps/services/view-service/src/policy/wallet.rs: what `totals` adds up.
use our_driveway.Prelude.{ℕ, ◌+◌, ◌<◌, ◌≡◌, ap, ◌∙◌, List, [], ◌∷◌, arith, if◌then◌else◌}
use our_driveway.Prelude.Int.{pos, pos_part, neg_part, ◌+ℤ◌, ◌-ℤ◌, wrap, half_i64}
use our_driveway.View.Wallet.{is_payout, WalletTransaction, add_row, fold, totals}

-- What comes in with a row, and what goes out: a payout does not.
abbrev pub gain : WalletTransaction → ℕ
gain row = pos_part row.amount_cents

abbrev pub loss : WalletTransaction → ℕ
loss row = if is_payout row.kind then 0 else neg_part row.amount_cents

abbrev pub sum : (WalletTransaction → ℕ) → List WalletTransaction → ℕ
sum f [] = 0
sum f (row ∷ rows) = f row + sum f rows

add_row-exact :
    (a b : ℕ) (row : WalletTransaction)
    → a + gain row < half_i64
    → b + loss row < half_i64
    → add_row (pos a, pos b) row ≡ (pos (a + gain row), pos (b + loss row))
unfolding add_row wrap ◌+ℤ◌ ◌-ℤ◌
add_row-exact a b row h k = ground arith

fold-exact :
    (a b : ℕ) (rows : List WalletTransaction)
    → a + sum gain rows < half_i64
    → b + sum loss rows < half_i64
    → fold (pos a, pos b) rows ≡ (pos (a + sum gain rows), pos (b + sum loss rows))
fold-exact a b [] h k =
    ap (λ p. (pos p, pos b)) (omega arith) ∙ ap (λ q. (pos (a + 0), pos q)) (omega arith)
fold-exact a b (row ∷ rows) h k =
    ap (λ acc. fold acc rows) (add_row-exact a b row (omega arith) (omega arith))
    ∙ (fold-exact (a + gain row) (b + loss row) rows (omega arith) (omega arith)
        ∙ (ap (λ p. (pos p, pos (b + loss row + sum loss rows))) (omega arith)
            ∙ ap (λ q. (pos (a + (gain row + sum gain rows)), pos q)) (omega arith)))

-- The totals of a month are the sum of the positive amounts and the sum of the magnitudes of the negative
-- amounts that are not withdrawals, where both sums are `i64`s.
pub totals-exact :
    (rows : List WalletTransaction)
    → sum gain rows < half_i64
    → sum loss rows < half_i64
    → totals rows ≡ (pos (sum gain rows), pos (sum loss rows))
unfolding totals
totals-exact rows h k =
    fold-exact 0 0 rows (omega arith) (omega arith)
    ∙ (ap (λ p. (pos p, pos (0 + sum loss rows))) (omega arith)
        ∙ ap (λ q. (pos (sum gain rows), pos q)) (omega arith))
