-- ===== src/View/Wallet.antt =====
-- apps/services/view-service/src: a month of a wallet (policy/wallet.rs), and when a charge settles
-- (repository/wallet_repository.rs).
pub mod Totals
pub mod Settled
use our_driveway.Prelude.{
  ℕ, not, ◌&&◌, ◌||◌, Bool, true, false, Option, none, some, List, [], ◌∷◌, if◌then◌else◌,
}
use our_driveway.Prelude.Int.{ℤ, pos, ◌+ℤ◌, ◌-ℤ◌, i64, leb_ℤ}
use our_driveway.Shared.Bookings.{Status, status_eq}
use our_driveway.Payment.Rows.{PaymentStatus, payment_eq}

pub data Kind : Type 0 where
  incoming outgoing refund payout : Kind

unfoldable pub is_payout : Kind → Bool
is_payout Kind.incoming = false
is_payout Kind.outgoing = false
is_payout Kind.refund = false
is_payout Kind.payout = true

-- The columns of a row that the policy reads.
pub record WalletTransaction : Type 0 where
  pub kind : Kind
  pub amount_cents : ℤ

-- One row of the loop of `totals`.
unfoldable pub add_row : ℤ × ℤ → WalletTransaction → ℤ × ℤ
add_row (money_in, money_out) row =
    if leb_ℤ (pos 0) row.amount_cents
    then (i64 (money_in +ℤ row.amount_cents), money_out)
    else if is_payout row.kind
    then (money_in, money_out)
    else (money_in, i64 (money_out -ℤ row.amount_cents))

abbrev pub fold : ℤ × ℤ → List WalletTransaction → ℤ × ℤ
fold acc [] = acc
fold acc (row ∷ rows) = fold (add_row acc row) rows

-- `totals`
unfoldable pub totals : List WalletTransaction → ℤ × ℤ
totals = fold (pos 0, pos 0)

-- `pending`
unfoldable pub pending : Option ℕ → Bool → ℤ → Bool
pending settles_at pending_now settled_before =
    pending_now
    || elim settles_at [ none ↦ false | some ends_at ↦ leb_ℤ settled_before (pos ends_at) ]

-- The column `settles_at` of a charge on the caller's own spot.
unfoldable pub settles_at : PaymentStatus → Status → ℕ → Option ℕ
settles_at payment booking ends_at =
    if payment_eq payment PaymentStatus.succeeded && status_eq booking Status.confirmed
    then some ends_at
    else none
