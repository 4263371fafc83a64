-- ===== src/View/Tests.antt =====
-- apps/services/view-service/src: the theorems on small tables.
use our_driveway.Prelude.{
  ℕ, ◌<◌, ◌≡◌, refl, not, ◌&&◌, List, [], ◌∷◌, none, some, false, arith, length,
}
use our_driveway.Prelude.Int.{pos, negsuc, half_i64}
use our_driveway.Prelude.Text.{codes}
use our_driveway.Shared.Bookings.{Status, status_eq}
use our_driveway.Shared.Keyed.{find_row}
use our_driveway.Payment.Rows.{PaymentStatus, payment_eq, Payment, BookingMirror}
use our_driveway.Payment.Table.{mirror_id, earns}
use our_driveway.View.Listings.{Listing, of_host, order, walk}
use our_driveway.View.Listings.Walk.{walk-whole}
use our_driveway.View.Wallet.{Kind, WalletTransaction, totals, pending, settles_at}
use our_driveway.View.Wallet.Totals.{gain, loss, sum, totals-exact}
use our_driveway.View.Wallet.Settled.{earns-pending}

abbrev listing : ℕ → ℕ → Listing ℕ
listing id host_id = record {
  id = id;
  host_id = host_id;
  created_at = 10;
  deleted = false;
  columns = 0;
}

abbrev listings : List (Listing ℕ)
listings = listing 1 7 ∷ listing 2 7 ∷ listing 3 8 ∷ listing 4 7 ∷ []

three : length (of_host 7 listings) ≡ 3
unfolding of_host
three = refl

walk-whole_example : walk 7 (some (pos 2)) listings 4 (pos 0) ≡ order (of_host 7 listings)
walk-whole_example =
    walk-whole 7 2 4 listings (omega arith) (omega arith) (omega (arith, three))
      (omega (arith, three))

abbrev month : List WalletTransaction
month =
    record { kind = Kind.incoming; amount_cents = pos 2500 }
    ∷ record { kind = Kind.outgoing; amount_cents = negsuc 999 }
    ∷ record { kind = Kind.payout; amount_cents = negsuc 499 }
    ∷ []

few_gains : sum gain month < half_i64
few_gains = omega arith

few_losses : sum loss month < half_i64
unfolding our_driveway.View.Wallet.is_payout
few_losses = omega arith

totals-exact_example : totals month ≡ (pos (sum gain month), pos (sum loss month))
totals-exact_example = totals-exact month few_gains few_losses

abbrev paid : Payment
paid = record {
  id = 7;
  version = pos 2;
  booking_id = 3;
  host_id = 1;
  renter_id = 2;
  amount_cents = pos 5000;
  session_id = codes "cs_1";
  intent_id = some (codes "pi_1");
  status = PaymentStatus.succeeded;
  refund_id = none;
  refunded_at = none;
  failure_reason = none;
  created_at = 5;
}

abbrev parked : BookingMirror
parked = record {
  id = 3;
  version = pos 2;
  spot_id = 4;
  host_id = 1;
  renter_id = 2;
  amount_cents = pos 5000;
  booked = [];
  status = Status.confirmed;
  hold_until = none;
  ends_at = 10;
  cancel_reason = none;
  release_reason = none;
}

mirrored : find_row mirror_id 3 (parked ∷ []) ≡ some parked
unfolding find_row
mirrored = refl

earns-pending_example : earns 1 (pos 20) (parked ∷ []) paid ≡ (
    payment_eq PaymentStatus.succeeded PaymentStatus.succeeded
    && (status_eq Status.confirmed Status.confirmed
        && not (pending (settles_at PaymentStatus.succeeded Status.confirmed 10) false (pos 20))))
earns-pending_example = earns-pending (pos 20) (parked ∷ []) paid parked mirrored refl
