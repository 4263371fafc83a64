-- ===== src/View/Wallet/Settled.antt =====
-- apps/services/view-service/src/policy/wallet.rs and apps/services/payment-service/src/repository/payment_repository.rs:
-- a charge that is shown as pending is a charge that is not earned yet.
use our_driveway.Prelude.{not, ◌&&◌, ◌≡◌, false, some, List, arith}
use our_driveway.Prelude.Int.{ℤ}
use our_driveway.Shared.Bookings.{Status, status_eq}
use our_driveway.Payment.Rows.{PaymentStatus, payment_eq, Payment, BookingMirror}
use our_driveway.Payment.Table.{mirror_id, find_row, settled_booking, earns}
use our_driveway.View.Wallet.{pending, settles_at}

-- payment-service counts a payment to a host's earnings exactly where it has succeeded, its booking is confirmed,
-- and view-service does not show the charge as pending by the same cutoff, where the payment and the
-- booking name the same host.
pub earns-pending :
    (cutoff : ℤ) (bookings : List BookingMirror) (p : Payment) (b : BookingMirror)
    → find_row mirror_id p.booking_id bookings ≡ some b
    → b.host_id ≡ p.host_id
    → earns p.host_id cutoff bookings p ≡ (
        payment_eq p.status PaymentStatus.succeeded
        && (status_eq b.status Status.confirmed
            && not (pending (settles_at p.status b.status b.ends_at) false cutoff)))
unfolding earns settled_booking pending settles_at
earns-pending cutoff bookings p b found same = rw found (ground arith)
