-- ===== src/Payment/Mirror/Follows.antt =====
-- apps/services/payment-service/src/projector.rs: the mirror of a booking follows the booking.
use our_driveway.Prelude.{ℕ, ◌≡◌, refl, ap, ◌∙◌, subst, true, none, some, List, [], ◌∷◌}
use our_driveway.Prelude.Int.{ℤ}
use our_driveway.Shared.Versions.{Changed, set_version}
use our_driveway.Shared.Bookings.{Status, among, Booking, BookingEvent, CancelReason, ReleaseReason}
use our_driveway.Booking.Table.{moved}
use our_driveway.Booking.Table.Laws.{renumbered}
use our_driveway.Payment.Rows.{BookingMirror}
use our_driveway.Payment.Table.{find_row, put, mirror_id}
use our_driveway.Shared.Keyed.Laws.{guarded_admitted, find-put_here}
use our_driveway.Payment.Mirror.{
  BookingMirrorPatch, patch_status, patch_released, patch_cancelled, patch_mirror,
  transition_mirror, set_mirror_version, mirror_event, apply_booking,
}

-- What payment-service holds of a booking.
abbrev pub view : Booking → BookingMirror
view b = record {
  id = b.id;
  version = b.version;
  spot_id = b.spot_id;
  host_id = b.host_id;
  renter_id = b.renter_id;
  amount_cents = b.amount;
  booked = b.booked;
  status = b.status;
  hold_until = b.hold_until;
  ends_at = b.ends_at;
  cancel_reason = b.cancel_reason;
  release_reason = b.release_reason;
}

-- A transition of booking-service and the event that it publishes.
pub data Emits (old : Booking) : Booking → BookingEvent → Type 0 where
  confirms :
      old.status ≡ Status.reserved
      → Emits old (moved Status.confirmed none none old) (BookingEvent.confirmed old.id)
  releases :
      (reason : ReleaseReason)
      → old.status ≡ Status.reserved
      → Emits old
          (moved Status.released (some reason) none old)
          (BookingEvent.released old.id reason)
  cancels :
      (reason : CancelReason)
      → old.status ≡ Status.confirmed
      → Emits old
          (moved Status.cancelled none (some reason) old)
          (BookingEvent.cancelled old.id reason)
  rates :
      (rating : ℤ)
      → Emits old (record old { rating = some rating }) (BookingEvent.rated old.id rating)

set_mirror_version_lem :
    (id : ℕ) (v : ℤ) (b : BookingMirror) (rows : List BookingMirror)
    → b.id ≡ id
    → find_row mirror_id id rows ≡ some b
    → find_row mirror_id id (set_mirror_version id v rows)
      ≡ some (record b { version = set_version b.version v })
unfolding set_mirror_version
set_mirror_version_lem id v b rows i h =
    rw (h, set_mirror_version)
      (subst
        (λ k.
          find_row mirror_id k (put mirror_id (record b { version = set_version b.version v }) rows)
          ≡ some (record b { version = set_version b.version v }))
        i (find-put_here mirror_id (record b { version = set_version b.version v }) rows))

transition_mirror_lem :
    (id : ℕ) (from : List Status) (patch : BookingMirrorPatch) (b : BookingMirror)
    (rows : List BookingMirror)
    → b.id ≡ id
    → find_row mirror_id id rows ≡ some b
    → among from b.status ≡ true
    → find_row mirror_id id (transition_mirror id from patch rows) ≡ some (patch_mirror patch b)
unfolding transition_mirror patch_mirror
transition_mirror_lem id from patch b rows i h t =
    ap (λ (r : List BookingMirror × Changed). find_row mirror_id id r.0)
      (guarded_admitted mirror_id (λ c. among from c.status) (patch_mirror patch) id rows b h t)
    ∙ subst
        (λ k.
          find_row mirror_id k (put mirror_id (patch_mirror patch b) rows)
          ≡ some (patch_mirror patch b))
        i (find-put_here mirror_id (patch_mirror patch b) rows)

-- The mirror follows the booking: where it holds what the booking was, and a transition of booking-service
-- moves the booking and publishes its event, the event leaves the mirror with what the booking is then,
-- its version, its reasons and its cleared hold included.
pub apply_booking-view :
    (old new : Booking) (event : BookingEvent) (version : ℤ) (rows : List BookingMirror)
    → Emits old new event
    → find_row mirror_id old.id rows ≡ some (view old)
    → find_row mirror_id old.id (apply_booking event version rows)
      ≡ some (view (renumbered version new))
unfolding apply_booking mirror_event moved patch_mirror
apply_booking-view old new event version rows (confirms s) h =
    set_mirror_version_lem old.id version _ _ refl (
      transition_mirror_lem old.id (Status.reserved ∷ []) (patch_status Status.confirmed) (view old)
        rows refl h (rw s refl))
apply_booking-view old new event version rows (releases reason s) h =
    set_mirror_version_lem old.id version _ _ refl (
      transition_mirror_lem old.id (Status.reserved ∷ []) (patch_released reason) (view old) rows
        refl h (rw s refl))
apply_booking-view old new event version rows (cancels reason s) h =
    set_mirror_version_lem old.id version _ _ refl (
      transition_mirror_lem old.id (Status.confirmed ∷ []) (patch_cancelled reason) (view old) rows
        refl h (rw s refl))
apply_booking-view old new event version rows (rates rating) h =
    set_mirror_version_lem old.id version (view old) rows refl h
