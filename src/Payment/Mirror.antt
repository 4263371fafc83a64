-- ===== src/Payment/Mirror.antt =====
-- apps/services/payment-service/src/projector.rs and repository/booking_mirror_repository.rs: the mirror of
-- the bookings, which the events of booking-service keep up to date.
pub mod Follows
use mathlib.Core.Option
use our_driveway.Prelude.{
  given, or_else, ℕ, ◌==◌, ◌≡◌, refl, sym, ap, ◌∙◌, subst, Bool, true, false, any, Option, none,
  some, List, [], ◌∷◌, arith, if◌then◌else◌,
}
use our_driveway.Prelude.Int.{ℤ, pos}
use our_driveway.Shared.Versions.{Changed, changed, set_version}
use our_driveway.Shared.Bookings.{
  booking_id_of, Status, status_eq, among, Booking, BookingCreated, BookingEvent, CancelReason,
  ReleaseReason,
}
use our_driveway.Booking.Table.{moved}
use our_driveway.Booking.Table.Laws.{renumbered}
use our_driveway.Payment.Rows.{BookingMirror}
use our_driveway.Payment.Table.{find_row, put, guarded, mirror_id}
use our_driveway.Shared.Keyed.Laws.{guarded_admitted, find-put_here, find-id}

-- `BookingMirror::created`, above the `version` that its row has.
unfoldable pub mirror_created : BookingCreated → ℤ → BookingMirror
mirror_created e version = record {
  id = e.booking_id;
  version = version;
  spot_id = e.spot_id;
  host_id = e.host_id;
  renter_id = e.renter_id;
  amount_cents = e.amount_cents;
  booked = e.booked;
  status = Status.reserved;
  hold_until = some e.expires_at;
  ends_at = e.ends_at;
  cancel_reason = none;
  release_reason = none;
}

-- The columns that an upsert leaves alone: `version`, by default 0, and those that a new row has `None` in.
abbrev kept_mirror : Option BookingMirror → BookingCreated → BookingMirror
kept_mirror none e = mirror_created e (pos 0)
kept_mirror (some b) e = record (mirror_created e b.version) {
  cancel_reason = b.cancel_reason;
  release_reason = b.release_reason;
}

-- `BookingMirrorRepository::upsert`
unfoldable pub upsert_mirror : BookingCreated → List BookingMirror → List BookingMirror
upsert_mirror e rows = put mirror_id (kept_mirror (find_row mirror_id e.booking_id rows) e) rows

pub record BookingMirrorPatch : Type 0 where
  pub status : Option Status
  pub cancel_reason : Option CancelReason
  pub release_reason : Option ReleaseReason

-- `BookingMirrorPatch::status`, `released` and `cancelled`.
abbrev pub patch_status : Status → BookingMirrorPatch
patch_status to = record { status = some to; cancel_reason = none; release_reason = none }

abbrev pub patch_released : ReleaseReason → BookingMirrorPatch
patch_released reason = record {
  status = some Status.released;
  cancel_reason = none;
  release_reason = some reason;
}

abbrev pub patch_cancelled : CancelReason → BookingMirrorPatch
patch_cancelled reason = record {
  status = some Status.cancelled;
  cancel_reason = some reason;
  release_reason = none;
}

-- The `SET` list of `transition`: the patch, and the hold is cleared.
unfoldable pub patch_mirror : BookingMirrorPatch → BookingMirror → BookingMirror
patch_mirror patch b = record b {
  status = given patch.status b.status;
  hold_until = none;
  cancel_reason = or_else patch.cancel_reason b.cancel_reason;
  release_reason = or_else patch.release_reason b.release_reason;
}

-- `BookingMirrorRepository::transition`
unfoldable pub transition_mirror :
    ℕ → List Status → BookingMirrorPatch → List BookingMirror → List BookingMirror
transition_mirror id from patch rows =
    (guarded mirror_id (λ b. among from b.status) (patch_mirror patch) id rows).0

-- `set_version!` on the mirror.
unfoldable pub set_mirror_version : ℕ → ℤ → List BookingMirror → List BookingMirror
set_mirror_version id v rows = elim (find_row mirror_id id rows) [
  | none ↦ rows
  | some b ↦ put mirror_id (record b { version = set_version b.version v }) rows
]

-- The `match` of `BookingProjector::apply`.
unfoldable pub mirror_event : BookingEvent → List BookingMirror → List BookingMirror
mirror_event (BookingEvent.created e) rows = upsert_mirror e rows
mirror_event (BookingEvent.confirmed id) rows =
    transition_mirror id (Status.reserved ∷ []) (patch_status Status.confirmed) rows
mirror_event (BookingEvent.released id reason) rows =
    transition_mirror id (Status.reserved ∷ []) (patch_released reason) rows
mirror_event (BookingEvent.cancelled id reason) rows =
    transition_mirror id (Status.confirmed ∷ []) (patch_cancelled reason) rows
mirror_event (BookingEvent.rated id rating) rows = rows

-- `BookingProjector::apply`
unfoldable pub apply_booking : BookingEvent → ℤ → List BookingMirror → List BookingMirror
apply_booking event version rows =
    set_mirror_version (booking_id_of event) version (mirror_event event rows)
