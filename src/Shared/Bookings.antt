-- ===== src/Shared/Bookings.antt =====
-- shared/src/domain_models/booking/booking.rs and shared/src/events/booking.rs. A uuid is a number,
-- an instant is the milliseconds since the epoch.
use our_driveway.Prelude.{ℕ, ◌==◌, Bool, true, false, Option, none, some, List, any}
use our_driveway.Prelude.Int.{ℤ}
use our_driveway.Prelude.Text.{Text}
use our_driveway.Shared.Slots.{Booked}

-- The strings of `status`; any other text is `other`, by some numbering of the texts.
pub data Status : Type 0 where
  reserved confirmed released cancelled : Status
  other : ℕ → Status

abbrev pub status_eq : Status → Status → Bool
status_eq Status.reserved Status.reserved = true
status_eq Status.confirmed Status.confirmed = true
status_eq Status.released Status.released = true
status_eq Status.cancelled Status.cancelled = true
status_eq (Status.other a) (Status.other b) = a == b
status_eq _ _ = false

-- `eq_any`
abbrev pub among : List Status → Status → Bool
among from s = any (status_eq s) from

pub data CancelReason : Type 0 where
  by_renter spot_unavailable : CancelReason

pub data ReleaseReason : Type 0 where
  abandoned expired : ReleaseReason

pub record BookingCreated : Type 0 where
  pub booking_id : ℕ
  pub spot_id : ℕ
  pub host_id : ℕ
  pub renter_id : ℕ
  pub booked : Booked
  pub license_plate : Text
  pub amount_cents : ℤ
  pub expires_at : ℕ
  pub ends_at : ℕ

pub data BookingEvent : Type 0 where
  created : BookingCreated → BookingEvent
  confirmed : ℕ → BookingEvent
  released : ℕ → ReleaseReason → BookingEvent
  cancelled : ℕ → CancelReason → BookingEvent
  rated : ℕ → ℤ → BookingEvent

-- `BookingEvent::booking_id`
abbrev pub booking_id_of : BookingEvent → ℕ
booking_id_of (BookingEvent.created e) = e.booking_id
booking_id_of (BookingEvent.confirmed id) = id
booking_id_of (BookingEvent.released id reason) = id
booking_id_of (BookingEvent.cancelled id reason) = id
booking_id_of (BookingEvent.rated id rating) = id

-- A row of the `booking` table.
pub record Booking : Type 0 where
  pub id : ℕ
  pub version : ℤ
  pub spot_id : ℕ
  pub host_id : ℕ
  pub renter_id : ℕ
  pub booked : Booked
  pub license_plate : Text
  pub amount : ℤ
  pub status : Status
  pub hold_until : Option ℕ
  pub release_reason : Option ReleaseReason
  pub cancel_reason : Option CancelReason
  pub ends_at : ℕ
  pub rating : Option ℤ
  pub created_at : ℕ

-- `Booking::created`: the row that a `Created` writes.
unfoldable pub created_row : BookingCreated → ℕ → ℤ → Booking
created_row e when version = record {
  id = e.booking_id;
  version = version;
  spot_id = e.spot_id;
  host_id = e.host_id;
  renter_id = e.renter_id;
  booked = e.booked;
  license_plate = e.license_plate;
  amount = e.amount_cents;
  status = Status.reserved;
  hold_until = some e.expires_at;
  release_reason = none;
  cancel_reason = none;
  ends_at = e.ends_at;
  rating = none;
  created_at = when;
}
