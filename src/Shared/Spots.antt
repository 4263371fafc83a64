-- ===== src/Shared/Spots.antt =====
-- shared/src/domain_models/booking/spot.rs and shared/src/events/spot.rs: booking-service's mirror
-- of a spot, and the events that it is built from.
use our_driveway.Prelude.{ℕ, Bool, true, false, Option, none, some}
use our_driveway.Prelude.Int.{ℤ}
use our_driveway.Prelude.Text.{Text}
use our_driveway.Shared.Slots.{Availability}

-- The columns of the mirror.
pub record SpotMirror : Type 0 where
  pub id : ℕ
  pub host_id : Option ℕ
  pub price_per_hour : Option ℤ
  pub availability : Option Availability
  pub timezone : Option Text
  pub active : Bool
  pub deleted : Bool

pub record SpotMirrorPatch : Type 0 where
  pub host_id : Option ℕ
  pub price_per_hour : Option ℤ
  pub availability : Option Availability
  pub timezone : Option Text
  pub active : Option Bool
  pub deleted : Option Bool

-- `SpotCreated`, less what this service does not mirror: the title, the description, the images,
-- the point and the address.
pub record SpotCreated : Type 0 where
  pub spot_id : ℕ
  pub host_id : ℕ
  pub price_per_hour_cents : ℤ
  pub availability : Availability
  pub timezone : Text

pub record SpotUpdated : Type 0 where
  pub spot_id : ℕ
  pub price_per_hour_cents : Option ℤ
  pub availability : Option Availability
  pub active : Option Bool

pub data SpotEvent : Type 0 where
  created : SpotCreated → SpotEvent
  updated : SpotUpdated → SpotEvent
  deleted : ℕ → SpotEvent

-- `SpotEvent::spot_id`
abbrev pub spot_id_of : SpotEvent → ℕ
spot_id_of (SpotEvent.created e) = e.spot_id
spot_id_of (SpotEvent.updated e) = e.spot_id
spot_id_of (SpotEvent.deleted id) = id

-- `SpotMirrorPatch::created`
unfoldable pub created_patch : SpotCreated → SpotMirrorPatch
created_patch e = record {
  host_id = some e.host_id;
  price_per_hour = some e.price_per_hour_cents;
  availability = some e.availability;
  timezone = some e.timezone;
  active = some true;
  deleted = none;
}

-- `SpotMirrorPatch::updated`
unfoldable pub updated_patch : SpotUpdated → SpotMirrorPatch
updated_patch e = record {
  host_id = none;
  price_per_hour = e.price_per_hour_cents;
  availability = e.availability;
  timezone = none;
  active = e.active;
  deleted = none;
}

-- `SpotMirrorPatch::deleted`
unfoldable pub deleted_patch : SpotMirrorPatch
deleted_patch = record {
  host_id = none;
  price_per_hour = none;
  availability = none;
  timezone = none;
  active = some false;
  deleted = some true;
}

-- `SpotMirror::bookable`: all three columns, or nothing.
unfoldable pub bookable : SpotMirror → Option (Availability × ℤ × ℕ)
bookable m = elim m.availability [
  | none ↦ none
  | some a ↦ elim m.price_per_hour [
    | none ↦ none
    | some p ↦ elim m.host_id [ none ↦ none | some h ↦ some (a, p, h) ]
  ]
]
