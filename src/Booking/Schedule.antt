-- ===== src/Booking/Schedule.antt =====
-- apps/services/booking-service/src/policy/schedule.rs: the wall-clock times of a booking on a
-- timeline. `chrono` and `chrono_tz` are the argument `Calendar`.
use our_driveway.Prelude.{
  ℕ, ◌+◌, Option, none, some, List, [], ◌∷◌, ◌++◌, Bool, leb, if◌then◌else◌, filter_map,
}
use our_driveway.Prelude.Text.{Text}
use our_driveway.Shared.Slots.{TimeSlot, Booked}
use our_driveway.Booking.Availability.{Weekday}

-- What the program asks of its date library. `local` reads "YYYY-MM-DD HH:MM" as the milliseconds
-- of that wall time; `zone` parses the name of a time zone, and gives the earliest instant of a
-- wall time in it, or none in a gap.
pub record Calendar : Type 0 where
  pub weekday_of : Text → Option Weekday
  pub local : Text → Option ℕ
  pub zone : Text → Option (ℕ → Option ℕ)

abbrev pub hour_ms : ℕ
hour_ms = 3600000

abbrev pub cutoff : ℕ
cutoff = hour_ms

module _ (cal : Calendar) where
  -- One date's wall times: `format!("{date} {}", pick(s))`, where it parses.
  unfoldable pub day_times : Text → (TimeSlot → Text) → List TimeSlot → List ℕ
  day_times date pick slots = filter_map (λ s. cal.local (date ++ b' ' ∷ pick s)) slots

  unfoldable pub wall_times : (TimeSlot → Text) → Booked → List ℕ
  wall_times pick [] = []
  wall_times pick ((date, slots) ∷ rest) = day_times date pick slots ++ wall_times pick rest

-- `Iterator::min` and `Iterator::max`
unfoldable pub least : List ℕ → Option ℕ
least [] = none
least (x ∷ xs) = elim (least xs) [ none ↦ some x | some y ↦ some (if leb x y then x else y) ]

unfoldable pub greatest : List ℕ → Option ℕ
greatest [] = none
greatest (x ∷ xs) = elim (greatest xs) [ none ↦ some x | some y ↦ some (if leb x y then y else x) ]

-- A wall time in a gap is placed an hour later.
unfoldable pub instant : (ℕ → Option ℕ) → ℕ → Option ℕ
instant earliest t = elim (earliest t) [ some i ↦ some i | none ↦ earliest (t + hour_ms) ]

module _ (cal : Calendar) where
  unfoldable pub starts_at : Booked → Text → Option ℕ
  starts_at booked timezone = elim (cal.zone timezone) [
    | none ↦ none
    | some earliest ↦ elim (least (wall_times cal (λ s. s.start) booked)) [
      | none ↦ none
      | some first ↦ instant earliest first
    ]
  ]

  unfoldable pub ends_at : Booked → Text → Option ℕ
  ends_at booked timezone = elim (cal.zone timezone) [
    | none ↦ none
    | some earliest ↦ elim (greatest (wall_times cal (λ s. s.end) booked)) [
      | none ↦ none
      | some last ↦ instant earliest last
    ]
  ]

  -- Whether a cancel at `now` is still in time; nothing where the start cannot be told.
  unfoldable pub in_time : Booked → Text → ℕ → Option Bool
  in_time booked timezone now = elim (starts_at booked timezone) [
    | none ↦ none
    | some start ↦ some (leb (now + cutoff) start)
  ]
