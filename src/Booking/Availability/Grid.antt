-- ===== src/Booking/Availability/Grid.antt =====
-- A validated grid (shared/src/general_models/spot.rs) as the availability check reads it: the
-- `u32` fields of `check_time` are the `i32` fields of `to_min`, and every window lies in the day.
use our_driveway.Prelude.{
  ℕ, ◌+◌, ◌*◌, ◌≤◌, ◌<◌, ◌≡◌, Bool, true, Option, some, List, [], ◌∷◌, arith, filter_map, All,
  Option-cases, inl, inr,
}
use our_driveway.Prelude.Int.{pos, ◌+ℤ◌, ◌*ℤ◌, ◌≤ℤ◌, i32_fits, i32}
use our_driveway.Prelude.Text.{Text, split_once}
use our_driveway.Shared.Slots.{
  TimeSlot, Booked, Availability, get, digits_from, parse_digits, within, parse_u32, check_time,
  ordered, validate_slots, validate_week, validate_single, validate,
}
use our_driveway.Booking.Availability.{
  Span, span, to_min, parse_i32, Weekday, mon, weekly_windows, open_windows,
}

-- The minutes from midnight to midnight.
abbrev pub InDay : Span → Type 0
InDay s = (pos 0 ≤ℤ s.0) × (s.1 ≤ℤ pos 1440)

parse_agree :
    (t : Text) (n : ℕ) → parse_u32 t ≡ some n → n ≤ 2147483647 → parse_i32 t ≡ some (pos n)
unfolding parse_u32 parse_i32 within parse_digits digits_from
parse_agree [] n h k = cc
parse_agree (c ∷ s) n h k = ground arith

-- The parts of a time that `check_time` accepts.
check_time_inv :
    (t : Text)
    → check_time t ≡ true
    → (h m : Text) × (hour min : ℕ) × (split_once b':' t ≡ some (h, m))
      × (parse_u32 h ≡ some hour)
      × (parse_u32 m ≡ some min)
      × (hour < 24)
      × (min < 60)
unfolding check_time
check_time_inv t e = elim (Option-cases (split_once b':' t)) [
  | inl x ↦ absurd (ground arith)
  | inr ((h, m), x) ↦ elim (Option-cases (parse_u32 h)) [
    | inl y ↦ absurd (ground arith)
    | inr (hour, y) ↦ elim (Option-cases (parse_u32 m)) [
      | inl z ↦ absurd (ground arith)
      | inr (min, z) ↦ (h, m, hour, min, x, y, z, ground arith, ground arith)
    ]
  ]
]

minutes_exact :
    (hour min : ℕ)
    → hour < 24
    → min < 60
    → i32 (i32 (pos hour *ℤ pos 60) +ℤ pos min) ≡ pos (hour * 60 + min)
minutes_exact hour min h m =
    let p : pos hour *ℤ pos 60 ≡ pos (hour * 60) = unfold ◌*ℤ◌ in ground arith in
    let q : pos (hour * 60) +ℤ pos min ≡ pos (hour * 60 + min) = unfold ◌+ℤ◌ in ground arith in
    rw (p, i32_fits (pos (hour * 60)) (omega arith), q) (i32_fits _ (omega arith))

-- A time that `check_time` accepts is read as its minute of the day.
pub check_time-to_min :
    (t : Text) → check_time t ≡ true → (n : ℕ) × (to_min t ≡ some (pos n)) × (n < 1440)
unfolding to_min
check_time-to_min t e =
    let (h, m, hour, min, x, y, z, a, b) = check_time_inv t e in
    let p = parse_agree h hour y (omega arith) in
    let q = parse_agree m min z (omega arith) in
    (hour * 60 + min, ground (arith, minutes_exact hour min a b), omega arith)

-- A slot of a validated list has a span only within the day.
span-InDay :
    (s : TimeSlot) (r : Span)
    → check_time s.start ≡ true
    → check_time s.end ≡ true
    → span s ≡ some r
    → InDay r
unfolding span
span-InDay s r a b e =
    let (m, x, _) = check_time-to_min s.start a in
    let (n, y, _) = check_time-to_min s.end b in ground arith

ordered-InDay : (slots : List TimeSlot) → ordered slots ≡ true → All InDay (filter_map span slots)
unfolding ordered
ordered-InDay [] h = tt
ordered-InDay (s ∷ slots) h = elim (Option-cases (span s)) [
  | inl e ↦ rw (e, filter_map) (ordered-InDay slots (ground arith))
  | inr (r, e) ↦
      rw (e, filter_map)
        (span-InDay s r (ground arith) (ground arith) e, ordered-InDay slots (ground arith))
]

pub validate_slots-InDay :
    (slots : List TimeSlot) → validate_slots slots ≡ true → All InDay (filter_map span slots)
unfolding validate_slots
validate_slots-InDay slots h = ordered-InDay slots (ground arith)

weekly-InDay :
    (av : Availability) (day : Weekday)
    → validate_week av.weekly ≡ true
    → validate_slots (weekly_windows av day) ≡ true
unfolding validate_week weekly_windows
weekly-InDay av mon h = ground arith
weekly-InDay av _ h = ground arith

module _ (is_date : Text → Bool) where
  single-InDay :
      (single : Booked) (date : Text) (slots : List TimeSlot)
      → validate_single is_date single ≡ true
      → get date single ≡ some slots
      → validate_slots slots ≡ true
  unfolding validate_single get
  single-InDay [] date slots h e = cc
  single-InDay ((d, xs) ∷ rest) date slots h e = ground (arith, single-InDay rest date slots)

-- All the hours of every date lie within the day.
abbrev pub DayHours : (Text → Option Weekday) → Availability → Type 0
DayHours weekday_of av =
    (date : Text) (windows : List TimeSlot)
    → open_windows weekday_of av date ≡ some windows
    → All InDay (filter_map span windows)

-- Where the hours of a spot passed `validate`, every window that is open on a date lies in the day.
pub validate-DayHours :
    (is_date : Text → Bool) (weekday_of : Text → Option Weekday) (av : Availability)
    → validate is_date av ≡ true
    → DayHours weekday_of av
unfolding validate open_windows
validate-DayHours is_date weekday_of av h date windows o =
    validate_slots-InDay windows (elim (Option-cases (get date av.single)) [
      | inr (xs, e) ↦ ground (arith, single-InDay is_date av.single date xs)
      | inl e ↦ elim (Option-cases (weekday_of date)) [
        | inl x ↦ absurd (ground arith)
        | inr (day, x) ↦ ground (arith, weekly-InDay av day)
      ]
    ])
