-- ===== src/Booking/Availability.antt =====
-- apps/services/booking-service/src/policy/availability.rs: does a requested booking fit the open
-- hours and what is taken. `chrono`'s reading of a date is the argument `weekday_of`.
pub mod Spec
pub mod Request
pub mod Grid
pub mod Minutes
use our_driveway.Prelude.{
  ℕ, Bool, true, false, not, ◌&&◌, Option, none, some, List, [], ◌∷◌, ◌++◌, if◌then◌else◌, leb,
  ◌==◌, any, filter_map,
}
use our_driveway.Prelude.Int.{ℤ, pos, negsuc, sub_ℕ, ◌+ℤ◌, ◌-ℤ◌, ◌*ℤ◌, ltb_ℤ, leb_ℤ, i32, i64}
use our_driveway.Prelude.Text.{Text, split_once}
use our_driveway.Prelude.Result.{Result, ok, err}
use our_driveway.Shared.Slots.{TimeSlot, Booked, Availability, get, parse_digits, within}

-- `str::parse::<i32>()`
unfoldable pub parse_i32 : Text → Option ℤ
parse_i32 [] = none
parse_i32 (c ∷ s) =
    if c == b'-'
    then elim (within 2147483648 (parse_digits s)) [ none ↦ none | some n ↦ some (sub_ℕ 0 n) ]
    else if c == b'+'
    then elim (within 2147483647 (parse_digits s)) [ none ↦ none | some n ↦ some (pos n) ]
    else elim (within 2147483647 (parse_digits (c ∷ s))) [ none ↦ none | some n ↦ some (pos n) ]

-- "08:30" -> 510.
unfoldable pub to_min : Text → Option ℤ
to_min hhmm = elim (split_once b':' hhmm) [
  | none ↦ none
  | some (h, m) ↦ elim (parse_i32 h) [
    | none ↦ none
    | some hours ↦ elim (parse_i32 m) [
      | none ↦ none
      | some minutes ↦ some (i32 (i32 (hours *ℤ pos 60) +ℤ minutes))
    ]
  ]
]

-- Half-open `[start, end)`, in minutes.
abbrev pub Span : Type 0
Span = ℤ × ℤ

-- Zero-length and inverted slots are refused.
unfoldable pub span : TimeSlot → Option Span
span slot = elim (to_min slot.start) [
  | none ↦ none
  | some a ↦ elim (to_min slot.end) [
    | none ↦ none
    | some b ↦ if ltb_ℤ a b then some (a, b) else none
  ]
]

unfoldable pub overlaps : Span → Span → Bool
overlaps (a1, a2) (b1, b2) = ltb_ℤ a1 b2 && ltb_ℤ b1 a2

unfoldable pub contains : Span → Span → Bool
contains (o1, o2) (s1, s2) = leb_ℤ o1 s1 && leb_ℤ s2 o2

pub data Weekday : Type 0 where
  mon tue wed thu fri sat sun : Weekday

unfoldable pub weekly_windows : Availability → Weekday → List TimeSlot
weekly_windows av mon = av.weekly.monday
weekly_windows av tue = av.weekly.tuesday
weekly_windows av wed = av.weekly.wednesday
weekly_windows av thu = av.weekly.thursday
weekly_windows av fri = av.weekly.friday
weekly_windows av sat = av.weekly.saturday
weekly_windows av sun = av.weekly.sunday

pub data Rejection : Type 0 where
  closed : Text → TimeSlot → Rejection
  taken : Text → TimeSlot → Rejection
  malformed : Rejection

-- The inner loop: `accepted` and `minutes` are its variables.
unfoldable pub check_slots :
    List Span → List Span → Text → List Span → ℤ → List TimeSlot → Result Rejection ℤ
check_slots hours busy date accepted minutes [] = ok minutes
check_slots hours busy date accepted minutes (slot ∷ slots) = elim (span slot) [
  | none ↦ err malformed
  | some s ↦
      if not (any (λ o. contains o s) hours)
      then err (closed date slot)
      else if any (λ b. overlaps b s) (busy ++ accepted)
      then err (taken date slot)
      else check_slots hours busy date (accepted ++ s ∷ []) (i64 (minutes +ℤ i32 (s.1 -ℤ s.0)))
          slots
]

-- `busy`: the spans that are taken on a date; a slot that does not parse blocks nothing.
unfoldable pub busy_on : Booked → Text → List Span
busy_on booked date = elim (get date booked) [ none ↦ [] | some slots ↦ filter_map span slots ]

module _ (weekday_of : Text → Option Weekday) where
  -- A `single` entry overrides the weekday's hours, also when it is empty.
  unfoldable pub open_windows : Availability → Text → Option (List TimeSlot)
  open_windows av date = elim (get date av.single) [
    | some slots ↦ some slots
    | none ↦ elim (weekday_of date) [ none ↦ none | some day ↦ some (weekly_windows av day) ]
  ]

  -- The outer loop, over the dates of the request.
  unfoldable pub check_dates : Availability → Booked → ℤ → Booked → Result Rejection ℤ
  check_dates av booked minutes [] = ok minutes
  check_dates av booked minutes ((date, slots) ∷ rest) = elim (open_windows av date) [
    | none ↦ err malformed
    | some windows ↦
        elim (check_slots (filter_map span windows) (busy_on booked date) date [] minutes slots) [
          | err e ↦ err e
          | ok m ↦ check_dates av booked m rest
        ]
  ]

  -- The billable minutes of an authorised request.
  unfoldable pub check : Availability → Booked → Booked → Result Rejection ℤ
  check av booked requested = elim (check_dates av booked (pos 0) requested) [
    | err e ↦ err e
    | ok m ↦ if ltb_ℤ (pos 0) m then ok m else err malformed
  ]
