-- ===== src/Shared/Slots.antt =====
-- shared/src/general_models/spot.rs and booking.rs: the slot grid, and the rules it is held to.
-- `HashMap<String, Vec<TimeSlot>>` is a list of its entries, in the order in which the map is walked.

use our_driveway.Prelude.{
  ℕ, ◌+◌, ◌-◌, ◌*◌, ◌%◌, Bool, true, false, not, ◌&&◌, Option, none, some, List, [], ◌∷◌, ltb, leb,
  ◌==◌, if◌then◌else◌, length,
}
use our_driveway.Prelude.Text.{Text, text_eq, text_lt, split_once}

pub record TimeSlot : Type 0 where
  pub start : Text
  pub end : Text

-- `"YYYY-MM-DD"` -> slots.
abbrev pub Booked : Type 0
Booked = List (Text × List TimeSlot)

pub record WeeklyAvailability : Type 0 where
  pub monday : List TimeSlot
  pub tuesday : List TimeSlot
  pub wednesday : List TimeSlot
  pub thursday : List TimeSlot
  pub friday : List TimeSlot
  pub saturday : List TimeSlot
  pub sunday : List TimeSlot

pub record Availability : Type 0 where
  pub weekly : WeeklyAvailability
  pub single : Booked

-- `HashMap::get`
unfoldable pub get : Text → Booked → Option (List TimeSlot)
get date [] = none
get date ((d, slots) ∷ rest) = if text_eq d date then some slots else get date rest

-- The digits of a decimal, with the value read so far.
unfoldable pub digits_from : ℕ → Text → Option ℕ
digits_from acc [] = some acc
digits_from acc (c ∷ s) =
    if leb b'0' c && leb c b'9' then digits_from (acc * 10 + (c - b'0')) s else none

-- At least one digit.
unfoldable pub parse_digits : Text → Option ℕ
parse_digits [] = none
parse_digits (c ∷ s) = digits_from 0 (c ∷ s)

-- A value within a bound, as `parse` refuses an overflow.
unfoldable pub within : ℕ → Option ℕ → Option ℕ
within bound none = none
within bound (some n) = if leb n bound then some n else none

-- `str::parse::<u32>()`: a leading `+` is taken, a `-` is not.
unfoldable pub parse_u32 : Text → Option ℕ
parse_u32 [] = none
parse_u32 (c ∷ s) =
    if c == b'+'
    then within 4294967295 (parse_digits s)
    else within 4294967295 (parse_digits (c ∷ s))

-- `HH:MM`, 00-23 hours, 00-59 minutes, minutes a multiple of 30.
unfoldable pub check_time : Text → Bool
check_time value = elim (split_once b':' value) [
  | none ↦ false
  | some (h, m) ↦ elim (parse_u32 h) [
    | none ↦ false
    | some hour ↦ elim (parse_u32 m) [
      | none ↦ false
      | some min ↦ length h == 2 && length m == 2 && ltb hour 24 && ltb min 60 && (min % 30) == 0
    ]
  ]
]

-- The first loop of `validate_slots`.
unfoldable pub ordered : List TimeSlot → Bool
ordered [] = true
ordered (s ∷ slots) =
    check_time s.start && check_time s.end && text_lt s.start s.end && ordered slots

-- The test of the inner loop on a pair of slots.
unfoldable pub clear_of : TimeSlot → TimeSlot → Bool
clear_of a b =
    not (text_eq a.start b.start && text_eq a.end b.end)
    && not (text_lt a.start b.end && text_lt b.start a.end)

unfoldable pub clear_of_all : TimeSlot → List TimeSlot → Bool
clear_of_all a [] = true
clear_of_all a (b ∷ slots) = clear_of a b && clear_of_all a slots

-- The second loop of `validate_slots`.
unfoldable pub pairwise_clear : List TimeSlot → Bool
pairwise_clear [] = true
pairwise_clear (a ∷ slots) = clear_of_all a slots && pairwise_clear slots

unfoldable pub validate_slots : List TimeSlot → Bool
validate_slots slots = ordered slots && pairwise_clear slots

-- The slots of every weekday, and of every one-off date, pass. (`parse_date` on the keys of
-- `single` is `chrono`'s.)
unfoldable pub validate_week : WeeklyAvailability → Bool
validate_week w =
    validate_slots w.monday
    && validate_slots w.tuesday
    && validate_slots w.wednesday
    && validate_slots w.thursday
    && validate_slots w.friday
    && validate_slots w.saturday
    && validate_slots w.sunday

module _ (is_date : Text → Bool) where
  unfoldable pub validate_single : Booked → Bool
  validate_single [] = true
  validate_single ((date, slots) ∷ rest) =
      is_date date && validate_slots slots && validate_single rest

  unfoldable pub validate : Availability → Bool
  validate av = validate_week av.weekly && validate_single av.single
