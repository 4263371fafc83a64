-- ===== src/Booking/Tests.antt =====
-- apps/services/booking-service/src: the theorems on the availability check and on the service, on one
-- spot with one opening window.
use mathlib.Core.Option
use our_driveway.Prelude.{
  ℕ, ◌+◌, ◌≡◌, ◌↔◌, refl, true, false, List, [], ◌∷◌, some, Option, inl, inr, arith, length,
}
use our_driveway.Prelude.Int.{pos, ◌<ℤ◌, wrap, ◌+ℤ◌, ◌*ℤ◌, ◌-ℤ◌, quot_ℤ}
use our_driveway.Prelude.Text.{Text, codes}
use our_driveway.Prelude.Result.{ok, committed}
use our_driveway.Shared.Slots.{
  get, within, parse_digits, digits_from, validate_week, validate_slots, ordered, check_time,
  parse_u32, pairwise_clear, clear_of_all, validate_single, TimeSlot, Booked, Availability,
  validate,
}
use our_driveway.Shared.Bookings.{Booking, created_row}
use our_driveway.Shared.Spots.{SpotEvent, bookable}
use our_driveway.Bus.Outbox.{enqueue}
use our_driveway.Booking.Availability.{
  Weekday, mon, Span, check, check_dates, open_windows, check_slots, span, to_min, parse_i32,
  weekly_windows, contains, busy_on, overlaps,
}
use our_driveway.Booking.Availability.Spec.{Authorised, billed}
use our_driveway.Booking.Availability.Request.{check_iff}
use our_driveway.Booking.Availability.Minutes.{total, check-minutes_exact}
use our_driveway.Booking.Availability.Grid.{DayHours, validate-DayHours}
use our_driveway.Booking.Schedule.{instant, Calendar, ends_at, wall_times, day_times, greatest}
use our_driveway.Booking.Table.{
  upsert, find_spot, find_spot_row, union_of, extend_all, extend_date, put_row, Db, Stamp, SpotRow,
  find_booking, blocks, taken_for_spot,
}
use our_driveway.Booking.Service.{CreateBookingRequest, Clock, create_booking}
use our_driveway.Booking.Service.Create.{existing_or_new, authorise_new, reserve, amount_of, reject}
use our_driveway.Booking.Outcome.Creation.{Creation, create_booking-Creation}
use our_driveway.Booking.Outcome.Reaction.{Reacted, apply_spot-Reacted}
use our_driveway.Booking.Reactor.{apply_spot}
use our_driveway.Booking.NoOverlap.{NoOverlap}
use our_driveway.Booking.System.{Call, creates, releases, run_call, System, here, next, runs}
use our_driveway.Booking.System.Effects.{Effect, run_call-Effect}
use our_driveway.Booking.System.Overlap.{Reach-NoOverlap}
use our_driveway.Booking.System.Numbered.{stored}
use our_driveway.Booking.System.Log.{Orderly}
use our_driveway.Booking.System.Whole.{Admissible, Reach-Orderly}

abbrev slot : TimeSlot
slot = record { start = codes "09:00"; end = codes "11:00" }

abbrev hours : TimeSlot
hours = record { start = codes "08:00"; end = codes "18:00" }

abbrev open_hours : Availability
open_hours = record {
  weekly = record {
    monday = hours ∷ [];
    tuesday = [];
    wednesday = [];
    thursday = [];
    friday = [];
    saturday = [];
    sunday = [];
  };
  single = [];
}

-- Every day is a Monday, and every wall time is the same instant.
abbrev mondays : Text → Option Weekday
mondays date = some mon

abbrev calendar : Calendar
calendar = record {
  weekday_of = mondays;
  local = λ time. some 500;
  zone = λ name. some (λ time. some time);
}

abbrev on_date : Booked
on_date = (codes "2025-01-06", slot ∷ []) ∷ []

abbrev spot : SpotRow
spot = record {
  mirror = record {
    id = 9;
    host_id = some 1;
    price_per_hour = some (pos 300);
    availability = some open_hours;
    timezone = some (codes "Europe/Brussels");
    active = true;
    deleted = false;
  };
  version = pos 1;
}

abbrev empty_db : Db
empty_db = record { bookings = []; spots = spot ∷ []; outbox = [] }

abbrev stamps : ℕ → ℕ → Stamp
stamps base n = record { event_id = base + n; occurred_at = 100; created_at = 100 }

abbrev clock : Clock
clock = record { read_at = 100; hold_at = 101; write_at = 102 }

abbrev request : CreateBookingRequest
request = record { spot_id = 9; booked = on_date; license_plate = codes "1-ABC-123" }

-- Two renters want the same hours.
abbrev one_call : Call
one_call = creates 2 request 70 (stamps 0) clock

abbrev rival_call : Call
rival_call = creates 3 request 71 (stamps 10) clock

abbrev start_system : System
start_system = record { db = empty_db; sent = [] }

abbrev one_db : Db
one_db = run_call calendar one_call empty_db

-- The first of them is answered, and the second finds the hours taken.
two_renters : length (run_call calendar rival_call one_db).bookings ≡ 1
unfolding run_call create_booking find_spot find_spot_row existing_or_new find_booking authorise_new
    bookable taken_for_spot union_of blocks extend_all extend_date ends_at wall_times day_times
    greatest reserve amount_of quot_ℤ put_row upsert created_row enqueue reject check check_dates
    open_windows get check_slots span to_min parse_i32 within parse_digits digits_from wrap ◌+ℤ◌
    ◌*ℤ◌ ◌-ℤ◌ weekly_windows contains busy_on overlaps Option.bind instant
two_renters = refl

abbrev Anything : Call → Db → Type 0
Anything c db = Unit {0}

empty-NoOverlap : NoOverlap 1000 empty_db.bookings
unfolding find_booking
empty-NoOverlap i j a b ne p q spot u v = absurd (cc)

Reach-NoOverlap_example : NoOverlap 1000 (run_call calendar rival_call one_db).bookings
Reach-NoOverlap_example =
    Reach-NoOverlap calendar 1000 Anything start_system
      (record { db = run_call calendar rival_call one_db; sent = [] })
      (next (next here (runs start_system one_call (omega arith) tt))
        (runs (record { db = one_db; sent = [] }) rival_call (omega arith) tt))
      empty-NoOverlap

none_found : (k : ℕ) (b : Booking) → find_booking k [] ≡ some b → ⊥
unfolding find_booking
none_found k b e = cc

nothing_stored : (k : ℕ) → stored k [] ≡ 0
unfolding find_booking
nothing_stored k = refl

start-Orderly : Orderly [] empty_db
start-Orderly = record {
  numbered = record {
    signed = λ k b e. absurd (none_found k b e);
    sound = λ p. elim [ inl h ↦ absurd h | inr h ↦ absurd h ];
    complete = λ k n l. absurd (omega (arith, nothing_stored k));
    unique = λ p q. elim [ inl h ↦ absurd h | inr h ↦ absurd h ];
  };
  distinct = λ x y h. absurd h;
}

one-Admissible : Admissible one_call empty_db
one-Admissible = record {
  fresh = record { unused = λ n. refl; distinct = λ m n ne. ground arith };
  room = λ k. omega (arith, nothing_stored k);
}

Reach-Orderly_example : Orderly [] one_db
Reach-Orderly_example =
    Reach-Orderly calendar 1000 start_system (record { db = one_db; sent = [] })
      (next here (runs start_system one_call (omega arith) one-Admissible)) start-Orderly

-- The renter lets go of the hold.
abbrev release_call : Call
release_call = releases one_db (stamps 30) 2 70

run_call-Effect_example :
    Effect calendar release_call one_db (run_call calendar release_call one_db)
run_call-Effect_example = run_call-Effect calendar release_call one_db

create_booking-Creation_example :
    Creation calendar 2 request 70
      (stamps 0 0)
      clock
      empty_db
      (committed (create_booking calendar 2 request 70 (stamps 0 0) clock) empty_db)
create_booking-Creation_example =
    create_booking-Creation calendar 2 request 70 (stamps 0 0) clock empty_db

apply_spot-Reacted_example :
    (db' : Db) × (apply_spot calendar (stamps 20) (SpotEvent.deleted 9) 200 (pos 2) one_db
      ≡ ok (tt, db'))
    × Reacted calendar (stamps 20) (SpotEvent.deleted 9) 200 (pos 2) one_db db'
apply_spot-Reacted_example =
    apply_spot-Reacted calendar (stamps 20) (SpotEvent.deleted 9) 200 (pos 2) one_db

open_valid : validate (λ date. true) open_hours ≡ true
unfolding validate validate_week validate_slots ordered check_time parse_u32 within parse_digits
    digits_from pairwise_clear clear_of_all validate_single
open_valid = refl

validate-DayHours_example : DayHours mondays open_hours
validate-DayHours_example = validate-DayHours (λ date. true) mondays open_hours open_valid

two_hours : check mondays open_hours [] on_date ≡ ok (pos 120)
unfolding check check_dates open_windows get check_slots span to_min parse_i32 within parse_digits
    digits_from wrap ◌+ℤ◌ ◌*ℤ◌ ◌-ℤ◌ weekly_windows contains busy_on overlaps
two_hours = refl

check_iff_example : (check mondays open_hours [] on_date ≡ ok (pos 120)) ↔ (
    (spans : List Span) × Authorised mondays open_hours [] on_date spans
    × (billed (pos 0) spans ≡ pos 120)
    × (pos 0 <ℤ pos 120))
check_iff_example = check_iff mondays open_hours [] on_date (pos 120)

check-minutes_exact_example :
    (spans : List Span) × Authorised mondays open_hours [] on_date spans × (pos 120 ≡ total spans)
check-minutes_exact_example =
    check-minutes_exact mondays open_hours [] (λ date. true) on_date (pos 120) open_valid
      (omega arith) two_hours
