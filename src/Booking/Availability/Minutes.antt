-- ===== src/Booking/Availability/Minutes.antt =====
-- The billable minutes of policy/availability.rs are exact: on hours that lie within a day, the
-- machine's arithmetic does not wrap around.
use our_driveway.Prelude.{
  ℕ, suc, Bool, true, ap, ◌+◌, ◌*◌, ◌<◌, ◌≡◌, refl, sym, ◌∙◌, inl, inr, Option, some, List, [], ◌∷◌,
  arith, length, length-append, All-append, All,
}
use our_driveway.Prelude.Int.{
  ℤ, pos, ◌+ℤ◌, ◌-ℤ◌, ◌≤ℤ◌, ◌<ℤ◌, i32_fits, i64_fits, +ℤ_parts, -ℤ_parts, parts_or, int_laws,
  half_i64, i32,
}
use our_driveway.Prelude.Text.{Text}
use our_driveway.Prelude.Result.{ok}
use our_driveway.Shared.Slots.{TimeSlot, Booked, Availability, validate}
use our_driveway.Booking.Availability.{Span, span, Weekday, check}
use our_driveway.Booking.Availability.Spec.{Spans, Inside, Authorised, billed, add_minutes}
use our_driveway.Booking.Availability.Grid.{InDay, DayHours, validate-DayHours}
use our_driveway.Booking.Availability.Request.{check_iff}

abbrev pub Forward : Span → Type 0
Forward s = s.0 <ℤ s.1

-- The sum of the lengths, as integers.
abbrev pub total : List Span → ℤ
total [] = pos 0
total (s ∷ ss) = (s.1 -ℤ s.0) +ℤ total ss

pub span-Forward : (slot : TimeSlot) (s : Span) → span slot ≡ some s → Forward s
unfolding span
span-Forward slot s h = ground arith

Spans-Forward : (slots : List TimeSlot) (ss : List Span) → Spans slots ss → All Forward ss
Spans-Forward [] [] h = tt
Spans-Forward [] (s ∷ ss) h = absurd h
Spans-Forward (x ∷ xs) [] h = absurd h
Spans-Forward (x ∷ xs) (s ∷ ss) (e, h) = (span-Forward x s e, Spans-Forward xs ss h)

Inside-InDay : (hours : List Span) (s : Span) → All InDay hours → Inside hours s → InDay s
Inside-InDay [] s d i = absurd i
Inside-InDay (o ∷ hours) s d (inl c) = omega arith
Inside-InDay (o ∷ hours) s d (inr i) = Inside-InDay hours s d.1 i

All-Inside-InDay : (hours ss : List Span) → All InDay hours → All (Inside hours) ss → All InDay ss
All-Inside-InDay hours [] d i = tt
All-Inside-InDay hours (s ∷ ss) d i = (Inside-InDay hours s d i.0, All-Inside-InDay hours ss d i.1)

length_fits : (s : Span) → InDay s → Forward s → i32 (s.1 -ℤ s.0) ≡ s.1 -ℤ s.0
length_fits s d f = i32_fits (s.1 -ℤ s.0) (omega (arith, -ℤ_parts s.1 s.0, parts_or (s.1 -ℤ s.0)))

add_minutes_exact :
    (m : ℤ) (s : Span)
    → InDay s
    → Forward s
    → pos 0 ≤ℤ m
    → m +ℤ pos 1440 <ℤ pos half_i64
    → add_minutes m s ≡ m +ℤ (s.1 -ℤ s.0)
add_minutes_exact m s d f n h = rw (length_fits s d f) (
    i64_fits (m +ℤ (s.1 -ℤ s.0)) (
      omega (
        arith,
        +ℤ_parts m (pos 1440),
        +ℤ_parts m (s.1 -ℤ s.0),
        -ℤ_parts s.1 s.0,
        parts_or (m +ℤ (s.1 -ℤ s.0)),
      )))

-- With room for a day's minutes for each span, the total is the plain sum.
billed_exact :
    (m : ℤ) (ss : List Span)
    → All InDay ss
    → All Forward ss
    → pos 0 ≤ℤ m
    → m +ℤ pos (1440 * length ss) <ℤ pos half_i64
    → billed m ss ≡ m +ℤ total ss
billed_exact m [] d f n h = omega (int_laws)
billed_exact m (s ∷ ss) d f n h =
    let e =
      add_minutes_exact m s d.0 f.0 n
        (omega (arith, +ℤ_parts m (pos 1440), +ℤ_parts m (pos (1440 * length (s ∷ ss))))) in
    let r =
      billed_exact (m +ℤ (s.1 -ℤ s.0)) ss d.1 f.1
        (omega (arith, +ℤ_parts m (s.1 -ℤ s.0), -ℤ_parts s.1 s.0))
        (omega (
          arith,
          +ℤ_parts m (pos (1440 * length (s ∷ ss))),
          +ℤ_parts (m +ℤ (s.1 -ℤ s.0)) (pos (1440 * length ss)),
          +ℤ_parts m (s.1 -ℤ s.0),
          -ℤ_parts s.1 s.0,
        )) in
    rw e (r ∙ omega int_laws)

Spans-length : (slots : List TimeSlot) (ss : List Span) → Spans slots ss → length ss ≡ length slots
Spans-length [] [] h = refl
Spans-length [] (s ∷ ss) h = absurd h
Spans-length (x ∷ xs) [] h = absurd h
Spans-length (x ∷ xs) (s ∷ ss) (e, h) = ap suc (Spans-length xs ss h)

-- The slots of a request, over all its dates.
abbrev pub slot_count : Booked → ℕ
slot_count [] = 0
slot_count ((date, slots) ∷ rest) = length slots + slot_count rest

module _ (weekday_of : Text → Option Weekday) (av : Availability) (booked : Booked) where
  Authorised-InDay :
      (requested : Booked) (spans : List Span)
      → DayHours weekday_of av
      → Authorised weekday_of av booked requested spans
      → All InDay spans × All Forward spans × (length spans ≡ slot_count requested)
  Authorised-InDay [] spans hours a = rw a (tt, tt, refl)
  Authorised-InDay ((date, slots) ∷ rest) spans hours (w, ss, later, o, d, a, e) =
      let (i, f, n) = Authorised-InDay rest later hours a in
      rw e (
        All-append _ ss later (All-Inside-InDay _ ss (hours date w o) d.inside) i,
        All-append _ ss later (Spans-Forward slots ss d.spans) f,
        omega (arith, length-append ss later, Spans-length slots ss d.spans),
      )

  -- Where the spot's hours passed `validate`, and the request has fewer than 2^52 slots, the
  -- minutes that `check` answers are the exact sum of the lengths of authorised spans.
  pub check-minutes_exact :
      (is_date : Text → Bool) (requested : Booked) (m : ℤ)
      → validate is_date av ≡ true
      → slot_count requested < 4503599627370496
      → check weekday_of av booked requested ≡ ok m
      → (spans : List Span) × Authorised weekday_of av booked requested spans × (m ≡ total spans)
  check-minutes_exact is_date requested m valid few h =
      let (spans, a, b, p) = (check_iff weekday_of av booked requested m).0 h in
      let (d, f, n) =
        Authorised-InDay requested spans (validate-DayHours is_date weekday_of av valid) a in
      (
        spans,
        a,
        sym b
            ∙ billed_exact (pos 0) spans d f (omega arith)
                (omega (arith, +ℤ_parts (pos 0) (pos (1440 * length spans))))
            ∙ omega int_laws,
      )
