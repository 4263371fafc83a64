-- ===== src/Booking/NoOverlap.antt =====
-- apps/services/booking-service: the bookings that hold a spot never overlap, whatever order the
-- handlers run in.
use our_driveway.Prelude.{
  ℕ, ◌≡◌, ◌≢◌, refl, subst, ap, true, Option, some, List, [], ◌∷◌, arith, if◌then◌else◌, Bool-cases,
  inl, inr, All, filter_map,
}
use our_driveway.Prelude.Int.{ℤ}
use our_driveway.Prelude.Text.{Text, text_eq, text_eq→eq}
use our_driveway.Prelude.Result.{ok}
use our_driveway.Shared.Slots.{TimeSlot, Booked, Availability, get}
use our_driveway.Shared.Bookings.{Booking}
use our_driveway.Booking.Availability.{Span, span, Weekday, busy_on, check}
use our_driveway.Booking.Availability.Spec.{ClearOf, Apart, Spans, Authorised}
use our_driveway.Booking.Availability.Request.{check_iff}
use our_driveway.Booking.Table.{find_booking, blocks, taken_for_spot}
use our_driveway.Booking.Table.Taken.{Clears-blocking}

-- On every date, whatever the one takes is apart from whatever the other takes.
abbrev pub Disjoint : Booked → Booked → Type 0
Disjoint m n = (date : Text) → All (ClearOf (busy_on m date)) (busy_on n date)

-- Two bookings that hold the same spot at `now` are disjoint.
abbrev pub NoOverlap : ℕ → List Booking → Type 0
NoOverlap now rows =
    (i j : ℕ) (a b : Booking)
    → i ≢ j
    → find_booking i rows ≡ some a
    → find_booking j rows ≡ some b
    → a.spot_id ≡ b.spot_id
    → blocks a.spot_id now a ≡ true
    → blocks b.spot_id now b ≡ true
    → Disjoint a.booked b.booked

Spans-filter_map :
    (slots : List TimeSlot) (ss : List Span) → Spans slots ss → filter_map span slots ≡ ss
Spans-filter_map [] [] h = refl
Spans-filter_map [] (s ∷ ss) h = absurd h
Spans-filter_map (x ∷ xs) [] h = absurd h
Spans-filter_map (x ∷ xs) (s ∷ ss) h =
    rw (h.0, filter_map) (ap (λ t. s ∷ t) (Spans-filter_map xs ss h.1))

busy_on-cons :
    (date d : Text) (slots : List TimeSlot) (rest : Booked)
    → busy_on ((d, slots) ∷ rest) date
      ≡ (if text_eq d date then filter_map span slots else busy_on rest date)
unfolding busy_on get
busy_on-cons date d slots rest = ground arith

-- What an authorised request takes on a date is clear of what was taken.
pub Authorised-ClearOf :
    (weekday_of : Text → Option Weekday) (av : Availability) (taken requested : Booked)
    (spans : List Span)
    → Authorised weekday_of av taken requested spans
    → (date : Text) → All (ClearOf (busy_on taken date)) (busy_on requested date)
Authorised-ClearOf weekday_of av taken [] spans h date = unfold busy_on get in tt
Authorised-ClearOf weekday_of av taken ((d, slots) ∷ rest) spans (w, ss, later, o, fits, h, e)
      date =
    elim (Bool-cases (text_eq d date)) [
      | inl t ↦
          rw (busy_on-cons date d slots rest, t, Spans-filter_map slots ss fits.spans)
            (subst (λ (x : Text). All (ClearOf (busy_on taken x)) ss) (text_eq→eq d date t)
              fits.clear)
      | inr t ↦
          rw (busy_on-cons date d slots rest, t)
            (Authorised-ClearOf weekday_of av taken rest later h date)
    ]

Apart-sym : (s t : Span) → Apart s t → Apart t s
Apart-sym s t h = ground arith

ClearOf-All : (s : Span) (xs : List Span) → ClearOf xs s → All (λ b. Apart s b) xs
ClearOf-All s [] h = tt
ClearOf-All s (x ∷ xs) h = (Apart-sym x s h.0, ClearOf-All s xs h.1)

Disjoint_nil : (ys : List Span) → All (ClearOf []) ys
Disjoint_nil [] = tt
Disjoint_nil (y ∷ ys) = (tt, Disjoint_nil ys)

clear_cons :
    (x : Span) (xs ys : List Span)
    → All (Apart x) ys
    → All (ClearOf xs) ys
    → All (ClearOf (x ∷ xs)) ys
clear_cons x xs [] h k = tt
clear_cons x xs (y ∷ ys) h k = ((h.0, k.0), clear_cons x xs ys h.1 k.1)

clear_sym : (xs ys : List Span) → All (ClearOf ys) xs → All (ClearOf xs) ys
clear_sym [] ys h = Disjoint_nil ys
clear_sym (x ∷ xs) ys h = clear_cons x xs ys (ClearOf-All x ys h.0) (clear_sym xs ys h.1)

pub Disjoint-sym : (m n : Booked) → Disjoint m n → Disjoint n m
Disjoint-sym m n h date = clear_sym (busy_on n date) (busy_on m date) (h date)

All-map : (P Q : Span → Type 0) (xs : List Span) → ((x : Span) → P x → Q x) → All P xs → All Q xs
All-map P Q [] f h = tt
All-map P Q (x ∷ xs) f h = (f x h.0, All-map P Q xs f h.1)

-- An authorised request is disjoint from each booking that blocks its spot.
pub check-Disjoint :
    (weekday_of : Text → Option Weekday) (av : Availability) (spot_id now : ℕ) (rows : List Booking)
    (requested : Booked) (m : ℤ) (k : ℕ) (b : Booking)
    → check weekday_of av (taken_for_spot spot_id now rows) requested ≡ ok m
    → find_booking k rows ≡ some b
    → blocks spot_id now b ≡ true
    → Disjoint b.booked requested
check-Disjoint weekday_of av spot_id now rows requested m k b c f h date =
    let (spans, a, _, _) =
      (check_iff weekday_of av (taken_for_spot spot_id now rows) requested m).0 c in
    All-map _ _ (busy_on requested date)
      (λ s clear. Clears-blocking s spot_id now date rows k b clear f h)
      (Authorised-ClearOf weekday_of av (taken_for_spot spot_id now rows) requested spans a date)
