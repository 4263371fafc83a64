-- ===== src/Booking/Availability/Request.antt =====
-- The whole check of policy/availability.rs, date by date: what it accepts, and only that.
use mathlib.Core.List.{append-nil}
use our_driveway.Prelude.{
  ◌≡◌, refl, sym, ◌∙◌, ◌↔◌, inl, inr, Option, some, List, [], ◌∷◌, ◌++◌, arith, filter_map,
  Option-cases,
}
use our_driveway.Prelude.Int.{ℤ, pos, ◌<ℤ◌}
use our_driveway.Prelude.Text.{Text}
use our_driveway.Prelude.Result.{Result-cases, ok}
use our_driveway.Shared.Slots.{TimeSlot, Booked, Availability}
use our_driveway.Booking.Availability.{
  Span, span, Weekday, busy_on, open_windows, check_slots, check_dates, check,
}
use our_driveway.Booking.Availability.Spec.{
  billed, add_minutes, DayFits, Authorised, Loop, check_slots_sound, check_slots_complete,
}

billed-append : (m : ℤ) (xs ys : List Span) → billed m (xs ++ ys) ≡ billed (billed m xs) ys
billed-append m [] ys = refl
billed-append m (x ∷ xs) ys = billed-append (add_minutes m x) xs ys

DayFits-of-Loop :
    (hours busy : List Span) (slots : List TimeSlot) (ss : List Span)
    → Loop hours busy [] slots ss ↔ DayFits hours busy slots ss
DayFits-of-Loop hours busy slots ss = rw append-nil (
  (λ h. record { spans = h.0; inside = h.1; clear = h.2; apart = h.3 }),
  (λ d. (d.spans, d.inside, d.clear, d.apart)),
)

module _ (weekday_of : Text → Option Weekday) (av : Availability) (booked : Booked) where
  check_dates-cons :
      (m : ℤ) (date : Text) (slots : List TimeSlot) (rest : Booked) (windows : List TimeSlot)
      (m' : ℤ)
      → open_windows weekday_of av date ≡ some windows
      → check_slots (filter_map span windows) (busy_on booked date) date [] m slots ≡ ok m'
      → check_dates weekday_of av booked m ((date, slots) ∷ rest)
        ≡ check_dates weekday_of av booked m' rest
  unfolding check_dates
  check_dates-cons m date slots rest windows m' o c = ground arith

  -- A date that the loop survives is open, and its slots pass.
  check_dates_inv :
      (m : ℤ) (date : Text) (slots : List TimeSlot) (rest : Booked) (r : ℤ)
      → check_dates weekday_of av booked m ((date, slots) ∷ rest) ≡ ok r
      → (windows : List TimeSlot) × (m' : ℤ) × (open_windows weekday_of av date ≡ some windows)
        × (check_slots (filter_map span windows) (busy_on booked date) date [] m slots ≡ ok m')
  unfolding check_dates
  check_dates_inv m date slots rest r h = elim (Option-cases (open_windows weekday_of av date)) [
    | inl e ↦ absurd (ground arith)
    | inr (w, e) ↦
        elim (Result-cases
          (check_slots (filter_map span w) (busy_on booked date) date [] m slots)) [
            | inl (m', c) ↦ (w, m', e, c)
            | inr (x, c) ↦ absurd (ground arith)
          ]
  ]

  check_dates_sound :
      (m : ℤ) (requested : Booked) (r : ℤ)
      → check_dates weekday_of av booked m requested ≡ ok r
      → (spans : List Span) × Authorised weekday_of av booked requested spans × (r ≡ billed m spans)
  check_dates_sound m [] r h = ([], refl, unfold check_dates in (cc))
  check_dates_sound m ((date, slots) ∷ rest) r h =
      let (w, m', o, c) = check_dates_inv m date slots rest r h in
      let (ss, l, b) =
        check_slots_sound (filter_map span w) (busy_on booked date) date [] m slots m' c in
      let (later, a, e) =
        check_dates_sound m' rest r (sym (check_dates-cons m date slots rest w m' o c) ∙ h) in
      (
        ss ++ later,
        (w, ss, later, o, (DayFits-of-Loop _ _ slots ss).0 l, a, refl),
        cc (e, b, billed-append m ss later),
      )

  check_dates_complete :
      (m : ℤ) (requested : Booked) (spans : List Span)
      → Authorised weekday_of av booked requested spans
      → check_dates weekday_of av booked m requested ≡ ok (billed m spans)
  check_dates_complete m [] spans a = rw a (unfold check_dates in refl)
  check_dates_complete m ((date, slots) ∷ rest) spans (w, ss, later, o, d, a, e) = rw e (
      rw (billed-append m ss later) (
        check_dates-cons m date slots rest w (billed m ss) o
          (check_slots_complete _ _ date [] m slots ss ((DayFits-of-Loop _ _ slots ss).1 d))
        ∙ check_dates_complete (billed m ss) rest later a))

  -- `check` answers `m` minutes exactly when every date of the request is open, its slots parse,
  -- lie in the open hours, clear of what is booked and of one another, and last `m` minutes in the
  -- machine's arithmetic, with `m` positive.
  pub check_iff :
      (requested : Booked) (m : ℤ)
      → (check weekday_of av booked requested ≡ ok m) ↔ (
          (spans : List Span) × Authorised weekday_of av booked requested spans
          × (billed (pos 0) spans ≡ m)
          × (pos 0 <ℤ m))
  unfolding check
  check_iff requested m = (
    (λ h. elim (Result-cases (check_dates weekday_of av booked (pos 0) requested)) [
      | inl (r, c) ↦
          let (spans, a, b) = check_dates_sound (pos 0) requested r c in
          (spans, a, ground arith, ground arith)
      | inr (x, c) ↦ absurd (ground arith)
    ]),
    (λ (spans, a, b, p). let c = check_dates_complete (pos 0) requested spans a in ground arith),
  )
