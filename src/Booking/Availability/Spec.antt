-- ===== src/Booking/Availability/Spec.antt =====
-- What the availability check of policy/availability.rs promises, in orders on minutes.
use our_driveway.Prelude.{
  ◌≡◌, refl, ap, sym, ◌∙◌, ◌↔◌, ◌⊎◌, inl, inr, true, false, Option, some, List, [], ◌∷◌, ◌++◌,
  arith, any, filter_map, All, Any, Option-cases,
}
use our_driveway.Prelude.Int.{ℤ, ◌+ℤ◌, ◌-ℤ◌, ◌≤ℤ◌, i32, i64}
use our_driveway.Prelude.Text.{Text}
use our_driveway.Prelude.Result.{ok}
use our_driveway.Shared.Slots.{TimeSlot, Booked, Availability}
use our_driveway.Booking.Availability.{
  Span, span, overlaps, contains, Weekday, busy_on, open_windows, check_slots,
}

-- The window `o` covers `s`.
abbrev pub Covers : Span → Span → Type 0
Covers o s = (o.0 ≤ℤ s.0) × (s.1 ≤ℤ o.1)

-- One ends before the other begins; to touch is no overlap.
abbrev pub Apart : Span → Span → Type 0
Apart s t = (s.1 ≤ℤ t.0) ⊎ (t.1 ≤ℤ s.0)

abbrev pub Inside : List Span → Span → Type 0
Inside hours s = Any (λ o. Covers o s) hours

abbrev pub ClearOf : List Span → Span → Type 0
ClearOf busy s = All (λ b. Apart b s) busy

abbrev pub PairwiseApart : List Span → Type 0
PairwiseApart [] = Unit
PairwiseApart (s ∷ ss) = All (Apart s) ss × PairwiseApart ss

-- `ss` are the spans of the slots, one by one.
abbrev pub Spans : List TimeSlot → List Span → Type 0
Spans [] [] = Unit
Spans (x ∷ xs) (s ∷ ss) = (span x ≡ some s) × Spans xs ss
Spans _ _ = ⊥

-- `minutes += (s.1 - s.0) as i64`
abbrev pub add_minutes : ℤ → Span → ℤ
add_minutes m s = i64 (m +ℤ i32 (s.1 -ℤ s.0))

-- The minutes of the spans on top of `m`, in the machine's arithmetic.
abbrev pub billed : ℤ → List Span → ℤ
billed m [] = m
billed m (s ∷ ss) = billed (add_minutes m s) ss

-- The spans of one date's slots fit its hours, what is busy, and one another.
pub record DayFits (hours busy : List Span) (slots : List TimeSlot) (ss : List Span) : Type 0 where
  pub spans : Spans slots ss
  pub inside : All (Inside hours) ss
  pub clear : All (ClearOf busy) ss
  pub apart : PairwiseApart ss

contains_iff : (o s : Span) → (contains o s ≡ true) ↔ Covers o s
unfolding contains
contains_iff (a, b) (c, d) = ground arith

overlaps_iff : (o s : Span) → (overlaps o s ≡ false) ↔ Apart o s
unfolding overlaps
overlaps_iff (a, b) (c, d) = ground arith

any-contains :
    (hours : List Span) (s : Span) → (any (λ o. contains o s) hours ≡ true) ↔ Inside hours s
any-contains [] s = ((λ h. cc), (λ h. absurd h))
any-contains (o ∷ hours) s = ground (arith, contains_iff o s, any-contains hours s)

any-overlaps :
    (busy : List Span) (s : Span) → (any (λ b. overlaps b s) busy ≡ false) ↔ ClearOf busy s
any-overlaps [] s = ((λ h. tt), (λ h. refl))
any-overlaps (b ∷ busy) s = ground (arith, overlaps_iff b s, any-overlaps busy s)

pub ClearOf-append :
    (xs ys : List Span) (s : Span) → ClearOf (xs ++ ys) s ↔ (ClearOf xs s × ClearOf ys s)
ClearOf-append [] ys s = ((λ h. (tt, h)), (λ h. h.1))
ClearOf-append (x ∷ xs) ys s = ground (arith, ClearOf-append xs ys s)

-- To accept one more span is to keep the later ones apart from it.
clear_accept :
    (busy accepted : List Span) (s : Span) (ss : List Span)
    → All (ClearOf (busy ++ (accepted ++ s ∷ []))) ss
      ↔ (All (ClearOf (busy ++ accepted)) ss × All (Apart s) ss)
clear_accept busy accepted s [] = ((λ h. (tt, tt)), (λ h. tt))
clear_accept busy accepted s (t ∷ ss) = ground (
  arith,
  clear_accept busy accepted s ss,
  ClearOf-append busy (accepted ++ s ∷ []) t,
  ClearOf-append accepted (s ∷ []) t,
  ClearOf-append busy accepted t,
)

-- What the inner loop promises with `accepted` spans already taken.
abbrev pub Loop : List Span → List Span → List Span → List TimeSlot → List Span → Type 0
Loop hours busy accepted slots ss =
    Spans slots ss × All (Inside hours) ss × All (ClearOf (busy ++ accepted)) ss × PairwiseApart ss

-- A round of the inner loop that does not refuse.
check_slots-cons :
    (hours busy : List Span) (date : Text) (accepted : List Span) (m : ℤ) (slot : TimeSlot)
    (slots : List TimeSlot) (s : Span)
    → span slot ≡ some s
    → Inside hours s
    → ClearOf (busy ++ accepted) s
    → check_slots hours busy date accepted m (slot ∷ slots)
      ≡ check_slots hours busy date (accepted ++ s ∷ []) (add_minutes m s) slots
unfolding check_slots
check_slots-cons hours busy date accepted m slot slots s e i c =
    ground (arith, (any-contains hours s).1 i, (any-overlaps (busy ++ accepted) s).1 c)

-- A round that the loop survives has a span, inside the hours and clear.
check_slots_inv :
    (hours busy : List Span) (date : Text) (accepted : List Span) (m : ℤ) (slot : TimeSlot)
    (slots : List TimeSlot) (r : ℤ)
    → check_slots hours busy date accepted m (slot ∷ slots) ≡ ok r
    → (s : Span) × (span slot ≡ some s) × Inside hours s × ClearOf (busy ++ accepted) s
unfolding check_slots
check_slots_inv hours busy date accepted m slot slots r h = elim (Option-cases (span slot)) [
  | inl e ↦ absurd (ground arith)
  | inr (s, e) ↦ (
    s,
    e,
    (any-contains hours s).0 (ground arith),
    (any-overlaps (busy ++ accepted) s).0 (ground arith),
  )
]

pub check_slots_sound :
    (hours busy : List Span) (date : Text) (accepted : List Span) (m : ℤ) (slots : List TimeSlot)
    (r : ℤ)
    → check_slots hours busy date accepted m slots ≡ ok r
    → (ss : List Span) × Loop hours busy accepted slots ss × (r ≡ billed m ss)
check_slots_sound hours busy date accepted m [] r h =
    ([], (tt, tt, tt, tt), unfold check_slots in (cc))
check_slots_sound hours busy date accepted m (slot ∷ slots) r h =
    let (s, e, i, c) = check_slots_inv hours busy date accepted m slot slots r h in
    let (ss, (sp, ins, cl, ap), b) =
      check_slots_sound hours busy date (accepted ++ s ∷ []) (add_minutes m s) slots r
        (sym (check_slots-cons hours busy date accepted m slot slots s e i c) ∙ h) in
    let k = (clear_accept busy accepted s ss).0 cl in
    (s ∷ ss, ((e, sp), (i, ins), (c, k.0), (k.1, ap)), b)

pub check_slots_complete :
    (hours busy : List Span) (date : Text) (accepted : List Span) (m : ℤ) (slots : List TimeSlot)
    (ss : List Span)
    → Loop hours busy accepted slots ss
    → check_slots hours busy date accepted m slots ≡ ok (billed m ss)
check_slots_complete hours busy date accepted m [] [] h = unfold check_slots in refl
check_slots_complete hours busy date accepted m [] (s ∷ ss) h = absurd h.0
check_slots_complete hours busy date accepted m (slot ∷ slots) [] h = absurd h.0
check_slots_complete hours busy date accepted m (slot ∷ slots) (s ∷ ss)
      ((e, sp), (i, ins), (c, cl), (a, ap)) =
    check_slots-cons hours busy date accepted m slot slots s e i c
    ∙ check_slots_complete hours busy date (accepted ++ s ∷ []) (add_minutes m s) slots ss
        (sp, ins, (clear_accept busy accepted s ss).1 (cl, a), ap)

-- The spans of a whole request, date by date: each date is open, and its slots fit.
abbrev pub Authorised :
    (Text → Option Weekday) → Availability → Booked → Booked → List Span → Type 0
Authorised weekday_of av booked [] spans = spans ≡ []
Authorised weekday_of av booked ((date, slots) ∷ rest) spans =
    (windows : List TimeSlot) × (ss later : List Span) × (open_windows weekday_of av date
      ≡ some windows)
    × DayFits (filter_map span windows) (busy_on booked date) slots ss
    × Authorised weekday_of av booked rest later
    × (spans ≡ ss ++ later)
