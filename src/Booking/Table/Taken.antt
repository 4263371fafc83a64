-- ===== src/Booking/Table/Taken.antt =====
-- What `taken_for_spot` collects: whoever is clear of it is clear of every booking that blocks.
use mathlib.Core.List.{append-nil}
use our_driveway.Prelude.{
  ℕ, ◌==◌, ◌≡◌, refl, sym, subst, Bool, true, Option, none, some, List, [], ◌∷◌, ◌++◌, arith,
  if◌then◌else◌, Bool-cases, Option-cases, inl, inr, keep, filter_map, All,
}
use our_driveway.Prelude.Text.{Text, text_eq, text_eq→eq, text_eq_refl}
use our_driveway.Shared.Slots.{TimeSlot, Booked, get}
use our_driveway.Shared.Bookings.{Booking}
use our_driveway.Booking.Availability.{Span, span, busy_on}
use our_driveway.Booking.Availability.Spec.{ClearOf, ClearOf-append}
use our_driveway.Booking.Table.{
  find_booking, extend_date, extend_all, blocks, union_of, taken_for_spot,
}

filter_map-append :
    (xs ys : List TimeSlot) → filter_map span (xs ++ ys) ≡ filter_map span xs ++ filter_map span ys
filter_map-append [] ys = refl
filter_map-append (x ∷ xs) ys = ground (arith, filter_map-append xs ys)

abbrev slots_or_none : Option (List TimeSlot) → List TimeSlot
slots_or_none none = []
slots_or_none (some slots) = slots

busy_on-slots :
    (m : Booked) (date : Text) → busy_on m date ≡ filter_map span (slots_or_none (get date m))
unfolding busy_on
busy_on-slots m date = elim (Option-cases (get date m)) [
  | inl e ↦ rw (e, busy_on)
  | inr (x, e) ↦ rw (e, busy_on)
]

busy_on-cons :
    (date d : Text) (slots : List TimeSlot) (rest : Booked)
    → busy_on ((d, slots) ∷ rest) date
      ≡ (if text_eq d date then filter_map span slots else busy_on rest date)
unfolding busy_on get
busy_on-cons date d slots rest = ground arith

get-extend_date :
    (date d : Text) (slots : List TimeSlot) (m : Booked)
    → slots_or_none (get date (extend_date d slots m))
      ≡ slots_or_none (get date m) ++ (if text_eq d date then slots else [])
unfolding get extend_date
get-extend_date date d slots [] = ground arith
get-extend_date date d slots ((e, old) ∷ rest) = elim (Bool-cases (text_eq e d)) [
  | inl p ↦
      rw (text_eq→eq e d p, text_eq_refl d)
        (elim (Bool-cases (text_eq d date)) [
          | inl q ↦ rw q
          | inr q ↦ rw q (sym (append-nil (slots_or_none (get date rest))))
        ])
  | inr p ↦ elim (Bool-cases (text_eq e date)) [
    | inl q ↦ elim (Bool-cases (text_eq d date)) [
      | inl r ↦ absurd (grind (arith, text_eq→eq e date q, text_eq→eq d date r, text_eq_refl d))
      | inr r ↦ rw (p, q, r) (sym (append-nil old))
    ]
    | inr q ↦ rw (p, q) (get-extend_date date d slots rest)
  ]
]

All-keep-head :
    (P : Booking → Type 0) (p : Booking → Bool) (c : Booking) (rows : List Booking)
    → All P (keep p (c ∷ rows))
    → p c ≡ true
    → P c
All-keep-head P p c rows h e = (rw e at h).0

All-keep-tail :
    (P : Booking → Type 0) (p : Booking → Bool) (c : Booking) (rows : List Booking)
    → All P (keep p (c ∷ rows))
    → All P (keep p rows)
All-keep-tail P p c rows h = elim (Bool-cases (p c)) [ inl e ↦ (rw e at h).1 | inr e ↦ rw e at h ]

module _ (s : Span) where
  -- `s` is clear of what `m` holds on `date`.
  abbrev Clears : Booked → Text → Type 0
  Clears m date = ClearOf (busy_on m date) s

  Clears-extend_date :
      (date d : Text) (slots : List TimeSlot) (m : Booked)
      → Clears (extend_date d slots m) date
      → Clears m date × (text_eq d date ≡ true → ClearOf (filter_map span slots) s)
  Clears-extend_date date d slots m h =
      let k : ClearOf
          (filter_map span (slots_or_none (get date m) ++ (if text_eq d date then slots else [])))
          s =
        rw (← get-extend_date date d slots m, ← busy_on-slots) h in
      let (a, b) =
        (ClearOf-append (filter_map span (slots_or_none (get date m)))
            (filter_map span (if text_eq d date then slots else [])) s).0
          (rw (← filter_map-append) k) in
      (rw busy_on-slots a, λ e. rw e at b)

  Clears-cons :
      (date d : Text) (slots : List TimeSlot) (rest : Booked)
      → (text_eq d date ≡ true → ClearOf (filter_map span slots) s)
      → Clears rest date
      → Clears ((d, slots) ∷ rest) date
  Clears-cons date d slots rest h k = elim (Bool-cases (text_eq d date)) [
    | inl e ↦ rw (busy_on-cons date d slots rest, e) (h e)
    | inr e ↦ rw (busy_on-cons date d slots rest, e) k
  ]

  Clears-extend_all :
      (date : Text) (m acc : Booked)
      → Clears (extend_all m acc) date
      → Clears acc date × Clears m date
  unfolding extend_all
  Clears-extend_all date [] acc h = (h, unfold busy_on get in tt)
  Clears-extend_all date ((d, slots) ∷ rest) acc h =
      let (a, b) = Clears-extend_all date rest (extend_date d slots acc) h in
      let (c, e) = Clears-extend_date date d slots acc a in (c, Clears-cons date d slots rest e b)

  Clears-union :
      (date : Text) (rows : List Booking) (acc : Booked)
      → Clears (union_of rows acc) date
      → Clears acc date × All (λ b. Clears b.booked date) rows
  unfolding union_of
  Clears-union date [] acc h = (h, tt)
  Clears-union date (b ∷ rows) acc h =
      let (a, c) = Clears-union date rows (extend_all b.booked acc) h in
      let (d, e) = Clears-extend_all date b.booked acc a in (d, (e, c))

  Clears-found :
      (p : Booking → Bool) (date : Text) (rows : List Booking) (k : ℕ) (b : Booking)
      → All (λ (c : Booking). Clears c.booked date) (keep p rows)
      → find_booking k rows ≡ some b
      → p b ≡ true
      → Clears b.booked date
  unfolding find_booking
  Clears-found p date [] k b h f e = cc
  Clears-found p date (c ∷ rows) k b h f e = elim (Bool-cases (c.id == k)) [
    | inl i ↦
        let same : c ≡ b = ground arith in
        subst (λ (x : Booking). Clears x.booked date) same (All-keep-head _ p c rows h (rw same e))
    | inr i ↦ Clears-found p date rows k b (All-keep-tail _ p c rows h) (ground arith) e
  ]

  -- Who is clear of all that is taken on a spot is clear of each booking that blocks it.
  pub Clears-blocking :
      (spot_id now : ℕ) (date : Text) (rows : List Booking) (k : ℕ) (b : Booking)
      → Clears (taken_for_spot spot_id now rows) date
      → find_booking k rows ≡ some b
      → blocks spot_id now b ≡ true
      → Clears b.booked date
  unfolding taken_for_spot
  Clears-blocking spot_id now date rows k b h f e =
      Clears-found (blocks spot_id now) date rows k b
        (Clears-union date (keep (blocks spot_id now) rows) [] h).1 f e
