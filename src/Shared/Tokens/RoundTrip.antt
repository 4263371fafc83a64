-- ===== src/Shared/Tokens/RoundTrip.antt =====
-- shared/src/events/mod.rs: the version that a client echoes is the one that it was handed.
use mathlib.Core.Option
use our_driveway.Prelude.{
  ℕ, zero, suc, ◌+◌, ◌*◌, ◌-◌, ◌/◌, ◌%◌, ◌<◌, ◌≤◌, ◌==◌, ltb, ◌≡◌, refl, ap, ◌∙◌, false, Option,
  none, some, [], ◌∷◌, ◌++◌, All, arith, Bool-cases, inl, inr,
}
use our_driveway.Prelude.Int.{ℤ, pos, negsuc, pos_part, half_i64}
use our_driveway.Prelude.Text.{Text, split_once}
use our_driveway.Shared.Slots.{digits_from, parse_digits, within}
use our_driveway.Shared.Tokens.{
  decimal_from, decimal, display, parse_u64, rsplit_once, format_version, version_in, parse_version,
  aggregate_id, split_aggregate,
}

abbrev pub Digit : ℕ → Type 0
Digit c = (b'0' ≤ c) × (c ≤ b'9')

All-snoc : (P : ℕ → Type 0) (s : Text) (c : ℕ) → All P s → P c → All P (s ++ c ∷ [])
All-snoc P [] c h p = (p, tt)
All-snoc P (a ∷ s) c (h, hs) p = (h, All-snoc P s c hs p)

pub decimal_from-digits : (fuel n : ℕ) → All Digit (decimal_from fuel n)
unfolding decimal_from
decimal_from-digits zero n = tt
decimal_from-digits (suc fuel) n = elim (Bool-cases (ltb n 10)) [
  | inl t ↦ rw t ((omega arith, ground (arith, t)), tt)
  | inr f ↦ rw f (
      All-snoc Digit (decimal_from fuel (n / 10)) (b'0' + n % 10)
        (decimal_from-digits fuel (n / 10)) (omega arith, omega arith))
]

digits_from-snoc :
    (s : Text) (acc n d : ℕ)
    → digits_from acc s ≡ some n
    → d < 10
    → digits_from acc (s ++ (b'0' + d) ∷ []) ≡ some (n * 10 + d)
unfolding digits_from
digits_from-snoc [] acc n d h l = ground arith
digits_from-snoc (c ∷ s) acc n d h l =
    ground (arith, digits_from-snoc s (acc * 10 + (c - b'0')) n d)

digits_from-decimal_from : (fuel n : ℕ) → n < fuel → digits_from 0 (decimal_from fuel n) ≡ some n
unfolding decimal_from digits_from
digits_from-decimal_from zero n h = absurd (omega arith)
digits_from-decimal_from (suc fuel) n h = elim (Bool-cases (ltb n 10)) [
  | inl t ↦ rw t (ground arith)
  | inr f ↦ rw f (
      digits_from-snoc (decimal_from fuel (n / 10)) 0 (n / 10) (n % 10)
        (digits_from-decimal_from fuel (n / 10) (ground arith)) (omega arith)
      ∙ ap some (omega arith))
]

snoc-cons : (s : Text) (c : ℕ) → (d : ℕ) × (t : Text) × (s ++ c ∷ [] ≡ d ∷ t)
snoc-cons [] c = (c, [], refl)
snoc-cons (a ∷ s) c = (a, s ++ c ∷ [], refl)

decimal-cons : (n : ℕ) → (d : ℕ) × (t : Text) × (decimal n ≡ d ∷ t)
unfolding decimal decimal_from
decimal-cons n = elim (Bool-cases (ltb n 10)) [
  | inl t ↦ (b'0' + n, [], rw t refl)
  | inr f ↦ let (d, t, e) = snoc-cons (decimal_from n (n / 10)) (b'0' + n % 10) in (d, t, rw f e)
]

parse_u64-digits :
    (c : ℕ) (s : Text) (n : ℕ)
    → All Digit (c ∷ s)
    → digits_from 0 (c ∷ s) ≡ some n
    → n ≤ 18446744073709551615
    → parse_u64 (c ∷ s) ≡ some n
unfolding parse_u64 within parse_digits
parse_u64-digits c s n h e l =
    let sign : (c == b'+') ≡ false = ground (arith, h.0) in rw (sign, e) (ground arith)

parse_u64-decimal : (n : ℕ) → n ≤ 18446744073709551615 → parse_u64 (decimal n) ≡ some n
unfolding decimal
parse_u64-decimal n l =
    let (c, s, e) = decimal-cons n in
    let all = decimal_from-digits (suc n) n in
    let value = digits_from-decimal_from (suc n) n (omega arith) in
    rw e (parse_u64-digits c s n (rw e at all) (rw e at value) l)

-- The version is behind the last `@`, as it has none itself.
rsplit_once-append :
    (c : ℕ) (s v : Text) → rsplit_once c v ≡ none → rsplit_once c (s ++ c ∷ v) ≡ some (s, v)
unfolding rsplit_once
rsplit_once-append c [] v h = rw h (ground arith)
rsplit_once-append c (a ∷ s) v h = rw (rsplit_once-append c s v h) refl

no_sign : (s : Text) → All (λ c. c ≤ b'9') s → rsplit_once b'@' s ≡ none
unfolding rsplit_once
no_sign [] h = refl
no_sign (c ∷ s) (h, hs) =
    let other : (c == b'@') ≡ false = ground (arith, h) in rw (no_sign s hs, other) refl

Digits-below : (s : Text) → All Digit s → All (λ c. c ≤ b'9') s
Digits-below [] h = tt
Digits-below (c ∷ s) (h, hs) = (h.1, Digits-below s hs)

display-no_sign : (v : ℤ) → rsplit_once b'@' (display v) ≡ none
unfolding display decimal
display-no_sign (pos n) =
    no_sign (decimal n) (Digits-below (decimal n) (decimal_from-digits (suc n) n))
display-no_sign (negsuc n) =
    no_sign (b'-' ∷ decimal (suc n))
      (omega arith, Digits-below (decimal (suc n)) (decimal_from-digits (suc (suc n)) (suc n)))

-- A version that is not negative is read back, a negative one is refused.
abbrev pub read_back : Text → ℤ → Option (Text × ℤ)
read_back aggregate (pos n) = some (aggregate, pos n)
read_back aggregate (negsuc n) = none

minus_refused : (s : Text) → parse_u64 (b'-' ∷ s) ≡ none
unfolding parse_u64 within parse_digits digits_from
minus_refused s = refl

version_in-display :
    (v : ℤ)
    → pos_part v < half_i64
    → (a : Text) → Option.map (λ (w : ℤ). (a, w)) (version_in (display v)) ≡ read_back a v
unfolding version_in within display
version_in-display (pos n) h a = rw (parse_u64-decimal n (omega arith)) (ground arith)
version_in-display (negsuc n) h a = rw (minus_refused (decimal (suc n))) refl

-- `parse_version` undoes `format_version` on every aggregate and every `i64` that is not negative, and
-- refuses a negative one.
pub parse_version-format_version :
    (aggregate : Text) (version : ℤ)
    → pos_part version < half_i64
    → parse_version (format_version aggregate version) ≡ read_back aggregate version
unfolding parse_version format_version Option.bind
parse_version-format_version aggregate version h =
    rw (rsplit_once-append b'@' aggregate (display version) (display-no_sign version))
      (version_in-display version h aggregate)

-- A table name with no `:` in it comes first.
split_once-append :
    (c : ℕ) (s t : Text) → All (λ a. (a == c) ≡ false) s → split_once c (s ++ c ∷ t) ≡ some (s, t)
split_once-append c [] t h = ground arith
split_once-append c (a ∷ s) t (h, hs) = rw (h, split_once-append c s t hs) refl

-- Where the uuid library reads back what it prints, `split_aggregate` undoes `aggregate_id` for each table name
-- with no `:`.
pub split_aggregate-aggregate_id :
    (print_uuid : ℕ → Text) (parse_uuid : Text → Option ℕ)
    → ((id : ℕ) → parse_uuid (print_uuid id) ≡ some id)
    → (table : Text) (id : ℕ) → All (λ a. (a == b':') ≡ false) table
    → split_aggregate parse_uuid (aggregate_id print_uuid table id) ≡ some (table, id)
unfolding split_aggregate aggregate_id Option.bind
split_aggregate-aggregate_id print_uuid parse_uuid back table id h =
    rw (split_once-append b':' table (print_uuid id) h, back id) refl
