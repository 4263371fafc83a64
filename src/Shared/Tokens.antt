-- ===== src/Shared/Tokens.antt =====
-- shared/src/events/mod.rs: the texts `spot:<uuid>@3` that a client is handed after a write and echoes.
pub mod RoundTrip
use mathlib.Core.Option
use our_driveway.Prelude.{
  ℕ, zero, suc, ◌+◌, ◌*◌, ◌-◌, ◌/◌, ◌%◌, ◌<◌, ◌≤◌, ◌==◌, ltb, leb, ◌≡◌, refl, sym, ap, ◌∙◌, ◌&&◌,
  Bool, true, false, Option, none, some, List, [], ◌∷◌, ◌++◌, All, arith, if◌then◌else◌, Bool-cases,
  inl, inr,
}
use our_driveway.Prelude.Int.{ℤ, pos, negsuc, pos_part, half_i64}
use our_driveway.Prelude.Text.{Text, split_once}
use our_driveway.Shared.Slots.{digits_from, parse_digits, within}

-- `Display` of a number below 10 ^ fuel; each number is below 10 to its own.
unfoldable pub decimal_from : ℕ → ℕ → Text
decimal_from zero n = []
decimal_from (suc fuel) n =
    let rest = decimal_from fuel (n / 10) in
    if ltb n 10 then (b'0' + n) ∷ [] else rest ++ (b'0' + n % 10) ∷ []

unfoldable pub decimal : ℕ → Text
decimal n = decimal_from (suc n) n

-- `Display` of an `i64`.
unfoldable pub display : ℤ → Text
display (pos n) = decimal n
display (negsuc n) = b'-' ∷ decimal (suc n)

-- `str::parse::<u64>()`, then `try_into` an `i64`.
unfoldable pub parse_u64 : Text → Option ℕ
parse_u64 [] = none
parse_u64 (c ∷ s) =
    if c == b'+'
    then within 18446744073709551615 (parse_digits s)
    else within 18446744073709551615 (parse_digits (c ∷ s))

-- `str::rsplit_once(c)`: what stands before and behind the last `c`.
unfoldable pub rsplit_once : ℕ → Text → Option (Text × Text)
rsplit_once c [] = none
rsplit_once c (a ∷ s) = elim (rsplit_once c s) [
  | some (p, q) ↦ some (a ∷ p, q)
  | none ↦ if a == c then some ([], s) else none
]

-- `format_version`
unfoldable pub format_version : Text → ℤ → Text
format_version aggregate version = aggregate ++ b'@' ∷ display version

-- The version that a text stands for.
unfoldable pub version_in : Text → Option ℤ
version_in s = Option.map pos (within 9223372036854775807 (parse_u64 s))

-- `parse_version`
unfoldable pub parse_version : Text → Option (Text × ℤ)
parse_version s =
    Option.bind (rsplit_once b'@' s)
      (λ (p : Text × Text). Option.map (λ v. (p.0, v)) (version_in p.1))

-- `aggregate_id`, with the uuid library's `Display`.
unfoldable pub aggregate_id : (ℕ → Text) → Text → ℕ → Text
aggregate_id print_uuid table id = table ++ b':' ∷ print_uuid id

-- `split_aggregate`, with the uuid library's `FromStr`.
unfoldable pub split_aggregate : (Text → Option ℕ) → Text → Option (Text × ℕ)
split_aggregate parse_uuid aggregate =
    Option.bind (split_once b':' aggregate)
      (λ (p : Text × Text). Option.map (λ id. (p.0, id)) (parse_uuid p.1))
