-- ===== src/Shared/Versions.antt =====
-- shared/src/db.rs: the version of a row, and whether a guarded write moved it. A column `version`
-- is an `i64`; what a macro reads of a missing row is `none`.
use our_driveway.Prelude.{
  ℕ, ◌==◌, ◌&&◌, Bool, true, false, Option, none, some, if◌then◌else◌, ltb, leb,
}
use our_driveway.Prelude.Int.{ℤ, pos, ◌+ℤ◌, ◌-ℤ◌, ltb_ℤ, leb_ℤ, i64, pos_part, neg_part, half_i64}

pub data Changed : Type 0 where
  changed unchanged : Changed

-- `Changed::from_rows`
unfoldable pub from_rows : ℕ → Changed
from_rows rows = if rows == 1 then changed else unchanged

-- `Changed::applied`
abbrev pub applied : Changed → Bool
applied changed = true
applied unchanged = false

abbrev pub stored_or_zero : Option ℤ → ℤ
stored_or_zero none = pos 0
stored_or_zero (some v) = v

-- `i64::max`
abbrev pub max_ℤ : ℤ → ℤ → ℤ
max_ℤ a b = if leb_ℤ a b then b else a

-- `next_version!`: the version after the caller's write.
unfoldable pub next_version : Option ℤ → ℤ
next_version stored = i64 (max_ℤ (stored_or_zero stored) (pos 0) +ℤ pos 1)

-- `set_version!`: `WHERE version < $v`.
unfoldable pub set_version : ℤ → ℤ → ℤ
set_version stored v = if ltb_ℤ stored v then v else stored

-- `i64::saturating_add(1)`
abbrev pub saturating_succ : ℤ → ℤ
saturating_succ v = if ltb_ℤ v (pos 9223372036854775807) then v +ℤ pos 1 else v

-- `i64::checked_sub`
abbrev pub checked_sub : ℤ → ℤ → Option ℤ
checked_sub a b =
    let d = a -ℤ b in
    if ltb (pos_part d) half_i64 && leb (neg_part d) half_i64 then some d else none

-- `version_gap`: how many events are missing.
unfoldable pub version_gap : Option ℤ → ℤ → Option ℤ
version_gap none incoming = none
version_gap (some stored) incoming = elim (checked_sub incoming (saturating_succ stored)) [
  | none ↦ none
  | some missing ↦ if ltb_ℤ (pos 0) missing then some missing else none
]
