-- ===== src/View/Page.antt =====
-- apps/services/view-service/src/policy/page.rs: one window of a list.
use our_driveway.Prelude.{◌&&◌, Option, none, some, if◌then◌else◌}
use our_driveway.Prelude.Int.{ℤ, pos, ◌+ℤ◌, i64, leb_ℤ, ltb_ℤ}

-- `DEFAULT_LIMIT` and `MAX_LIMIT`.
abbrev pub default_limit : ℤ
default_limit = pos 20

abbrev pub max_limit : ℤ
max_limit = pos 50

abbrev or_default : ℤ → Option ℤ → ℤ
or_default d none = d
or_default d (some a) = a

unfoldable pub limit : Option ℤ → Option ℤ
limit asked =
    let l = or_default default_limit asked in
    if leb_ℤ (pos 1) l && leb_ℤ l max_limit then some l else none

unfoldable pub offset : Option ℤ → Option ℤ
offset asked = let o = or_default (pos 0) asked in if leb_ℤ (pos 0) o then some o else none

unfoldable pub window : Option ℤ → Option ℤ → Option (ℤ × ℤ)
window limit_param offset_param = elim (limit limit_param) [
  | none ↦ none
  | some l ↦ elim (offset offset_param) [ none ↦ none | some o ↦ some (l, o) ]
]

unfoldable pub next_offset : ℤ → ℤ → ℤ → Option ℤ
next_offset from size total =
    if ltb_ℤ (i64 (from +ℤ size)) total then some (i64 (from +ℤ size)) else none
