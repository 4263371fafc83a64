-- ===== src/Bus/Await.antt =====
-- bus/src/await_version.rs: a read waits until the projection holds what the client has written.
pub mod Entries
use mathlib.Core.Option
use our_driveway.Prelude.{
  ℕ, ◌==◌, ◌||◌, ◌&&◌, leb, ◌≡◌, refl, ap, ◌↔◌, inl, inr, Bool, true, false, Bool-cases,
  Option-cases, Option, List, [], ◌∷◌, ◌++◌, arith, if◌then◌else◌, filter_map,
}
use our_driveway.Prelude.Int.{ℤ, ◌≤ℤ◌, leb_ℤ, leb_ℤ_iff}
use our_driveway.Prelude.Text.{Text}
use our_driveway.Shared.Tokens.{split_aggregate, parse_version}
use our_driveway.Bus.Gate.{Applied, at, pending, unavailable}

-- `char::is_whitespace`
unfoldable pub is_whitespace : ℕ → Bool
is_whitespace c =
    (leb 9 c && leb c 13)
    || c == 32
    || c == 133
    || c == 160
    || c == 5760
    || (leb 8192 c && leb c 8202)
    || c == 8232
    || c == 8233
    || c == 8239
    || c == 8287
    || c == 12288

unfoldable pub trim_start : Text → Text
trim_start [] = []
trim_start (c ∷ s) = if is_whitespace c then trim_start s else c ∷ s

unfoldable pub trim_end : Text → Text
trim_end [] = []
trim_end (c ∷ s) = elim (trim_end s) [
  | [] ↦ if is_whitespace c then [] else c ∷ []
  | d ∷ t ↦ c ∷ d ∷ t
]

-- `str::split(c)`: at least one part.
unfoldable pub split_parts : ℕ → Text → Text × List Text
split_parts c [] = ([], [])
split_parts c (a ∷ s) =
    let (first, more) = split_parts c s in if a == c then ([], first ∷ more) else (a ∷ first, more)

unfoldable pub split : ℕ → Text → List Text
split c s = let (first, more) = split_parts c s in first ∷ more

module _ (parse_uuid : Text → Option ℕ) where
  -- One entry of the header.
  unfoldable pub entry : Text → Option (Text × ℕ × ℤ)
  entry s = Option.bind (parse_version (trim_end (trim_start s))) (λ (p : Text × ℤ).
      Option.map (λ (q : Text × ℕ). (q.0, q.1, p.1)) (split_aggregate parse_uuid p.0))

  -- `parse`
  unfoldable pub parse : Text → List (Text × ℕ × ℤ)
  parse value = filter_map entry (split b',' value)

-- `reached`: `polls` are the answers of the reader until the timeout.
unfoldable pub reached : ℤ → List Applied → Bool
reached want [] = false
reached want (at have ∷ polls) = if leb_ℤ want have then true else reached want polls
reached want (pending ∷ polls) = reached want polls
reached want (unavailable ∷ polls) = false

pub split_parts-append :
    (c : ℕ) (s t : Text)
    → split_parts c (s ++ c ∷ t)
      ≡ ((split_parts c s).0, (split_parts c s).1 ++ (split_parts c t).0 ∷ (split_parts c t).1)
unfolding split_parts
split_parts-append c [] t = ground arith
split_parts-append c (a ∷ s) t = elim (Bool-cases (a == c)) [
  | inl e ↦ rw (e, split_parts-append c s t) refl
  | inr e ↦ rw (e, split_parts-append c s t) refl
]

filter_map-append :
    {A B : Type 0} (f : A → Option B) (xs ys : List A)
    → filter_map f (xs ++ ys) ≡ filter_map f xs ++ filter_map f ys
filter_map-append f [] ys = refl
filter_map-append f (x ∷ xs) ys = elim (Option-cases (f x)) [
  | inl e ↦ rw (e, filter_map) (filter_map-append f xs ys)
  | inr (y, e) ↦ rw (e, filter_map) (ap (λ zs. y ∷ zs) (filter_map-append f xs ys))
]

-- What stands on the two sides of a comma is read as if it stood alone.
pub parse-append :
    (parse_uuid : Text → Option ℕ) (s t : Text)
    → parse parse_uuid (s ++ b',' ∷ t) ≡ parse parse_uuid s ++ parse parse_uuid t
unfolding parse split
parse-append parse_uuid s t = rw (split_parts-append b',' s t) (
    filter_map-append (entry parse_uuid) ((split_parts b',' s).0 ∷ (split_parts b',' s).1)
      ((split_parts b',' t).0 ∷ (split_parts b',' t).1))

-- Some answer is far enough, and none before it gave up.
pub data Arrives (want : ℤ) : List Applied → Type 0 where
  now : {have : ℤ} {polls : List Applied} → want ≤ℤ have → Arrives want (at have ∷ polls)
  later : {have : ℤ} {polls : List Applied} → Arrives want polls → Arrives want (at have ∷ polls)
  wait : {polls : List Applied} → Arrives want polls → Arrives want (pending ∷ polls)

arrives : (want : ℤ) (polls : List Applied) → reached want polls ≡ true → Arrives want polls
unfolding reached
arrives want [] h = absurd (cc)
arrives want (at have ∷ polls) h = elim (Bool-cases (leb_ℤ want have)) [
  | inl t ↦ now ((leb_ℤ_iff want have).0 t)
  | inr f ↦ later (arrives want polls (rw f at h))
]
arrives want (pending ∷ polls) h = wait (arrives want polls h)
arrives want (unavailable ∷ polls) h = absurd (cc)

answers : (want : ℤ) (polls : List Applied) → Arrives want polls → reached want polls ≡ true
unfolding reached
answers want [] h = elim h [ ]
answers want (unavailable ∷ polls) h = elim h [ ]
answers want (at have ∷ polls) (now h) = rw ((leb_ℤ_iff want have).1 h) refl
answers want (at have ∷ polls) (later h) = elim (Bool-cases (leb_ℤ want have)) [
  | inl t ↦ rw t refl
  | inr f ↦ rw f (answers want polls h)
]
answers want (pending ∷ polls) (wait h) = answers want polls h

-- `reached` answers yes exactly where some poll before the timeout finds the version or a later one, and no poll
-- before it finds that there is nothing to wait for.
pub reached_iff :
    (want : ℤ) (polls : List Applied) → (reached want polls ≡ true) ↔ Arrives want polls
reached_iff want polls = (arrives want polls, answers want polls)
