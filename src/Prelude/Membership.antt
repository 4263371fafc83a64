-- ===== src/Prelude/Membership.antt =====
-- Membership that keeps its witness, as a family by recursion, and a predicate read through it.
use Prim.Native.Nat.{ℕ, zero, suc, ◌<◌}
use mathlib.Core.Path.{◌≡◌, refl}
use mathlib.Core.Logic.{◌⊎◌, inl, inr}
use mathlib.Core.Bool.{Bool, true, false}
use mathlib.Core.List.{List, [], ◌∷◌, ◌++◌}
use native.Mathlib.Omega.{arith}
use our_driveway.Prelude.Tests.{Bool-cases}
use our_driveway.Prelude.Lists.{Any, All, any, keep, take, length}

module _ {A : Type 0} where
  abbrev pub In : A → List A → Type 0
  In x xs = Any (λ y. y ≡ x) xs

  pub In-append_left : (x : A) (xs ys : List A) → In x xs → In x (xs ++ ys)
  In-append_left x (y ∷ xs) ys (inl e) = inl e
  In-append_left x (y ∷ xs) ys (inr h) = inr (In-append_left x xs ys h)
  In-append_left x [] ys h = absurd h

  pub In-append_right : (x : A) (xs ys : List A) → In x ys → In x (xs ++ ys)
  In-append_right x [] ys h = h
  In-append_right x (y ∷ xs) ys h = inr (In-append_right x xs ys h)

  pub In-append : (x : A) (xs ys : List A) → In x (xs ++ ys) → In x xs ⊎ In x ys
  In-append x [] ys h = inr h
  In-append x (y ∷ xs) ys (inl e) = inl (inl e)
  In-append x (y ∷ xs) ys (inr h) = elim (In-append x xs ys h) [
    | inl l ↦ inl (inr l)
    | inr r ↦ inr r
  ]

  pub In-keep : (p : A → Bool) (x : A) (xs : List A) → p x ≡ true → In x xs → In x (keep p xs)
  In-keep p x [] e h = absurd h
  In-keep p x (y ∷ xs) e (inl q) = rw (q, e) (inl refl)
  In-keep p x (y ∷ xs) e (inr h) = elim (Bool-cases (p y)) [
    | inl t ↦ rw t (inr (In-keep p x xs e h))
    | inr t ↦ rw t (In-keep p x xs e h)
  ]

  pub In-of-keep : (p : A → Bool) (x : A) (xs : List A) → In x (keep p xs) → In x xs × (p x ≡ true)
  In-of-keep p x [] h = absurd h
  In-of-keep p x (y ∷ xs) h = elim (Bool-cases (p y)) [
    | inl t ↦ elim (rw t at h) [
      | inl e ↦ (inl e, rw (← e) t)
      | inr r ↦ let (i, k) = In-of-keep p x xs r in (inr i, k)
    ]
    | inr t ↦ let (i, k) = In-of-keep p x xs (rw t at h) in (inr i, k)
  ]

  -- A test that no element passes.
  pub not_any : (p : A → Bool) (x : A) (xs : List A) → any p xs ≡ false → In x xs → p x ≡ false
  not_any p x [] e h = absurd h
  not_any p x (y ∷ xs) e (inl q) = rw (← q) (ground arith)
  not_any p x (y ∷ xs) e (inr h) = not_any p x xs (ground arith) h

  pub length-keep-le : (p : A → Bool) (xs : List A) → length (keep p xs) < suc (length xs)
  length-keep-le p [] = omega arith
  length-keep-le p (y ∷ xs) = ground (arith, length-keep-le p xs)

  -- To drop an element that is there makes the list shorter.
  pub length-keep-lt :
      (p : A → Bool) (x : A) (xs : List A) → In x xs → p x ≡ false → length (keep p xs) < length xs
  length-keep-lt p x [] h e = absurd h
  length-keep-lt p x (y ∷ xs) (inl q) e = rw (q, e) (length-keep-le p xs)
  length-keep-lt p x (y ∷ xs) (inr h) e = ground (arith, length-keep-lt p x xs h e)

  pub All-In : (P : A → Type 0) (x : A) (xs : List A) → All P xs → In x xs → P x
  All-In P x [] a h = absurd h
  All-In P x (y ∷ xs) a (inl e) = rw (← e) a.0
  All-In P x (y ∷ xs) a (inr h) = All-In P x xs a.1 h

  pub In-take : (x : A) (n : ℕ) (xs : List A) → In x (take n xs) → In x xs
  In-take x zero xs h = absurd h
  In-take x (suc n) [] h = absurd h
  In-take x (suc n) (y ∷ xs) (inl e) = inl e
  In-take x (suc n) (y ∷ xs) (inr h) = inr (In-take x n xs h)

  pub List-cases : (xs : List A) → (xs ≡ []) ⊎ ((y : A) × (ys : List A) × (xs ≡ y ∷ ys))
  List-cases [] = inl refl
  List-cases (y ∷ ys) = inr (y, ys, refl)

  pub any-snoc :
      (p : A → Bool) (xs : List A) (x : A)
      → any p xs ≡ false
      → p x ≡ false
      → any p (xs ++ x ∷ []) ≡ false
  any-snoc p [] x h e = ground arith
  any-snoc p (y ∷ xs) x h e = ground (arith, any-snoc p xs x)
