-- ===== src/Prelude/Result.antt =====
-- Results with an error, and transactions: a state is passed on, and an error rolls it back.
use Prim.Native.Nat.{ℕ}
use Prim.Native.String.{String}
use mathlib.Core.Path.{◌≡◌, refl}
use mathlib.Core.Logic.{◌⊎◌, inl, inr}
use mathlib.Core.Bool.{Bool, true, false}
use mathlib.Core.Option.{Option, none, some}

-- An answer with an HTTP status and a title, or a failure of the bus that is retried.
pub data MyError : Type 0 where
  api : ℕ → String → MyError
  bus : MyError

pub data Result {ℓ} (E A : Type ℓ) : Type ℓ where
  ok : A → Result E A
  err : E → Result E A

pub Result-cases {ℓ} :
    {E A : Type ℓ} (r : Result E A) → ((a : A) × (r ≡ ok a)) ⊎ ((e : E) × (r ≡ err e))
Result-cases (ok a) = inl (a, refl)
Result-cases (err e) = inr (e, refl)

-- What runs inside a transaction: the answer and the rows that it leaves, or an error.
abbrev pub Tx : Type 0 → Type 0 → Type 0
Tx S A = S → Result MyError (A × S)

infixl 5 ◌>>=◌ ◌>>◌
abbrev pub ◌>>=◌ : {S A B : Type 0} → Tx S A → (A → Tx S B) → Tx S B
◌>>=◌ m f s = elim (m s) [ ok (a, s') ↦ f a s' | err e ↦ err e ]

abbrev pub ◌>>◌ : {S B : Type 0} → Tx S (Unit {0}) → Tx S B → Tx S B
m >> k = m >>= λ _. k

abbrev pub return : {S A : Type 0} → A → Tx S A
return a s = ok (a, s)

abbrev pub fail : {S A : Type 0} → MyError → Tx S A
fail e s = err e

-- Reads the rows.
abbrev pub gets : {S A : Type 0} → (S → A) → Tx S A
gets f s = ok (f s, s)

-- Writes the rows.
abbrev pub modify : {S : Type 0} → (S → S) → Tx S (Unit {0})
modify f s = ok (tt, f s)

-- `ContextExt` on a condition and on an option: go on, or answer with the error.
abbrev pub require : {S : Type 0} → Bool → MyError → Tx S (Unit {0})
require true e s = ok (tt, s)
require false e s = err e

abbrev pub context : {S A : Type 0} → Option A → MyError → Tx S A
context (some a) e s = ok (a, s)
context none e s = err e

-- The rows after a transaction: those that it left, or the old ones if it was rolled back.
abbrev pub committed : {S A : Type 0} → Tx S A → S → S
committed m s = elim (m s) [ ok (a, s') ↦ s' | err e ↦ s ]

-- What the caller is answered.
abbrev pub answer : {S A : Type 0} → Tx S A → S → Result MyError A
answer m s = elim (m s) [ ok (a, s') ↦ ok a | err e ↦ err e ]

-- What follows a step that answers.
pub bind_ok :
    {S A B : Type 0} (m : Tx S A) (f : A → Tx S B) (s s' : S) (a : A)
    → m s ≡ ok (a, s')
    → (m >>= f) s ≡ f a s'
bind_ok m f s s' a e = rw (e, ◌>>=◌)

pub bind_err :
    {S A B : Type 0} (m : Tx S A) (f : A → Tx S B) (s : S) (e : MyError)
    → m s ≡ err e
    → (m >>= f) s ≡ err e
bind_err m f s e h = rw (h, ◌>>=◌)

-- An error rolls the rows back.
pub committed_err :
    {S A : Type 0} (m : Tx S A) (s : S) (e : MyError) → m s ≡ err e → committed m s ≡ s
committed_err m s e h = rw (h, committed)

pub committed_ok :
    {S A : Type 0} (m : Tx S A) (s s' : S) (a : A) → m s ≡ ok (a, s') → committed m s ≡ s'
committed_ok m s s' a h = rw (h, committed)
