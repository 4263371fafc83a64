-- ===== src/Prelude/Keeping.antt =====
-- What a transaction keeps: a property of the rows that holds before each step and after it.
use mathlib.Core.Bool.{Bool, true, false}
use mathlib.Core.Option.{Option, none, some}
use our_driveway.Prelude.Result.{
  MyError, Result, ok, err, Tx, ◌>>=◌, ◌>>◌, return, gets, modify, require, context, committed,
}

-- Of a run that answers, the rows that it leaves.
abbrev pub Left {ℓ} : {S A : Type 0} → (S → Type ℓ) → Result MyError (A × S) → Type ℓ
Left P (ok (a, s)) = P s
Left P (err e) = Unit

-- A transaction that leads from rows with one property to rows with another. A record, so that the rules find
-- their arguments.
pub record Leads {ℓ} {S A : Type 0} (Q P : S → Type ℓ) (m : Tx S A) : Type ℓ where
  pub apply : (s : S) → Q s → Left P (m s)

abbrev pub Keeps {ℓ} : {S A : Type 0} → (S → Type ℓ) → Tx S A → Type ℓ
Keeps P m = Leads P P m

module _ {ℓ} {S : Type 0} (P : S → Type ℓ) where
  Left-bind :
      {A B : Type 0} (R : S → Type ℓ) (r : Result MyError (A × S)) (f : A → Tx S B)
      → Left R r
      → ((a : A) → Leads R P (f a))
      → Left P (elim r [ ok (a, s') ↦ f a s' | err e ↦ err e ])
  Left-bind R (ok (a, s)) f h k = (k a).apply s h
  Left-bind R (err e) f h k = tt

  Left-committed :
      {A : Type 0} (r : Result MyError (A × S)) (s : S)
      → Left P r
      → P s
      → P (elim r [ ok (a, s') ↦ s' | err e ↦ s ])
  Left-committed (ok (a, s')) s h p = h
  Left-committed (err e) s h p = p

  pub Keeps-committed : {A : Type 0} (m : Tx S A) (s : S) → Keeps P m → P s → P (committed m s)
  Keeps-committed m s k p = Left-committed (m s) s (k.apply s p) p

  pub Leads-committed :
      (Q : S → Type ℓ) {A : Type 0} (m : Tx S A) (s : S)
      → Leads Q P m
      → Q s
      → P s
      → P (committed m s)
  Leads-committed Q m s k q p = Left-committed (m s) s (k.apply s q) p

module _ {ℓ} {S : Type 0} (Q P : S → Type ℓ) where
  pub Leads-bind :
      {A B : Type 0} (R : S → Type ℓ) (m : Tx S A) (f : A → Tx S B)
      → Leads Q R m
      → ((a : A) → Leads R P (f a))
      → Leads Q P (m >>= f)
  Leads-bind R m f h k = record { apply = λ s p. Left-bind P R (m s) f (h.apply s p) k }

  pub Leads-return : {A : Type 0} (a : A) → ((s : S) → Q s → P s) → Leads Q P (return a)
  Leads-return a h = record { apply = h }

  -- What is read comes with the rows that it is read of.
  pub Leads-gets :
      {A B : Type 0} (g : S → A) (f : A → Tx S B)
      → ((s : S) → Q s → Left P (f (g s) s))
      → Leads Q P (gets g >>= f)
  Leads-gets g f h = record { apply = h }

  -- Whatever is read.
  pub Leads-read :
      {A B : Type 0} (g : S → A) (f : A → Tx S B)
      → ((a : A) → Leads Q P (f a))
      → Leads Q P (gets g >>= f)
  Leads-read g f h = record { apply = λ s p. (h (g s)).apply s p }

  pub Leads-require :
      {B : Type 0} (c : Bool) (e : MyError) (m : Tx S B)
      → Leads Q P m
      → Leads Q P (require c e >> m)
  Leads-require true e m h = record { apply = λ s p. h.apply s p }
  Leads-require false e m h = record { apply = λ s p. tt }

  pub Leads-context :
      {A B : Type 0} (o : Option A) (e : MyError) (f : A → Tx S B)
      → ((a : A) → Leads Q P (f a))
      → Leads Q P (context o e >>= f)
  Leads-context none e f h = record { apply = λ s p. tt }
  Leads-context (some a) e f h = record { apply = λ s p. (h a).apply s p }

  pub Leads-modify :
      {B : Type 0} (R : S → Type ℓ) (g : S → S) (m : Tx S B)
      → ((s : S) → Q s → R (g s))
      → Leads R P m
      → Leads Q P (modify g >> m)
  Leads-modify R g m h k = record { apply = λ s p. k.apply (g s) (h s p) }

  pub Leads-modify_last : (g : S → S) → ((s : S) → Q s → P (g s)) → Leads Q P (modify g)
  Leads-modify_last g h = record { apply = h }

module _ {ℓ} {S : Type 0} (P : S → Type ℓ) where
  pub Keeps-require_last : (c : Bool) (e : MyError) → Keeps P (require {S = S} c e)
  Keeps-require_last true e = record { apply = λ s p. p }
  Keeps-require_last false e = record { apply = λ s p. tt }

  Left-assoc :
      {A B C : Type 0} (r : Result MyError (A × S)) (f : A → Tx S B) (g : B → Tx S C)
      → Left P (elim r [ ok (a, s') ↦ (f a >>= g) s' | err e ↦ err e ])
      → Left P
          (elim (elim r as (λ _. Result MyError (B × S)) [ ok (a, s') ↦ f a s' | err e ↦ err e ]) [
            | ok (b, s') ↦ g b s'
            | err e ↦ err e
          ])
  Left-assoc (ok (a, s)) f g h = h
  Left-assoc (err e) f g h = h

  -- The steps of a chain may be bracketed to the right.
  pub Leads-assoc :
      (Q : S → Type ℓ) {A B C : Type 0} (m : Tx S A) (f : A → Tx S B) (g : B → Tx S C)
      → Leads Q P (m >>= λ a. f a >>= g)
      → Leads Q P (m >>= f >>= g)
  Leads-assoc Q m f g h = record { apply = λ s p. Left-assoc (m s) f g (h.apply s p) }

  pub Keeps-assoc :
      {A B C : Type 0} (m : Tx S A) (f : A → Tx S B) (g : B → Tx S C)
      → Keeps P (m >>= λ a. f a >>= g)
      → Keeps P (m >>= f >>= g)
  Keeps-assoc = Leads-assoc P
