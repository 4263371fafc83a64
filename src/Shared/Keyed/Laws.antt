-- ===== src/Shared/Keyed/Laws.antt =====
-- The laws of a table whose rows are found by an id.
use mathlib.Core.Option
use our_driveway.Prelude.{
  ℕ, ◌==◌, ◌≡◌, subst, refl, ◌∙◌, Bool, true, some, List, [], ◌∷◌, arith, if◌then◌else◌, All,
  Bool-cases, Option-cases, ◌⊎◌, inl, inr,
}
use our_driveway.Shared.Versions.{changed, unchanged, from_rows}
use our_driveway.Shared.Keyed.{find_row, put, guarded, update_where}

module _ {A : Type 0} (id_of : A → ℕ) where
  pub find-put :
      (k : ℕ) (row : A) (rows : List A)
      → find_row id_of k (put id_of row rows)
        ≡ (if id_of row == k then some row else find_row id_of k rows)
  unfolding find_row put
  find-put k row [] = refl
  find-put k row (a ∷ rows) = ground (arith, find-put k row rows)

  pub find-id : (k : ℕ) (rows : List A) (a : A) → find_row id_of k rows ≡ some a → id_of a ≡ k
  unfolding find_row
  find-id k [] a h = cc
  find-id k (b ∷ rows) a h = ground (arith, find-id k rows a)

module _ {A : Type 0} where
  pub All-put :
      (P : A → Type 0) (id_of : A → ℕ) (row : A) (rows : List A)
      → All P rows
      → P row
      → All P (put id_of row rows)
  unfolding put
  All-put P id_of row [] h p = (p, tt)
  All-put P id_of row (a ∷ rows) (h, hs) p = elim (Bool-cases (id_of a == id_of row)) [
    | inl e ↦ rw e (p, hs)
    | inr e ↦ rw e (h, All-put P id_of row rows hs p)
  ]

  pub All-find :
      (P : A → Type 0) (id_of : A → ℕ) (k : ℕ) (rows : List A) (a : A)
      → All P rows
      → find_row id_of k rows ≡ some a
      → P a
  unfolding find_row
  All-find P id_of k [] a h e = absurd (cc)
  All-find P id_of k (b ∷ rows) a (h, hs) e = elim (Bool-cases (id_of b == k)) [
    | inl t ↦ let same : some b ≡ some a = rw t at e in let it : b ≡ a = cc in subst P it h
    | inr t ↦ All-find P id_of k rows a hs (rw t at e)
  ]

-- A guarded update writes nothing, or the one row that it found and allowed.
module _ {A : Type 0} (id_of : A → ℕ) where
  pub guarded_admitted :
      (allowed : A → Bool) (change : A → A) (id : ℕ) (rows : List A) (a : A)
      → find_row id_of id rows ≡ some a
      → allowed a ≡ true
      → guarded id_of allowed change id rows ≡ (put id_of (change a) rows, changed)
  unfolding guarded from_rows
  guarded_admitted allowed change id rows a e t = rw (e, guarded, t) refl

  pub guarded-cases :
      (allowed : A → Bool) (change : A → A) (id : ℕ) (rows : List A)
      → (guarded id_of allowed change id rows ≡ (rows, unchanged))
        ⊎ ((a : A) × (find_row id_of id rows ≡ some a)
            × (allowed a ≡ true)
            × (guarded id_of allowed change id rows ≡ (put id_of (change a) rows, changed)))
  unfolding guarded from_rows
  guarded-cases allowed change id rows = elim (Option-cases (find_row id_of id rows)) [
    | inl e ↦ inl (rw (e, guarded) refl)
    | inr (a, e) ↦ elim (Bool-cases (allowed a)) [
      | inl t ↦ inr (a, e, t, guarded_admitted allowed change id rows a e t)
      | inr f ↦ inl (rw (e, guarded, f) refl)
    ]
  ]

  pub find-put_here :
      (row : A) (rows : List A) → find_row id_of (id_of row) (put id_of row rows) ≡ some row
  find-put_here row rows = find-put id_of (id_of row) row rows ∙ ground arith

-- An update of the rows that pass, where the change keeps the id.
module _ {A : Type 0} (id_of : A → ℕ) where
  pub find-update_where :
      (test : A → Bool) (change : A → A)
      → ((a : A) → id_of (change a) ≡ id_of a)
      → (k : ℕ) (rows : List A)
      → find_row id_of k (update_where test change rows)
        ≡ Option.map (λ a. if test a then change a else a) (find_row id_of k rows)
  unfolding find_row update_where
  find-update_where test change keeps k [] = refl
  find-update_where test change keeps k (a ∷ rows) =
      ground (arith, keeps a, find-update_where test change keeps k rows)
