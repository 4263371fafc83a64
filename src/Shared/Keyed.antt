-- ===== src/Shared/Keyed.antt =====
-- A table whose rows are found by an id: what `SELECT`, `INSERT .. ON CONFLICT` and `UPDATE` do to it.
pub mod Laws
use our_driveway.Prelude.{ℕ, ◌==◌, Bool, Option, none, some, List, [], ◌∷◌, if◌then◌else◌, find?}
use our_driveway.Shared.Versions.{Changed, from_rows}

module _ {A : Type 0} (id_of : A → ℕ) where
  unfoldable pub find_row : ℕ → List A → Option A
  find_row id rows = find? (λ a. id_of a == id) rows

  -- A row is inserted, or replaces the row with its id.
  unfoldable pub put : A → List A → List A
  put row [] = row ∷ []
  put row (a ∷ rows) = if id_of a == id_of row then row ∷ rows else a ∷ put row rows

  -- `UPDATE .. WHERE id = .. AND <guard>`
  unfoldable pub guarded : (A → Bool) → (A → A) → ℕ → List A → List A × Changed
  guarded allowed change id rows = elim (find_row id rows) [
    | none ↦ (rows, from_rows 0)
    | some a ↦ if allowed a then (put (change a) rows, from_rows 1) else (rows, from_rows 0)
  ]

-- `UPDATE .. WHERE <test>`
unfoldable pub update_where : {A : Type 0} → (A → Bool) → (A → A) → List A → List A
update_where test change [] = []
update_where test change (a ∷ rows) =
    (if test a then change a else a) ∷ update_where test change rows
