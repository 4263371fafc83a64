-- ===== src/Payment/Table/Laws.antt =====
-- apps/services/payment-service/src/repository: the laws of a table keyed by an id, and of the sums over
-- its rows.
use our_driveway.Prelude.{
  ℕ, ◌==◌, ◌+◌, ◌≡◌, refl, Bool, true, Option, none, some, List, [], ◌∷◌, arith, All, Bool-cases,
  inl, inr,
}
use our_driveway.Prelude.Int.{ℤ, pos, ◌+ℤ◌, ◌≤ℤ◌, pos_part, neg_part, +ℤ_parts, parts_or}
use our_driveway.Payment.Table.{find_row, put, part, sum_where}

module _ {A : Type 0} (counts : A → Bool) (amount : A → ℤ) where
  -- What a row that may be there adds to the sum.
  abbrev pub part_of : Option A → ℤ
  part_of none = pos 0
  part_of (some a) = part counts amount a

  pub sum_where-nonneg :
      (rows : List A)
      → All (λ a. neg_part (amount a) ≡ 0) rows
      → neg_part (sum_where counts amount rows) ≡ 0
  unfolding sum_where
  sum_where-nonneg [] h = refl
  sum_where-nonneg (a ∷ rows) (h, hs) =
      let sum = sum_where counts amount rows in
      let here : neg_part (part counts amount a) ≡ 0 = ground (arith, h) in
      omega (
        arith,
        here,
        sum_where-nonneg rows hs,
        +ℤ_parts (part counts amount a) sum,
        parts_or (part counts amount a +ℤ sum),
      )

  -- A row that is written takes the place of the old one in the sum.
  pub sum_where-put :
      (id_of : A → ℕ) (row : A) (rows : List A)
      → (pos_part (sum_where counts amount (put id_of row rows))
          + pos_part (part_of (find_row id_of (id_of row) rows))
          + neg_part (sum_where counts amount rows)
          + neg_part (part counts amount row))
        ≡ (neg_part (sum_where counts amount (put id_of row rows))
            + neg_part (part_of (find_row id_of (id_of row) rows))
            + pos_part (sum_where counts amount rows)
            + pos_part (part counts amount row))
  unfolding sum_where put find_row
  sum_where-put id_of row [] = omega (arith, +ℤ_parts (part counts amount row) (pos 0))
  sum_where-put id_of row (a ∷ rows) = elim (Bool-cases (id_of a == id_of row)) [
    | inl e ↦ rw e (
        omega (
          arith,
          +ℤ_parts (part counts amount row) (sum_where counts amount rows),
          +ℤ_parts (part counts amount a) (sum_where counts amount rows),
        ))
    | inr e ↦ rw e (
        omega (
          arith,
          sum_where-put id_of row rows,
          +ℤ_parts (part counts amount a) (sum_where counts amount rows),
          +ℤ_parts (part counts amount a) (sum_where counts amount (put id_of row rows)),
        ))
  ]

-- More rows of amounts that are not negative make a larger sum.
module _ {A : Type 0} (fewer more : A → Bool) (amount : A → ℤ)
    (wider : (a : A) → fewer a ≡ true → more a ≡ true) where
  pub sum_where-mono :
      (rows : List A)
      → All (λ a. neg_part (amount a) ≡ 0) rows
      → sum_where fewer amount rows ≤ℤ sum_where more amount rows
  unfolding sum_where
  sum_where-mono [] h = omega arith
  sum_where-mono (a ∷ rows) (h, hs) =
      let here : part fewer amount a ≤ℤ part more amount a = elim (Bool-cases (fewer a)) [
        | inl t ↦ rw (t, wider a t) (omega arith)
        | inr f ↦ rw f (ground (arith, h))
      ] in
      omega (
        arith,
        here,
        sum_where-mono rows hs,
        +ℤ_parts (part fewer amount a) (sum_where fewer amount rows),
        +ℤ_parts (part more amount a) (sum_where more amount rows),
      )
