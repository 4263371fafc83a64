-- ===== src/View/Listings.antt =====
-- apps/services/view-service/src: the listings of a host, a window at a time (repository/spot_repository.rs,
-- service/host_service.rs). The columns that no statement here tests are `A`.
pub mod Walk
use our_driveway.Prelude.{
  ℕ, zero, suc, ◌-◌, ◌==◌, ltb, not, ◌&&◌, Bool, Option, none, some, List, [], ◌∷◌, ◌++◌, length,
  keep, if◌then◌else◌,
}
use our_driveway.Prelude.Int.{ℤ, pos, pos_part}
use our_driveway.Prelude.Result.{MyError, api, Result, ok, err}
use our_driveway.View.Page.{window, next_offset}

pub record Listing (A : Type 0) : Type 0 where
  pub id : ℕ
  pub host_id : ℕ
  pub created_at : ℕ
  pub deleted : Bool
  pub columns : A

pub record Page (A : Type 0) : Type 0 where
  pub spots : List (Listing A)
  pub next_offset : Option ℤ
  pub total : ℤ

module _ {A : Type 0} where
  -- `LIMIT` and `OFFSET`.
  unfoldable pub first : ℕ → List A → List A
  first zero rows = []
  first (suc n) [] = []
  first (suc n) (a ∷ rows) = a ∷ first n rows

  unfoldable pub skip : ℕ → List A → List A
  skip zero rows = rows
  skip (suc n) [] = []
  skip (suc n) (a ∷ rows) = skip n rows

module _ {A : Type 0} where
  -- `ORDER BY created_at DESC, id DESC`
  abbrev before : Listing A → Listing A → Bool
  before a b = if a.created_at == b.created_at then ltb b.id a.id else ltb b.created_at a.created_at

  unfoldable pub insert : Listing A → List (Listing A) → List (Listing A)
  insert a [] = a ∷ []
  insert a (b ∷ rows) = if before b a then b ∷ insert a rows else a ∷ b ∷ rows

  unfoldable pub order : List (Listing A) → List (Listing A)
  order [] = []
  order (a ∷ rows) = insert a (order rows)

  unfoldable pub of_host : ℕ → List (Listing A) → List (Listing A)
  of_host host_id rows = keep (λ r. r.host_id == host_id && not r.deleted) rows

  -- `count_for_host`
  unfoldable pub count_for_host : ℕ → List (Listing A) → ℤ
  count_for_host host_id rows = pos (length (of_host host_id rows))

  -- `find_page_for_host`
  unfoldable pub find_page_for_host : ℕ → ℤ → ℤ → List (Listing A) → List (Listing A)
  find_page_for_host host_id size from rows =
      first (pos_part size) (skip (pos_part from) (order (of_host host_id rows)))

  -- `HostService::spots`
  unfoldable pub spots : ℕ → Option ℤ → Option ℤ → List (Listing A) → Result MyError (Page A)
  spots host_id limit_param offset_param rows = elim (window limit_param offset_param) [
    | none ↦ err (api 400 "Invalid page")
    | some (size, from) ↦ ok (record {
      spots = find_page_for_host host_id size from rows;
      next_offset = next_offset from size (count_for_host host_id rows);
      total = count_for_host host_id rows;
    })
  ]

  -- A caller that asks for the next window as long as there is one, on fuel.
  unfoldable pub walk : ℕ → Option ℤ → List (Listing A) → ℕ → ℤ → List (Listing A)
  walk host_id limit_param rows zero from = []
  walk host_id limit_param rows (suc fuel) from =
      elim (spots host_id limit_param (some from) rows) [
        | err e ↦ []
        | ok page ↦ page.spots ++ elim page.next_offset as (λ _. List (Listing A)) [
          | none ↦ []
          | some next ↦ walk host_id limit_param rows fuel next
        ]
      ]
