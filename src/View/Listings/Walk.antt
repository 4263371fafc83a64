-- ===== src/View/Listings/Walk.antt =====
-- apps/services/view-service/src/policy/page.rs: the windows of a list make the whole list.
use our_driveway.Prelude.{
  ℕ, zero, suc, ◌+◌, ◌<◌, ◌≤◌, ◌≡◌, refl, sym, ap, ◌∙◌, none, some, List, [], ◌∷◌, ◌++◌, length,
  arith, if◌then◌else◌, ltb, Bool-cases, inl, inr,
}
use our_driveway.Prelude.Int.{pos, ◌+ℤ◌, half_i64, wrap}
use our_driveway.Prelude.Result.{ok}
use our_driveway.View.Page.{limit, offset, window, next_offset}
use our_driveway.View.Listings.{
  Listing, first, skip, insert, order, of_host, count_for_host, find_page_for_host, spots, walk,
}

later : (m n : ℕ) → suc (m + n) ≡ suc m + n
later m n = omega arith

module _ {A : Type 0} where
  first-skip : (n : ℕ) (rows : List A) → first n rows ++ skip n rows ≡ rows
  unfolding first skip
  first-skip zero rows = refl
  first-skip (suc n) [] = refl
  first-skip (suc n) (a ∷ rows) = ap (λ r. a ∷ r) (first-skip n rows)

  skip_none : (n : ℕ) → ◌≡◌ {A = List A} (skip n []) []
  unfolding skip
  skip_none zero = refl
  skip_none (suc n) = refl

  skip-skip : (m n : ℕ) (rows : List A) → skip n (skip m rows) ≡ skip (m + n) rows
  unfolding skip
  skip-skip zero n rows = ap (λ k. skip k rows) (omega arith)
  skip-skip (suc m) n [] = skip_none n ∙ sym (skip_none (suc m + n))
  skip-skip (suc m) n (a ∷ rows) = skip-skip m n rows ∙ ap (λ k. skip k (a ∷ rows)) (later m n)

  skip_all : (n : ℕ) (rows : List A) → length rows ≤ n → skip n rows ≡ []
  unfolding skip
  skip_all zero [] h = refl
  skip_all zero (a ∷ rows) h = absurd (omega (arith, h))
  skip_all (suc n) [] h = refl
  skip_all (suc n) (a ∷ rows) h = skip_all n rows (omega (arith, h))

length-insert :
    {A : Type 0} (a : Listing A) (rows : List (Listing A))
    → length (insert a rows) ≡ suc (length rows)
unfolding insert
length-insert a [] = refl
length-insert a (b ∷ rows) = ground (arith, length-insert a rows)

length-order : {A : Type 0} (rows : List (Listing A)) → length (order rows) ≡ length rows
unfolding order
length-order [] = refl
length-order (a ∷ rows) = length-insert a (order rows) ∙ ap suc (length-order rows)

window_valid :
    (l o : ℕ) → 1 ≤ l → l ≤ 50 → window (some (pos l)) (some (pos o)) ≡ some (pos l, pos o)
unfolding window limit offset
window_valid l o h k = ground arith

next_offset-more :
    (o l t : ℕ)
    → o + l < half_i64
    → next_offset (pos o) (pos l) (pos t) ≡ (if ltb (o + l) t then some (pos (o + l)) else none)
unfolding next_offset wrap ◌+ℤ◌
next_offset-more o l t h = ground arith

module _ {A : Type 0} (host_id l : ℕ) (rows : List (Listing A)) (least : 1 ≤ l) (most : l ≤ 50)
    (room : length (of_host host_id rows) + 50 < half_i64) where
  abbrev all : List (Listing A)
  all = order (of_host host_id rows)

  spots-at :
      (o : ℕ)
      → o ≤ length (of_host host_id rows)
      → spots host_id (some (pos l)) (some (pos o)) rows
        ≡ ok (record {
          spots = first l (skip o all);
          next_offset =
              if ltb (o + l) (length (of_host host_id rows)) then some (pos (o + l)) else none;
          total = pos (length (of_host host_id rows));
        })
  unfolding spots count_for_host find_page_for_host
  spots-at o h =
      rw
        (
          spots,
          window_valid l o least most,
          next_offset-more o l (length (of_host host_id rows)) (omega (arith, h, room, most)),
        )
        refl

  -- What is left from an offset on.
  walk-skip :
      (fuel o : ℕ)
      → length (of_host host_id rows) < fuel + o
      → o ≤ length (of_host host_id rows)
      → walk host_id (some (pos l)) rows fuel (pos o) ≡ skip o all
  unfolding walk
  walk-skip zero o enough h = absurd (omega (arith, enough, h))
  walk-skip (suc fuel) o enough h =
      elim (Bool-cases (ltb (o + l) (length (of_host host_id rows)))) [
        | inl more ↦
            let rest : walk host_id (some (pos l)) rows fuel (pos (o + l)) ≡ skip (o + l) all =
              walk-skip fuel (o + l) (omega (arith, enough, least)) (ground arith) in
            rw (walk, spots-at o h, more, rest)
              (ap (λ r. first l (skip o all) ++ r) (sym (skip-skip o l all))
                ∙ first-skip l (skip o all))
        | inr last ↦
            let gone : skip l (skip o all) ≡ [] =
              skip-skip o l all
              ∙ skip_all (o + l) all (rw (length-order (of_host host_id rows)) (ground arith)) in
            rw (walk, spots-at o h, last)
              (ap (λ r. first l (skip o all) ++ r) (sym gone) ∙ first-skip l (skip o all))
      ]

-- A caller who asks for one window of a host's listings after another, each from the offset that the last one
-- named, is given every listing of the host that is not deleted, once and in order, however long it
-- goes on after one step for each of them: for each limit that is allowed, on rows that do not change in
-- between, where the host's listings are fewer than the `i64`s less 50.
pub walk-whole :
    {A : Type 0} (host_id l fuel : ℕ) (rows : List (Listing A))
    → 1 ≤ l
    → l ≤ 50
    → length (of_host host_id rows) + 50 < half_i64
    → length (of_host host_id rows) < fuel
    → walk host_id (some (pos l)) rows fuel (pos 0) ≡ order (of_host host_id rows)
unfolding skip
walk-whole host_id l fuel rows least most room enough =
    walk-skip host_id l rows least most room fuel 0 (omega arith) (omega arith)
