-- ===== src/User/Reset/Cases.antt =====
-- apps/services/user-service/src/service/user_service.rs: `reset_password` with a link, on every branch.
use our_driveway.Prelude.{
  ℕ, ◌+◌, ◌<◌, ◌≡◌, refl, ap, ◌∙◌, true, false, some, arith, Bool-cases, inl, inr, ◌⊎◌, ◌≢◌,
}
use our_driveway.Prelude.Int.{ℤ, pos, ◌-ℤ◌, eqb_ℤ, eqb_ℤ_iff, i64, InWord, half_i64}
use our_driveway.Prelude.Text.{Text}
use our_driveway.Prelude.Result.{MyError, Result, ok, err}
use our_driveway.Shared.Versions.{max_ℤ}
use our_driveway.Shared.Keyed.{find_row}
use our_driveway.Shared.EmailTokens.{Verified, invalid, version_claim}
use our_driveway.User.Table.{Db, Stamp, UserRow, row_id, next_user_version}
use our_driveway.User.Service.{set_password, reset_password}
use our_driveway.User.Reset.{
  minted_lem, after_reset, set_password_refused, set_password_done, next_found, numbered_lem,
  after_reset-Reset, Reset,
}

-- The version of a row against that of a link.
at_link : (v : ℤ) (n : ℕ) → v ≡ pos n → eqb_ℤ (max_ℤ v (pos 0)) (pos n) ≡ true
at_link v n h = ground arith

not_there : (v : ℤ) (n : ℕ) → eqb_ℤ v (pos n) ≡ false → v ≢ pos n
not_there v n h = ground arith

elsewhere :
    (v : ℤ) (n : ℕ) → 0 < n → eqb_ℤ v (pos n) ≡ false → eqb_ℤ (max_ℤ v (pos 0)) (pos n) ≡ false
elsewhere v n p h = ground arith

-- What a link proves that was minted for an account at a version.
abbrev pub link : ℕ → ℕ → Result MyError Verified
link uid n = ok (record { user_id = uid; version = some (pos n) })

pub reset_password_unhashed :
    (hash : Text → Result MyError Text) (uid n : ℕ) (password : Text) (stamp : Stamp) (db : Db)
    (e : MyError)
    → hash password ≡ err e
    → reset_password hash (link uid n) password stamp db ≡ err e
unfolding reset_password version_claim
reset_password_unhashed hash uid n password stamp db e h = rw h refl

module _ (hash : Text → Result MyError Text) (uid n : ℕ) (password password_hash : Text)
    (stamp : Stamp) (db : Db) (hashed : hash password ≡ ok password_hash) where
  pub reset_password-set :
      reset_password hash (link uid n) password stamp db
      ≡ set_password uid (pos n) password_hash stamp db
  unfolding reset_password version_claim
  reset_password-set = rw hashed refl

  -- The version check, on a row that is there.
  pub link_test :
      (r : UserRow)
      → find_row row_id uid db.users ≡ some r
      → InWord half_i64 r.user.version
      → i64 (next_user_version uid db.users -ℤ pos 1) ≡ max_ℤ r.user.version (pos 0)
  link_test r found word =
      ap (λ v. i64 (v -ℤ pos 1)) (next_found uid (pos n) password_hash stamp db (some r) found)
      ∙ minted_lem r.user.version word

  -- A row elsewhere refuses the link.
  pub reset_password_refused :
      (r : UserRow)
      → find_row row_id uid db.users ≡ some r
      → InWord half_i64 r.user.version
      → eqb_ℤ (max_ℤ r.user.version (pos 0)) (pos n) ≡ false
      → reset_password hash (link uid n) password stamp db ≡ err invalid
  reset_password_refused r found word e =
      reset_password-set
      ∙ set_password_refused uid (pos n) password_hash stamp db
          (ap (λ v. eqb_ℤ v (pos n)) (link_test r found word) ∙ e)

  -- A link sets the password of an account that stands at its version, and is invalid for an
  -- account that stands at any other. When it sets it, the address counts as verified, the version
  -- is the next, every session of the account ends, the other accounts and their sessions stay as
  -- they were, and one event tells it: where the version is positive and short of the last `i64`,
  -- and the password is hashed.
  pub reset_password-cases :
      (r : UserRow)
      → find_row row_id uid db.users ≡ some r
      → InWord half_i64 r.user.version
      → 0 < n
      → n + 1 < half_i64
      → ((r.user.version ≡ pos n)
          × (db' : Db) × (reset_password hash (link uid n) password stamp db
              ≡ ok (pos (n + 1), db'))
          × Reset uid n password_hash stamp db db')
        ⊎ ((r.user.version ≢ pos n)
            × (reset_password hash (link uid n) password stamp db ≡ err invalid))
  reset_password-cases r found word positive room =
      elim (Bool-cases (eqb_ℤ r.user.version (pos n))) [
        | inl e ↦
            let stands : r.user.version ≡ pos n = (eqb_ℤ_iff r.user.version (pos n)).0 e in
            let v = numbered_lem uid n password_hash stamp db r found stands room in
            let test : eqb_ℤ (i64 (next_user_version uid db.users -ℤ pos 1)) (pos n) ≡ true =
              ap (λ v. eqb_ℤ v (pos n)) (link_test r found word)
              ∙ at_link r.user.version n stands in
            inl (
              stands,
              after_reset uid (pos n) password_hash stamp db (pos (n + 1)),
              reset_password-set
                  ∙ (set_password_done uid (pos n) password_hash stamp db test
                      ∙ ap (λ v. ok (v, after_reset uid (pos n) password_hash stamp db v)) v),
              after_reset-Reset uid n password_hash stamp db r found stands room,
            )
        | inr e ↦ inr (
          not_there r.user.version n e,
          reset_password_refused r found word (elsewhere r.user.version n positive e),
        )
      ]
