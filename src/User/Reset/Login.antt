-- ===== src/User/Reset/Login.antt =====
-- apps/services/user-service/src/service/user_service.rs: `authenticate` after `reset_password`.
use mathlib.Core.Option
use our_driveway.Prelude.{
  ℕ, ◌==◌, ◌≡◌, refl, sym, ap, ◌∙◌, Bool, true, some, List, [], ◌∷◌, arith, if◌then◌else◌,
  Bool-cases, inl, inr, find?, ==_iff,
}
use our_driveway.Prelude.Int.{ℤ, pos, ◌-ℤ◌, eqb_ℤ, i64}
use our_driveway.Prelude.Text.{Text, text_eq}
use our_driveway.Prelude.Result.{MyError, api, Result, ok, err}
use our_driveway.Shared.Keyed.{update_where}
use our_driveway.Shared.EmailTokens.{invalid}
use our_driveway.User.Rows.{User}
use our_driveway.User.Table.{
  Db, Stamp, UserRow, row_id, edit_user, patch_user, at_version, find_by_email, next_user_version,
  set_user_version,
}
use our_driveway.User.Service.{reset_patch, set_password, reset_password, authenticate}
use our_driveway.User.Reset.{after_reset, set_password_refused, set_password_done}
use our_driveway.User.Reset.Cases.{link, reset_password-set}

-- An update that the test does not see.
find?-update_where :
    {A : Type 0} (p test : A → Bool) (change : A → A)
    → ((a : A) → p (change a) ≡ p a)
    → (rows : List A)
    → find? p (update_where test change rows)
      ≡ Option.map (λ a. if test a then change a else a) (find? p rows)
unfolding update_where
find?-update_where p test change same [] = refl
find?-update_where p test change same (a ∷ rows) =
    ground (arith, same a, find?-update_where p test change same rows)

ok_pair :
    (x y : ℤ) (s t : Db)
    → ◌≡◌ {A = Result MyError (ℤ × Db)} (ok (x, s)) (ok (y, t))
    → (x ≡ y) × (s ≡ t)
ok_pair x y s t h = (cc, cc)

err_not_ok : (v : ℤ) (s : Db) → ◌≡◌ {A = Result MyError (ℤ × Db)} (err invalid) (ok (v, s)) → ⊥
err_not_ok v s h = cc

-- A transaction that answers has written the tables.
set_password-ok :
    (uid : ℕ) (minted_at v : ℤ) (password_hash : Text) (stamp : Stamp) (db db' : Db)
    → set_password uid minted_at password_hash stamp db ≡ ok (v, db')
    → db' ≡ after_reset uid minted_at password_hash stamp db v
set_password-ok uid minted_at v password_hash stamp db db' runs =
    elim (Bool-cases (eqb_ℤ (i64 (next_user_version uid db.users -ℤ pos 1)) minted_at)) [
      | inl t ↦
          let next = next_user_version uid db.users in
          let pair =
            ok_pair next v (after_reset uid minted_at password_hash stamp db next) db'
              (sym (set_password_done uid minted_at password_hash stamp db t) ∙ runs) in
          sym pair.1 ∙ ap (after_reset uid minted_at password_hash stamp db) pair.0
      | inr f ↦ absurd (
          err_not_ok v db'
            (sym (set_password_refused uid minted_at password_hash stamp db f) ∙ runs))
    ]

-- The account with the new password.
abbrev pub renewed_user : Text → ℤ → User → User
renewed_user password_hash v u = at_version v (patch_user (reset_patch password_hash) u)

module _ (uid : ℕ) (minted_at : ℤ) (password_hash email : Text) (stamp : Stamp) (db : Db)
    (r : UserRow) (own : row_id r ≡ uid)
    (found : find? (λ r. text_eq r.user.email email) db.users ≡ some r) where
  found_after :
      (v : ℤ)
      → find_by_email email (after_reset uid minted_at password_hash stamp db v).users
        ≡ some (renewed_user password_hash v r.user)
  unfolding find_by_email set_user_version patch_user
  found_after v =
      let here : (row_id r == uid) ≡ true = (==_iff (row_id r) uid).1 own in
      ap (Option.map (λ (r : UserRow). r.user)) (
        find?-update_where (λ r. text_eq r.user.email email) (λ r. row_id r == uid)
          (edit_user (at_version v)) (λ a. refl)
          (update_where (λ r. row_id r == uid) (edit_user (patch_user (reset_patch password_hash)))
            db.users)
        ∙ ap (Option.map (λ a. if row_id a == uid then edit_user (at_version v) a else a)) (
            find?-update_where (λ r. text_eq r.user.email email) (λ r. row_id r == uid)
              (edit_user (patch_user (reset_patch password_hash))) (λ a. refl) db.users))
      ∙ rw found (rw here (rw here refl))

authenticate_found :
    (fits : Text → Text → Bool) (email password_hash given : Text) (v : ℤ) (u : User) (db : Db)
    → find_by_email email db.users ≡ some (renewed_user password_hash v u)
    → authenticate fits email given db ≡ (
        if fits password_hash given
        then ok (renewed_user password_hash v u)
        else err (api 401 "Unauthorized"))
unfolding authenticate patch_user
authenticate_found fits email password_hash given v u db found =
    elim (Bool-cases (fits password_hash given)) [
      | inl t ↦ rw (authenticate, found, t) refl
      | inr f ↦ rw (authenticate, found, f) refl
    ]

-- After a reset that answered, a login under the account's address answers the account, at the version that
-- the reset answered, for a password that fits the new hash, and no other: whether or not the address had
-- been verified before.
pub reset_password-authenticate :
    (hash : Text → Result MyError Text) (fits : Text → Text → Bool) (uid n : ℕ)
    (password password_hash email given : Text) (stamp : Stamp) (v : ℤ) (db db' : Db) (r : UserRow)
    → row_id r ≡ uid
    → find? (λ r. text_eq r.user.email email) db.users ≡ some r
    → hash password ≡ ok password_hash
    → reset_password hash (link uid n) password stamp db ≡ ok (v, db')
    → authenticate fits email given db' ≡ (
        if fits password_hash given
        then ok (renewed_user password_hash v r.user)
        else err (api 401 "Unauthorized"))
reset_password-authenticate hash fits uid n password password_hash email given stamp v db db' r own
      found hashed runs =
    let ran = sym (reset_password-set hash uid n password password_hash stamp db hashed) ∙ runs in
    let it = set_password-ok uid (pos n) v password_hash stamp db db' ran in
    authenticate_found fits email password_hash given v r.user db' (
      ap (λ d. find_by_email email d.users) it
      ∙ found_after uid (pos n) password_hash email stamp db r own found v)
