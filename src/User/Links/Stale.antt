-- ===== src/User/Links/Stale.antt =====
-- apps/services/user-service/src/service/user_service.rs: a link that was mailed to an address that the account
-- has no more.
use our_driveway.Prelude.{
  ◌==◌, ◌≡◌, refl, sym, ap, ◌∙◌, subst, Bool, true, false, Option, none, some,
}
use our_driveway.Prelude.Int.{ℤ}
use our_driveway.Prelude.Text.{Text, text_eq}
use our_driveway.Prelude.Result.{MyError, api, Result, ok, ◌>>=◌}
use our_driveway.Prelude.Keeping.{
  Left, Leads, Keeps, Leads-bind, Leads-read, Leads-context, Keeps-require_last, Leads-assoc,
}
use our_driveway.Shared.Keyed.{find_row, update_where}
use our_driveway.User.Rows.{User, UserEvent, default_patch, updated_patch}
use our_driveway.User.Table.{
  Db, Stamp, UserRow, row_id, edit_user, patch_user, patch_by_id, next_user_version, find_user,
  find_by_email,
}
use our_driveway.User.Service.{is_none, verify_email}
use our_driveway.User.Links.{
  Stands, Stands-edit, Stands-numbered, numbered-Stands, patch_by_id-Stands, At, Any, Unverified,
  after_verify, verify_email-answers,
}
use our_driveway.User.Profile.{
  UpdateUserRequest, update_user, write_update, apply_update, unverify, changed_email, edit_of,
  decide, check_email,
}

pub changed_other :
    (email : Text) (u : User)
    → text_eq email u.email ≡ false
    → changed_email (some email) u ≡ some email
unfolding changed_email
changed_other email u e =
    ap (λ b. elim b as (λ _. Option Text) [ true ↦ none | false ↦ some email ]) e

-- An edit of the account that `seen` was read of, with another address.
module _ (hash : Text → Result MyError Text) (fits : Text → Text → Bool) (read again : Db)
    (request : UpdateUserRequest) (stamp : Stamp) (email : Text) (seen : UserRow)
    (asked : request.email ≡ some email) (other : text_eq email seen.user.email ≡ false) where
  abbrev There : Db → Type 0
  There = Stands seen.user.id Any

  abbrev Moved : Db → Type 0
  Moved = Stands seen.user.id (At email false)

  unverified : Leads There (Stands seen.user.id Unverified) (unverify seen.user.id (some email))
  unfolding patch_user
  unverified =
      patch_by_id-Stands seen.user.id Any Unverified
        (record default_patch { email_verified = some false }) (λ u t. refl)

  edited :
      Leads
        (Stands seen.user.id Unverified)
        Moved
        (patch_by_id seen.user.id (updated_patch (edit_of seen.user.id request)))
  unfolding patch_user
  edited =
      patch_by_id-Stands seen.user.id Unverified (At email false)
        (updated_patch (edit_of seen.user.id request)) (λ u t. (rw asked refl, t))

  changed : changed_email request.email seen.user ≡ some email
  changed = ap (λ o. changed_email o seen.user) asked ∙ changed_other email seen.user other

  applied :
      Leads There Moved
        (apply_update seen.user none (UserEvent.updated (edit_of seen.user.id request)))
  applied =
      Leads-bind There Moved (Stands seen.user.id Unverified)
        (unverify seen.user.id (changed_email request.email seen.user)) _
        (subst (λ o. Leads There (Stands seen.user.id Unverified) (unverify seen.user.id o))
          (sym changed) unverified)
        (λ _. edited)

  written :
      Leads There Moved
        (write_update stamp seen.user (UserEvent.updated (edit_of seen.user.id request), none))
  unfolding write_update
  written =
      Leads-read There Moved (λ db. next_user_version seen.user.id db.users) _
        (λ v. Leads-bind There Moved Moved _ _ applied (λ _.
          numbered-Stands seen.user.id (At email false) (λ u w t. t) stamp v
            (UserEvent.updated (edit_of seen.user.id request))))

  checked : Keeps There (check_email hash fits read again request seen.user (some email))
  checked =
      Leads-bind There There There _ _
        (Leads-context There There request.current_password (api 409 "Password required") _
          (λ current.
            Keeps-require_last There (fits seen.user.password current) (api 401 "Unauthorized")))
        (λ _.
          Keeps-require_last There (is_none (find_by_email email again.users))
            (api 409 "Email already registered"))

  updated :
      (alone : request.new_password ≡ none)
      → find_row row_id seen.user.id read.users ≡ some seen
      → Leads There Moved (update_user hash fits read again seen.user.id request stamp)
  unfolding update_user find_user
  updated alone known =
      let decided : Leads There Moved
          (decide hash fits read again request seen.user none >>= write_update stamp seen.user) =
        Leads-assoc Moved There
          (check_email hash fits read again request seen.user
            (changed_email request.email seen.user))
          _ _
          (Leads-bind There Moved There _ _
            (subst (λ o. Keeps There (check_email hash fits read again request seen.user o))
              (sym changed) checked)
            (λ _. written)) in
      record { apply = λ db s. rw (known, alone) (decided.apply db s) }

-- Once an edit has changed the address of an account, the new address is not verified, and a link that was mailed
-- to the address before, which names the account and no version, verifies it.
pub verify_email_stale :
    (hash : Text → Result MyError Text) (fits : Text → Text → Bool) (read again db db' : Db)
    (request : UpdateUserRequest) (stamp stamp' : Stamp) (email : Text) (seen row : UserRow) (v : ℤ)
    → request.email ≡ some email
    → text_eq email seen.user.email ≡ false
    → request.new_password ≡ none
    → find_row row_id seen.user.id read.users ≡ some seen
    → find_row row_id seen.user.id db.users ≡ some row
    → update_user hash fits read again seen.user.id request stamp db ≡ ok (v, db')
    → Stands seen.user.id (At email false) db'
      × (w : ℤ) × (db'' : Db) × (verify_email
            (ok (record { user_id = seen.user.id; version = none }))
            stamp'
            db'
          ≡ ok (w, db''))
      × Stands seen.user.id (At email true) db''
unfolding patch_user
verify_email_stale hash fits read again db db' request stamp stamp' email seen row v asked other
      alone known there runs =
    let id = seen.user.id in
    let moves = updated hash fits read again request stamp email seen asked other alone known in
    let moved : Stands id (At email false) db' =
      subst (Left (Stands id (At email false))) runs
        (moves.apply db (record { row = row; found = there; holds = tt })) in
    let w = next_user_version id db'.users in
    let verified : Db = record db' {
      users =
          update_where (λ r. row_id r == id)
            (edit_user (patch_user (record default_patch { email_verified = some true })))
            db'.users;
    } in
    let patched : Stands id (At email true) verified =
      Stands-edit id (At email false) (At email true)
        (patch_user (record default_patch { email_verified = some true })) db' (λ u. refl)
        (λ u t. (t.0, refl)) moved in
    let numbered = Stands-numbered id (At email true) (λ u w t. t) w verified patched in
    (
      moved,
      w,
      after_verify id stamp' db' w,
      verify_email-answers id stamp' db' moved.row none moved.found,
      record { row = numbered.row; found = numbered.found; holds = numbered.holds },
    )
