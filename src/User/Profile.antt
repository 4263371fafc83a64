-- ===== src/User/Profile.antt =====
-- apps/services/user-service/src/service/user_service.rs: `update_user`, which edits the caller's own record or
-- sets a new password.
use mathlib.Core.Option
use our_driveway.Prelude.{
  ℕ, ◌&&◌, Bool, true, false, Option, none, some, List, [], ◌∷◌, leb, ◌-◌, if◌then◌else◌,
}
use our_driveway.Prelude.Int.{ℤ}
use our_driveway.Prelude.Text.{Text, text_eq}
use our_driveway.Prelude.Result.{MyError, api, Result, Tx, ◌>>=◌, ◌>>◌, return, require, context}
use our_driveway.User.Rows.{UserUpdated, UserEvent, User, default_patch, updated_patch}
use our_driveway.User.Table.{Db, Stamp, find_user, find_by_email, patch_by_id, announce}
use our_driveway.User.Service.{of_result, is_none, version_for, write_version}

pub record UpdateUserRequest : Type 0 where
  pub first_name : Option Text
  pub last_name : Option Text
  pub email : Option Text
  pub license_plates : Option (List Text)
  pub country : Option Text
  pub current_password : Option Text
  pub new_password : Option Text
  pub profile_picture : Option Text

-- No field of the edit form is there.
unfoldable pub password_alone : UpdateUserRequest → Bool
password_alone request =
    is_none request.first_name
    && is_none request.last_name
    && is_none request.email
    && is_none request.license_plates
    && is_none request.country
    && is_none request.profile_picture

-- `Country::into_inner`, with `str::to_ascii_uppercase`.
unfoldable pub upper : Text → Text
upper [] = []
upper (c ∷ s) = (if leb 97 c && leb c 122 then c - 32 else c) ∷ upper s

abbrev pub edit_of : ℕ → UpdateUserRequest → UserUpdated
edit_of user_id request = record {
  user_id = user_id;
  first_name = request.first_name;
  last_name = request.last_name;
  profile_picture = request.profile_picture;
  email = request.email;
  license_plates = request.license_plates;
  country = Option.map upper request.country;
}

-- The address that is asked for, if it is not the one that is there.
unfoldable pub changed_email : Option Text → User → Option Text
changed_email none u = none
changed_email (some email) u = elim (text_eq email u.email) [ true ↦ none | false ↦ some email ]

-- A new address is not verified.
abbrev pub unverify : ℕ → Option Text → Tx Db (Unit {0})
unverify id none = return tt
unverify id (some email) = patch_by_id id (record default_patch { email_verified = some false })

abbrev pub apply_update : User → Option Text → UserEvent → Tx Db (Unit {0})
apply_update existing new_hash (UserEvent.password_changed id) =
    patch_by_id existing.id (record default_patch { password = new_hash })
apply_update existing new_hash (UserEvent.updated e) = do
  unverify existing.id (changed_email e.email existing)
  patch_by_id existing.id (updated_patch e)
apply_update existing new_hash _ = return tt

-- The transaction of `update_user`.
unfoldable pub write_update : Stamp → User → UserEvent × Option Text → Tx Db ℤ
write_update stamp existing (event, new_hash) = do
  version ← version_for existing.id
  apply_update existing new_hash event
  write_version existing.id version
  announce stamp existing.id version event
  return version

-- `hash` and `fits` are `password::hash` and `password::verify`; the address is looked up in a later state,
-- `again`.
module _ (hash : Text → Result MyError Text) (fits : Text → Text → Bool) (read again : Db) where
  abbrev pub known_password : UpdateUserRequest → User → Tx Db (Unit {0})
  known_password request existing = do
    current ← context request.current_password (api 409 "Password required")
    require (fits existing.password current) (api 401 "Unauthorized")

  -- What an edit asks for when it changes the address.
  abbrev pub check_email : UpdateUserRequest → User → Option Text → Tx Db (Unit {0})
  check_email request existing none = return tt
  check_email request existing (some email) = do
    known_password request existing
    require (is_none (find_by_email email again.users)) (api 409 "Email already registered")

  -- The event and the new hash.
  abbrev pub decide : UpdateUserRequest → User → Option Text → Tx Db (UserEvent × Option Text)
  decide request existing (some new_password) = do
    require (password_alone request) (api 409 "One change at a time")
    known_password request existing
    password_hash ← of_result (hash new_password)
    return (UserEvent.password_changed existing.id, some password_hash)
  decide request existing none = do
    check_email request existing (changed_email request.email existing)
    return (UserEvent.updated (edit_of existing.id request), none)

  -- `update_user`
  unfoldable pub update_user : ℕ → UpdateUserRequest → Stamp → Tx Db ℤ
  update_user uid request stamp = do
    existing ← context (find_user uid read.users) (api 404 "Not Found")
    decided ← decide request existing request.new_password
    write_update stamp existing decided
