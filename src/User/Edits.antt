-- ===== src/User/Edits.antt =====
-- apps/services/user-service/src/service/user_service.rs: an edit that names nothing.
use our_driveway.Prelude.{ℕ, ◌≡◌, refl, Bool, Option, none, some}
use our_driveway.Prelude.Text.{Text}
use our_driveway.Prelude.Result.{MyError, Result, err}
use our_driveway.User.Rows.{User}
use our_driveway.User.Table.{Db, Stamp, find_user, patch_by_id, is_empty, server_error}
use our_driveway.User.Profile.{UpdateUserRequest, update_user, write_update, changed_email}

-- A request with no field but, where it has it, the current password.
abbrev pub nothing : Option Text → UpdateUserRequest
nothing current = record {
  first_name = none;
  last_name = none;
  email = none;
  license_plates = none;
  country = none;
  current_password = current;
  new_password = none;
  profile_picture = none;
}

-- An edit that names nothing is answered with a server error, whatever else it carries: the account is found, and
-- then the update has no column to write.
pub update_user-nothing :
    (hash : Text → Result MyError Text) (fits : Text → Text → Bool) (read again db : Db) (uid : ℕ)
    (u : User) (current : Option Text) (stamp : Stamp)
    → find_user uid read.users ≡ some u
    → update_user hash fits read again uid (nothing current) stamp db ≡ err server_error
unfolding update_user write_update changed_email patch_by_id is_empty
update_user-nothing hash fits read again db uid u current stamp found = rw (found, update_user) refl
