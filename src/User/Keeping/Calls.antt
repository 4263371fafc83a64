-- ===== src/User/Keeping/Calls.antt =====
-- apps/services/user-service/src/service: signing up and editing an account keep what the statements keep.
use our_driveway.Prelude.{ℕ, ◌≡◌, refl, not, Bool, false, Option, none, some}
use our_driveway.Prelude.Text.{Text}
use our_driveway.Prelude.Result.{MyError, api, Result, Tx, ◌>>=◌, ◌>>◌, return, require}
use our_driveway.Prelude.Keeping.{
  Leads, Keeps, Leads-bind, Leads-return, Leads-read, Leads-require, Leads-context,
  Leads-modify_last, Keeps-require_last, Keeps-assoc,
}
use our_driveway.Shared.Keyed.{find_row}
use our_driveway.User.Rows.{
  UserEvent, User, UserRegistered, registered_user, updated_patch, default_patch,
}
use our_driveway.User.Table.{
  Db, Stamp, row_id, next_user_version, upsert_user, taken_by_other, value_taken, find_user,
  find_by_email,
}
use our_driveway.User.Service.{SignupRequest, signup, is_none, of_result}
use our_driveway.User.Profile.{
  UpdateUserRequest, edit_of, password_alone, changed_email, update_user, write_update,
  apply_update, unverify, decide, known_password, check_email,
}
use our_driveway.User.Keeping.{
  Stable, asks_mail, Leads-of_result, Keeps-version_for, patch_by_id-Keeps, numbered-Keeps,
  announce-Keeps,
}

module _ (P : Db → Type 0) (stable : Stable P) where
  -- A new account, where its id is new.
  upsert_user-Leads :
      (u : User) → Leads (λ db. P db × (find_row row_id u.id db.users ≡ none)) P (upsert_user u)
  unfolding upsert_user
  upsert_user-Leads u =
      let New : Db → Type 0 = λ db. P db × (find_row row_id u.id db.users ≡ none) in
      Leads-read New P (λ db. taken_by_other u.id u.email db.users) _
        (λ taken.
          Leads-require New P (not taken) value_taken _
            (Leads-modify_last New P _ (λ db q. stable.inserted db u q.1 q.0)))

  pub signup-Leads :
      (hash : Text → Result MyError Text) (read : Db) (request : SignupRequest) (user_id : ℕ)
      (stamp : Stamp)
      → Leads
          (λ db. P db × (find_row row_id user_id db.users ≡ none))
          P
          (signup hash read request user_id stamp)
  unfolding signup asks_mail registered_user
  signup-Leads hash read request user_id stamp =
      let New : Db → Type 0 = λ db. P db × (find_row row_id user_id db.users ≡ none) in
      let e : UserRegistered = record {
        user_id = user_id;
        first_name = request.first_name;
        last_name = request.last_name;
        email = request.email;
      } in
      Leads-require New P (is_none (find_by_email request.email read.users))
        (api 409 "Email already registered") _
        (Leads-of_result New P (hash request.password) _ (λ password_hash.
          Leads-read New P (λ db. next_user_version user_id db.users) _
            (λ v.
              Leads-bind New P P (upsert_user (registered_user e v password_hash)) _
                (upsert_user-Leads (registered_user e v password_hash))
                (λ _. announce-Keeps P stable stamp user_id v (UserEvent.registered e) v refl))))

  unverify-Keeps : (id : ℕ) (email : Option Text) → Keeps P (unverify id email)
  unverify-Keeps id none = Leads-return P P tt (λ db p. p)
  unverify-Keeps id (some email) =
      patch_by_id-Keeps P stable id (record default_patch { email_verified = some false })

  apply_update-Keeps :
      (existing : User) (new_hash : Option Text) (event : UserEvent)
      → Keeps P (apply_update existing new_hash event)
  apply_update-Keeps existing new_hash (UserEvent.password_changed id) =
      patch_by_id-Keeps P stable existing.id (record default_patch { password = new_hash })
  apply_update-Keeps existing new_hash (UserEvent.updated e) =
      Leads-bind P P P _ _ (unverify-Keeps existing.id (changed_email e.email existing))
        (λ _. patch_by_id-Keeps P stable existing.id (updated_patch e))
  apply_update-Keeps existing new_hash _ = Leads-return P P tt (λ db p. p)

  write_update-Keeps :
      (stamp : Stamp) (existing : User) (event : UserEvent) (new_hash : Option Text)
      → asks_mail event ≡ false
      → Keeps P (write_update stamp existing (event, new_hash))
  unfolding write_update
  write_update-Keeps stamp existing event new_hash quiet = Keeps-version_for P existing.id _ (λ v w.
      Leads-bind P P P _ _ (apply_update-Keeps existing new_hash event)
        (λ _. numbered-Keeps P stable stamp existing.id v event w quiet))

  -- The request that is refused, or the checks that it passes.
  module _ (hash : Text → Result MyError Text) (fits : Text → Text → Bool) (read again : Db) where
    known_password-Keeps :
        (request : UpdateUserRequest) (existing : User)
        → Keeps P (known_password hash fits read again request existing)
    known_password-Keeps request existing =
        Leads-context P P request.current_password (api 409 "Password required") _ (λ current.
          Keeps-require_last P (fits existing.password current) (api 401 "Unauthorized"))

    check_email-Keeps :
        (request : UpdateUserRequest) (existing : User) (o : Option Text)
        → Keeps P (check_email hash fits read again request existing o)
    check_email-Keeps request existing none = Leads-return P P tt (λ db p. p)
    check_email-Keeps request existing (some email) =
        Leads-bind P P P _ _ (known_password-Keeps request existing) (λ _.
          Keeps-require_last P (is_none (find_by_email email again.users))
            (api 409 "Email already registered"))

    -- What is decided asks for no mail.
    decide-Keeps :
        {B : Type 0} (request : UpdateUserRequest) (existing : User) (o : Option Text)
        (f : UserEvent × Option Text → Tx Db B)
        → ((event : UserEvent) (new_hash : Option Text)
            → asks_mail event ≡ false
            → Keeps P (f (event, new_hash)))
        → Keeps P (decide hash fits read again request existing o >>= f)
    unfolding asks_mail
    decide-Keeps request existing none f h =
        let checked =
          check_email hash fits read again request existing
            (changed_email request.email existing) in
        let edit = UserEvent.updated (edit_of existing.id request) in
        Keeps-assoc P checked (λ _. return (edit, none)) f
          (Leads-bind P P P checked _
            (check_email-Keeps request existing (changed_email request.email existing))
            (λ _. h edit none refl))
    decide-Keeps request existing (some new_password) f h =
        let known = known_password hash fits read again request existing in
        let new_hash : Tx Db (UserEvent × Option Text) =
          of_result (hash new_password) >>= λ password_hash.
          return (UserEvent.password_changed existing.id, some password_hash) in
        let alone : Tx Db (Unit {0}) =
          require (password_alone request) (api 409 "One change at a time") in
        Keeps-assoc P alone (λ _. known >> new_hash) f
          (Leads-bind P P P alone _
            (Keeps-require_last P (password_alone request) (api 409 "One change at a time"))
            (λ _.
              Keeps-assoc P known (λ _. new_hash) f
                (Leads-bind P P P known _ (known_password-Keeps request existing) (λ _.
                  Keeps-assoc P (of_result (hash new_password))
                    (λ password_hash.
                      return (UserEvent.password_changed existing.id, some password_hash))
                    f
                    (Leads-of_result P P (hash new_password) _ (λ password_hash.
                      h (UserEvent.password_changed existing.id) (some password_hash) refl))))))

    pub update_user-Keeps :
        (uid : ℕ) (request : UpdateUserRequest) (stamp : Stamp)
        → Keeps P (update_user hash fits read again uid request stamp)
    unfolding update_user
    update_user-Keeps uid request stamp =
        Leads-context P P (find_user uid read.users) (api 404 "Not Found") _ (λ existing.
          decide-Keeps request existing request.new_password (write_update stamp existing)
            (λ event new_hash quiet. write_update-Keeps stamp existing event new_hash quiet))
