-- ===== src/User/Service.antt =====
-- apps/services/user-service/src/service/user_service.rs: an account, and what is proved by mail. Each handler is
-- the transaction that it ends with; what it read before is `read`. The answers of the hasher and the clock
-- are arguments.
use our_driveway.Prelude.{
  ℕ, Bool, true, false, Option, none, some, List, [], ◌∷◌, any, if◌then◌else◌,
}
use our_driveway.Prelude.Int.{ℤ, pos, ◌-ℤ◌, eqb_ℤ, i64, leb_ℤ, sub_ℕ}
use our_driveway.Prelude.Text.{Text, codes, text_eq}
use our_driveway.Prelude.Result.{
  MyError, api, Result, ok, err, Tx, ◌>>=◌, ◌>>◌, return, gets, require, context,
}
use our_driveway.Shared.EmailTokens.{Verified, invalid, version_claim}
use our_driveway.User.Rows.{
  UserRegistered, MailRequested, UserEvent, User, registered_user, default_patch, UserPatch,
}
use our_driveway.User.Table.{
  Db, Stamp, find_user, find_by_email, upsert_user, patch_by_id, mail_requested_at,
  set_mail_requested_at, next_user_version, set_user_version, write_users, announce,
}
use our_driveway.User.Table.Tokens.{write_tokens, revoke_all_for_user}

abbrev pub of_result : {A : Type 0} → Result MyError A → Tx Db A
of_result (ok a) db = ok (a, db)
of_result (err e) db = err e

abbrev pub is_none : {A : Type 0} → Option A → Bool
is_none none = true
is_none (some a) = false

-- Reading the version under the row's lock, and writing it.
abbrev pub version_for : ℕ → Tx Db ℤ
version_for id = gets (λ db. next_user_version id db.users)

abbrev pub write_version : ℕ → ℤ → Tx Db (Unit {0})
write_version id version = write_users (set_user_version id version)

pub record SignupRequest : Type 0 where
  pub first_name : Text
  pub last_name : Text
  pub email : Text
  pub password : Text

-- `signup`; `hash` is `password::hash`.
unfoldable pub signup : (Text → Result MyError Text) → Db → SignupRequest → ℕ → Stamp → Tx Db ℤ
signup hash read request user_id stamp = do
  require (is_none (find_by_email request.email read.users)) (api 409 "Email already registered")
  password_hash ← of_result (hash request.password)
  let registered : UserRegistered = record {
    user_id = user_id;
    first_name = request.first_name;
    last_name = request.last_name;
    email = request.email;
  }
  version ← version_for user_id
  upsert_user (registered_user registered version password_hash)
  announce stamp user_id version (UserEvent.registered registered)
  return version

-- The user whose password it is; a hash is checked for an unknown address too, and never fits.
abbrev credentials : (Text → Text → Bool) → Text → Option User → Option User
credentials fits password none = none
credentials fits password (some u) = if fits u.password password then some u else none

abbrev confirmed : User → Result MyError User
confirmed u = if u.email_verified then ok u else err (api 403 "Email not verified")

-- `authenticate`; `fits` is `password::verify`.
unfoldable pub authenticate : (Text → Text → Bool) → Text → Text → Db → Result MyError User
authenticate fits email password read =
    elim (credentials fits password (find_by_email email read.users)) [
      | none ↦ err (api 401 "Unauthorized")
      | some u ↦ confirmed u
    ]

-- `verify_email`, on what the token proved.
unfoldable pub verify_email : Result MyError Verified → Stamp → Tx Db ℤ
verify_email token stamp = do
  proved ← of_result token
  found ← gets (λ db. find_user proved.user_id db.users)
  existing ← context found (api 404 "Not Found")
  version ← version_for proved.user_id
  patch_by_id proved.user_id (record default_patch { email_verified = some true })
  write_version proved.user_id version
  announce stamp proved.user_id version (UserEvent.email_verified proved.user_id)
  return version

-- `COOLDOWN`, in milliseconds.
abbrev pub cooldown : ℕ
cooldown = 120000

-- `may_send`
unfoldable pub may_send : Option ℕ → ℕ → Bool
may_send none now = true
may_send (some last) now = leb_ℤ (pos cooldown) (sub_ℕ now last)

-- The mail is queued, and the version that it carries is the row's.
unfoldable pub queue_mail : ℕ → ℤ → ℕ → Stamp → UserEvent → Bool → Tx Db (Unit {0})
queue_mail id version now stamp event false = return tt
queue_mail id version now stamp event true = do
  write_users (set_mail_requested_at id now)
  write_version id version
  announce stamp id version event

-- The transaction that `resend_verification` and `forgot_password` share.
unfoldable pub ask_for_mail : ℕ → ℕ → Stamp → UserEvent → Tx Db (Unit {0})
ask_for_mail id now stamp event = do
  version ← version_for id
  last ← gets (λ db. mail_requested_at id db.users)
  queue_mail id version now stamp event (may_send last now)

abbrev pub mail_to : User → MailRequested
mail_to u = record { user_id = u.id; email = u.email; first_name = u.first_name }

abbrev pub resend_to : ℕ → Stamp → Option User → Tx Db (Unit {0})
resend_to now stamp none = return tt
resend_to now stamp (some u) =
    if u.email_verified
    then return tt
    else ask_for_mail u.id now stamp (UserEvent.verification_requested (mail_to u))

-- `resend_verification`
unfoldable pub resend_verification : Db → Text → ℕ → Stamp → Tx Db (Unit {0})
resend_verification read email now stamp = resend_to now stamp (find_by_email email read.users)

abbrev pub reset_mail_to : ℕ → Stamp → Option User → Tx Db (Unit {0})
reset_mail_to now stamp none = return tt
reset_mail_to now stamp (some u) =
    ask_for_mail u.id now stamp (UserEvent.password_reset_requested (mail_to u))

-- `forgot_password`
unfoldable pub forgot_password : Db → Text → ℕ → Stamp → Tx Db (Unit {0})
forgot_password read email now stamp = reset_mail_to now stamp (find_by_email email read.users)

-- `notification_event`
unfoldable pub notification_event : ℕ → Stamp → UserEvent → Tx Db ℤ
notification_event uid stamp event = do
  version ← version_for uid
  write_version uid version
  announce stamp uid version event
  return version

-- `notifications_seen`
unfoldable pub notifications_seen : ℕ → Stamp → Tx Db ℤ
notifications_seen uid stamp = notification_event uid stamp (UserEvent.notifications_seen uid)

-- `kinds::ALL`
abbrev pub kinds : List Text
kinds = codes "rate_booking" ∷ codes "spot_booked" ∷ []

-- `dismiss_notification`
unfoldable pub dismiss_notification : ℕ → Text → ℕ → Stamp → Tx Db ℤ
dismiss_notification uid kind subject_id stamp = do
  require (any (λ k. text_eq k kind) kinds) (api 404 "Not Found")
  notification_event uid stamp (UserEvent.notification_dismissed uid kind subject_id)

abbrev pub reset_patch : Text → UserPatch
reset_patch password_hash = record default_patch {
  password = some password_hash;
  email_verified = some true;
}

-- The transaction of `reset_password`, for the version that the link was minted at.
unfoldable pub set_password : ℕ → ℤ → Text → Stamp → Tx Db ℤ
set_password user_id minted_at password_hash stamp = do
  next ← version_for user_id
  require (eqb_ℤ (i64 (next -ℤ pos 1)) minted_at) invalid
  patch_by_id user_id (reset_patch password_hash)
  write_version user_id next
  write_tokens (revoke_all_for_user user_id (codes "password reset"))
  announce stamp user_id next (UserEvent.password_changed user_id)
  return next

-- `reset_password`
unfoldable pub reset_password :
    (Text → Result MyError Text) → Result MyError Verified → Text → Stamp → Tx Db ℤ
reset_password hash token password stamp = do
  proved ← of_result token
  minted_at ← of_result (version_claim proved)
  password_hash ← of_result (hash password)
  set_password proved.user_id minted_at password_hash stamp
