-- ===== src/User/Rows.antt =====
-- shared/src/domain_models/user and shared/src/events: the rows of users and of their sessions, and what is
-- published about them.
use our_driveway.Prelude.{ℕ, Bool, false, Option, none, List, []}
use our_driveway.Prelude.Int.{ℤ}
use our_driveway.Prelude.Text.{Text}

pub record UserRegistered : Type 0 where
  pub user_id : ℕ
  pub first_name : Text
  pub last_name : Text
  pub email : Text

pub record UserUpdated : Type 0 where
  pub user_id : ℕ
  pub first_name : Option Text
  pub last_name : Option Text
  pub profile_picture : Option Text
  pub email : Option Text
  pub license_plates : Option (List Text)
  pub country : Option Text

-- `VerificationRequested` and `PasswordResetRequested`, which have the same fields.
pub record MailRequested : Type 0 where
  pub user_id : ℕ
  pub email : Text
  pub first_name : Text

pub data UserEvent : Type 0 where
  registered : UserRegistered → UserEvent
  updated : UserUpdated → UserEvent
  password_changed email_verified : ℕ → UserEvent
  verification_requested password_reset_requested : MailRequested → UserEvent
  notifications_seen : ℕ → UserEvent
  notification_dismissed : ℕ → Text → ℕ → UserEvent

-- `UserEvent::user_id`
unfoldable pub user_id_of : UserEvent → ℕ
user_id_of (UserEvent.registered e) = e.user_id
user_id_of (UserEvent.updated e) = e.user_id
user_id_of (UserEvent.password_changed user_id) = user_id
user_id_of (UserEvent.email_verified user_id) = user_id
user_id_of (UserEvent.verification_requested e) = e.user_id
user_id_of (UserEvent.password_reset_requested e) = e.user_id
user_id_of (UserEvent.notifications_seen user_id) = user_id
user_id_of (UserEvent.notification_dismissed user_id kind subject_id) = user_id

pub record User : Type 0 where
  pub id : ℕ
  pub version : ℤ
  pub first_name : Text
  pub last_name : Text
  pub email : Text
  pub password : Text
  pub profile_picture : Option Text
  pub license_plates : List Text
  pub email_verified : Bool
  pub country : Option Text

-- `User::registered`
unfoldable pub registered_user : UserRegistered → ℤ → Text → User
registered_user e version password_hash = record {
  id = e.user_id;
  version = version;
  first_name = e.first_name;
  last_name = e.last_name;
  email = e.email;
  password = password_hash;
  profile_picture = none;
  license_plates = [];
  email_verified = false;
  country = none;
}

pub record UserPatch : Type 0 where
  pub first_name : Option Text
  pub last_name : Option Text
  pub email : Option Text
  pub password : Option Text
  pub profile_picture : Option Text
  pub license_plates : Option (List Text)
  pub email_verified : Option Bool
  pub country : Option Text

-- `UserPatch::default`
abbrev pub default_patch : UserPatch
default_patch = record {
  first_name = none;
  last_name = none;
  email = none;
  password = none;
  profile_picture = none;
  license_plates = none;
  email_verified = none;
  country = none;
}

-- `From<UserUpdated> for UserPatch`
abbrev pub updated_patch : UserUpdated → UserPatch
updated_patch e = record default_patch {
  first_name = e.first_name;
  last_name = e.last_name;
  email = e.email;
  profile_picture = e.profile_picture;
  license_plates = e.license_plates;
  country = e.country;
}

pub record RefreshTokenIssued : Type 0 where
  pub token_id : ℕ
  pub user_id : ℕ
  pub token_hash : Text
  pub jti : ℕ
  pub expires_at : ℕ

pub record RefreshTokenRotated : Type 0 where
  pub old_token_hash : Text
  pub token_id : ℕ
  pub user_id : ℕ
  pub token_hash : Text
  pub jti : ℕ
  pub expires_at : ℕ

pub record RefreshTokenRevoked : Type 0 where
  pub token_hash : Text
  pub reason : Text

pub data SessionEvent : Type 0 where
  issued : RefreshTokenIssued → SessionEvent
  rotated : RefreshTokenRotated → SessionEvent
  revoked : RefreshTokenRevoked → SessionEvent

pub record RefreshToken : Type 0 where
  pub id : ℕ
  pub user_id : ℕ
  pub token_hash : Text
  pub jti : ℕ
  pub created_at : ℕ
  pub expires_at : ℕ
  pub revoked : Bool
  pub revoked_reason : Option Text

-- `RefreshToken::issued`
abbrev pub issued_token : RefreshTokenIssued → ℕ → RefreshToken
issued_token e at = record {
  id = e.token_id;
  user_id = e.user_id;
  token_hash = e.token_hash;
  jti = e.jti;
  created_at = at;
  expires_at = e.expires_at;
  revoked = false;
  revoked_reason = none;
}

-- `RefreshToken::rotated`
abbrev pub rotated_token : RefreshTokenRotated → ℕ → RefreshToken
rotated_token e at = record {
  id = e.token_id;
  user_id = e.user_id;
  token_hash = e.token_hash;
  jti = e.jti;
  created_at = at;
  expires_at = e.expires_at;
  revoked = false;
  revoked_reason = none;
}

pub record RefreshTokenPatch : Type 0 where
  pub revoked : Option Bool
  pub revoked_reason : Option Text
