-- ===== src/User/Table.antt =====
-- apps/services/user-service/src/repository: the tables `app_user` and `refresh_token`, and the `_outbox`
-- beside them. A statement that a constraint refuses answers with the error that rolls back.
pub mod Tokens
use mathlib.Core.Option
use our_driveway.Prelude.{
  ℕ, ◌==◌, ltb, not, ◌&&◌, Bool, true, false, Option, none, some, List, any, find?, keep, given,
  or_else,
}
use our_driveway.Prelude.Int.{ℤ, pos}
use our_driveway.Prelude.Text.{Text, text_eq}
use our_driveway.Prelude.Result.{MyError, api, Tx, ◌>>=◌, ◌>>◌, gets, modify, require}
use our_driveway.Shared.Versions.{next_version, set_version}
use our_driveway.Shared.Keyed.{find_row, put, update_where}
use our_driveway.Bus.Outbox.{Pending, enqueue}
use our_driveway.User.Rows.{
  UserEvent, User, UserPatch, SessionEvent, RefreshToken, RefreshTokenPatch,
}

-- `user:<id>` and `refresh_token:<id>`.
pub data Aggregate : Type 0 where
  user refresh_token : ℕ → Aggregate

-- The payloads of the streams USERS and SESSIONS; the subject of each names a user.
pub data Payload : Type 0 where
  of_user : UserEvent → Payload
  of_session : SessionEvent → Payload

pub record Envelope : Type 0 where
  pub subject : ℕ
  pub aggregate : Aggregate
  pub version : ℤ
  pub occurred_at : ℕ
  pub actor_id : Option ℕ
  pub payload : Payload

-- A row of `app_user`: the columns of `User`, and the instant of the last mail.
pub record UserRow : Type 0 where
  pub user : User
  pub mail_requested_at : Option ℕ

-- A row of `refresh_token`: the columns of `RefreshToken`, and its version.
pub record TokenRow : Type 0 where
  pub token : RefreshToken
  pub version : ℤ

pub record Db : Type 0 where
  pub users : List UserRow
  pub tokens : List TokenRow
  pub outbox : List (Pending Envelope)

-- The id and the instants that `Envelope::new` and the outbox row take from outside.
pub record Stamp : Type 0 where
  pub event_id : ℕ
  pub occurred_at : ℕ
  pub created_at : ℕ

abbrev pub row_id : UserRow → ℕ
row_id r = r.user.id

abbrev pub token_row_id : TokenRow → ℕ
token_row_id t = t.token.id

abbrev pub server_error : MyError
server_error = api 500 "Internal Server Error"

-- What the answer to a unique violation says.
abbrev pub value_taken : MyError
value_taken = api 409 "Conflict"

abbrev pub user_of : UserRow → User
user_of r = r.user

-- `UserRepository::find_by_id`
unfoldable pub find_user : ℕ → List UserRow → Option User
find_user id rows = Option.map user_of (find_row row_id id rows)

-- `UserRepository::find_by_email`
unfoldable pub find_by_email : Text → List UserRow → Option User
find_by_email email rows = Option.map user_of (find? (λ r. text_eq r.user.email email) rows)

-- `app_user_email_idx`: another row has the address.
unfoldable pub taken_by_other : ℕ → Text → List UserRow → Bool
taken_by_other id email rows = any (λ r. not (row_id r == id) && text_eq r.user.email email) rows

-- What an upsert leaves alone: `mail_requested_at`, and the columns that the row has `None` in.
abbrev pub kept_user : Option UserRow → User → UserRow
kept_user old u = record {
  user = record u {
    profile_picture =
        or_else u.profile_picture (Option.bind old (λ (r : UserRow). r.user.profile_picture));
    country = or_else u.country (Option.bind old (λ (r : UserRow). r.user.country));
  };
  mail_requested_at = Option.bind old (λ (r : UserRow). r.mail_requested_at);
}

abbrev pub write_users : (List UserRow → List UserRow) → Tx Db (Unit {0})
write_users f = modify (λ db. record db { users = f db.users })

-- `UserRepository::upsert`
unfoldable pub upsert_user : User → Tx Db (Unit {0})
upsert_user u = do
  taken ← gets (λ db. taken_by_other u.id u.email db.users)
  require (not taken) value_taken
  write_users (λ rows. put row_id (kept_user (find_row row_id u.id rows) u) rows)

abbrev is_none {ℓ} : {A : Type ℓ} → Option A → Bool
is_none none = true
is_none (some a) = false

-- A patch that names no column, which is no statement.
unfoldable pub is_empty : UserPatch → Bool
is_empty patch =
    is_none patch.first_name
    && is_none patch.last_name
    && is_none patch.email
    && is_none patch.password
    && is_none patch.profile_picture
    && is_none patch.license_plates
    && is_none patch.email_verified
    && is_none patch.country

-- The `SET` list of a `UserPatch`.
unfoldable pub patch_user : UserPatch → User → User
patch_user patch u = record u {
  first_name = given patch.first_name u.first_name;
  last_name = given patch.last_name u.last_name;
  email = given patch.email u.email;
  password = given patch.password u.password;
  profile_picture = or_else patch.profile_picture u.profile_picture;
  license_plates = given patch.license_plates u.license_plates;
  email_verified = given patch.email_verified u.email_verified;
  country = or_else patch.country u.country;
}

abbrev pub edit_user : (User → User) → UserRow → UserRow
edit_user f r = record r { user = f r.user }

-- The statement would give the row an address that another row has.
unfoldable pub clashes : ℕ → Option Text → List UserRow → Bool
clashes id none rows = false
clashes id (some email) rows = any (λ r. row_id r == id) rows && taken_by_other id email rows

-- `UserRepository::patch`
unfoldable pub patch_by_id : ℕ → UserPatch → Tx Db (Unit {0})
patch_by_id id patch = do
  require (not (is_empty patch)) server_error
  clash ← gets (λ db. clashes id patch.email db.users)
  require (not clash) value_taken
  write_users (update_where (λ r. row_id r == id) (edit_user (patch_user patch)))

abbrev pub mailed_at : UserRow → Option ℕ
mailed_at r = r.mail_requested_at

-- `UserRepository::mail_requested_at`
unfoldable pub mail_requested_at : ℕ → List UserRow → Option ℕ
mail_requested_at id rows = Option.bind (find_row row_id id rows) mailed_at

-- `UserRepository::set_mail_requested_at`
unfoldable pub set_mail_requested_at : ℕ → ℕ → List UserRow → List UserRow
set_mail_requested_at id at =
    update_where (λ r. row_id r == id) (λ r. record r { mail_requested_at = some at })

abbrev pub version_of_user : UserRow → ℤ
version_of_user r = r.user.version

-- `next_version!` and `set_version!` on the two tables.
unfoldable pub next_user_version : ℕ → List UserRow → ℤ
next_user_version id rows = next_version (Option.map version_of_user (find_row row_id id rows))

abbrev pub at_version : ℤ → User → User
at_version v u = record u { version = set_version u.version v }

unfoldable pub set_user_version : ℕ → ℤ → List UserRow → List UserRow
set_user_version id v = update_where (λ r. row_id r == id) (edit_user (at_version v))

-- `outbox::enqueue` of an envelope on the subject of a user.
abbrev pub publish : Stamp → ℕ → Aggregate → ℤ → Payload → Tx Db (Unit {0})
publish stamp user_id aggregate version payload = modify (λ db. record db {
  outbox =
      enqueue
        (record {
          id = stamp.event_id;
          payload = record {
            subject = user_id;
            aggregate = aggregate;
            version = version;
            occurred_at = stamp.occurred_at;
            actor_id = some user_id;
            payload = payload;
          };
          created_at = stamp.created_at;
        })
        db.outbox;
})

-- An event about a user, with the user as its actor.
abbrev pub announce : Stamp → ℕ → ℤ → UserEvent → Tx Db (Unit {0})
announce stamp user_id version event =
    publish stamp user_id (Aggregate.user user_id) version (Payload.of_user event)
