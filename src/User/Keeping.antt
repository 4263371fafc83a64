-- ===== src/User/Keeping.antt =====
-- apps/services/user-service/src/service: a property of the tables that each statement keeps is kept by each
-- handler that queues no mail.
pub mod Calls
pub mod SessionCalls
use our_driveway.Prelude.{ℕ, ◌==◌, not, ◌≡◌, refl, ap, Bool, true, false, Option, none, some, List}
use our_driveway.Prelude.Int.{pos, eqb_ℤ, i64, ◌-ℤ◌, ℤ, InWord, half_i64, i64-InWord}
use our_driveway.Prelude.Text.{Text, codes}
use our_driveway.Prelude.Result.{
  MyError, api, Result, ok, err, Tx, ◌>>=◌, ◌>>◌, return, gets, require,
}
use our_driveway.Prelude.Keeping.{
  Leads-read, Leads, Keeps, Leads-bind, Leads-return, Leads-gets, Leads-require, Leads-context,
  Leads-modify, Leads-modify_last,
}
use our_driveway.Shared.Versions.{next_version, max_ℤ, stored_or_zero}
use our_driveway.Shared.Keyed.{find_row, put, update_where}
use our_driveway.Shared.EmailTokens.{Verified, invalid, version_claim}
use our_driveway.Bus.Outbox.{Pending, enqueue}
use our_driveway.User.Rows.{UserEvent, User, UserPatch, default_patch, SessionEvent, RefreshToken}
use our_driveway.User.Table.{
  Aggregate, Payload, Envelope, UserRow, TokenRow, Db, Stamp, row_id, kept_user, edit_user,
  patch_user, at_version, upsert_user, patch_by_id, clashes, is_empty, set_user_version,
  next_user_version, server_error, value_taken, publish, announce, write_users, find_user,
}
use our_driveway.User.Table.Tokens.{revoke_all_for_user, upsert_token, write_tokens}
use our_driveway.User.Service.{
  reset_patch, of_result, version_for, write_version, SignupRequest, signup, verify_email,
  notification_event, set_password, reset_password,
}

-- An event that a request for a mail queues. `Registered` is mailed too, but no request asks for it.
unfoldable pub asks_mail : UserEvent → Bool
asks_mail (UserEvent.verification_requested e) = true
asks_mail (UserEvent.password_reset_requested e) = true
asks_mail _ = false

unfoldable pub is_mail : Payload → Bool
is_mail (Payload.of_user event) = asks_mail event
is_mail (Payload.of_session event) = false

-- What the statements keep.
pub record Stable (P : Db → Type 0) : Type 0 where
  pub patched :
      (db : Db) (id : ℕ) (patch : UserPatch)
      → P db
      → P (record db {
        users = update_where (λ r. row_id r == id) (edit_user (patch_user patch)) db.users;
      })
  pub numbered :
      (db : Db) (id : ℕ) (v : ℤ)
      → InWord half_i64 v
      → P db
      → P (record db {
        users = update_where (λ r. row_id r == id) (edit_user (at_version v)) db.users;
      })
  pub sessions : (db : Db) (rows : List TokenRow) → P db → P (record db { tokens = rows })
  pub published :
      (db : Db) (row : Pending Envelope)
      → is_mail row.payload.payload ≡ false
      → P db
      → P (record db { outbox = enqueue row db.outbox })
  pub inserted :
      (db : Db) (u : User)
      → find_row row_id u.id db.users ≡ none
      → P db
      → P (record db { users = put row_id (kept_user (find_row row_id u.id db.users) u) db.users })

pub both-Stable : (P Q : Db → Type 0) → Stable P → Stable Q → Stable (λ db. P db × Q db)
both-Stable P Q p q = record {
  patched = λ db id patch (a, b). (p.patched db id patch a, q.patched db id patch b);
  numbered = λ db id v w (a, b). (p.numbered db id v w a, q.numbered db id v w b);
  sessions = λ db rows (a, b). (p.sessions db rows a, q.sessions db rows b);
  published = λ db row quiet (a, b). (p.published db row quiet a, q.published db row quiet b);
  inserted = λ db u new (a, b). (p.inserted db u new a, q.inserted db u new b);
}

-- A version that is read is one of the machine's.
next_user_version-InWord :
    (id : ℕ) (rows : List UserRow) → InWord half_i64 (next_user_version id rows)
unfolding next_user_version next_version
next_user_version-InWord id rows = i64-InWord _

pub Leads-of_result :
    (Q P : Db → Type 0) {A B : Type 0} (r : Result MyError A) (f : A → Tx Db B)
    → ((a : A) → Leads Q P (f a))
    → Leads Q P (of_result r >>= f)
Leads-of_result Q P (ok a) f h = record { apply = λ s p. (h a).apply s p }
Leads-of_result Q P (err e) f h = record { apply = λ s p. tt }

module _ (P : Db → Type 0) where
  pub Keeps-version_for :
      {B : Type 0} (id : ℕ) (f : ℤ → Tx Db B)
      → ((v : ℤ) → InWord half_i64 v → Keeps P (f v))
      → Keeps P (version_for id >>= f)
  Keeps-version_for id f h =
      Leads-gets P P (λ db. next_user_version id db.users) f
        (λ s p. (h (next_user_version id s.users) (next_user_version-InWord id s.users)).apply s p)

module _ (P : Db → Type 0) (stable : Stable P) where
  open stable use {patched, numbered, sessions, published, inserted}

  pub patch_by_id-Keeps : (id : ℕ) (patch : UserPatch) → Keeps P (patch_by_id id patch)
  unfolding patch_by_id
  patch_by_id-Keeps id patch = Leads-require P P (not (is_empty patch)) server_error _ (
      Leads-read P P (λ db. clashes id patch.email db.users) _
        (λ clash.
          Leads-require P P (not clash) value_taken _
            (Leads-modify_last P P _ (λ db q. patched db id patch q))))

  pub write_version-Keeps : (id : ℕ) (v : ℤ) → InWord half_i64 v → Keeps P (write_version id v)
  unfolding set_user_version
  write_version-Keeps id v h = Leads-modify_last P P _ (λ db q. numbered db id v h q)

  pub write_tokens-Keeps :
      {A : Type 0} (f : List TokenRow → List TokenRow) (m : Tx Db A)
      → Keeps P m
      → Keeps P (write_tokens f >> m)
  write_tokens-Keeps f m h = Leads-modify P P P _ m (λ db q. sessions db (f db.tokens) q) h

  -- The end of a handler: the event, and the version as the answer.
  pub announce-Keeps :
      {A : Type 0} (stamp : Stamp) (id : ℕ) (v : ℤ) (event : UserEvent) (a : A)
      → asks_mail event ≡ false
      → Keeps P (announce stamp id v event >> return a)
  unfolding is_mail
  announce-Keeps stamp id v event a h =
      Leads-modify P P P _ _ (λ db q. published db _ h q) (Leads-return P P a (λ db q. q))

  -- Every handler ends so.
  pub numbered-Keeps :
      (stamp : Stamp) (id : ℕ) (v : ℤ) (event : UserEvent)
      → InWord half_i64 v
      → asks_mail event ≡ false
      → Keeps P (do write_version id v; announce stamp id v event; return v)
  numbered-Keeps stamp id v event h quiet =
      Leads-bind P P P (write_version id v) _ (write_version-Keeps id v h)
        (λ _. announce-Keeps stamp id v event v quiet)

  pub verify_email-Keeps :
      (token : Result MyError Verified) (stamp : Stamp) → Keeps P (verify_email token stamp)
  unfolding verify_email asks_mail
  verify_email-Keeps token stamp = Leads-of_result P P token _ (λ proved.
      Leads-read P P (λ db. find_user proved.user_id db.users) _
        (λ found. Leads-context P P found (api 404 "Not Found") _ (λ existing.
          Keeps-version_for P proved.user_id _ (λ v w.
            Leads-bind P P P _ _
              (patch_by_id-Keeps proved.user_id
                (record default_patch { email_verified = some true }))
              (λ _.
                numbered-Keeps stamp proved.user_id v (UserEvent.email_verified proved.user_id) w
                  refl)))))

  pub notification_event-Keeps :
      (uid : ℕ) (stamp : Stamp) (event : UserEvent)
      → asks_mail event ≡ false
      → Keeps P (notification_event uid stamp event)
  unfolding notification_event
  notification_event-Keeps uid stamp event quiet =
      Keeps-version_for P uid _ (λ v w. numbered-Keeps stamp uid v event w quiet)

  pub set_password-Keeps :
      (user_id : ℕ) (minted_at : ℤ) (password_hash : Text) (stamp : Stamp)
      → Keeps P (set_password user_id minted_at password_hash stamp)
  unfolding set_password asks_mail
  set_password-Keeps user_id minted_at password_hash stamp = Keeps-version_for P user_id _ (λ v w.
      Leads-require P P (eqb_ℤ (i64 (v -ℤ pos 1)) minted_at) invalid _ (
        Leads-bind P P P _ _ (patch_by_id-Keeps user_id (reset_patch password_hash)) (λ _.
          Leads-bind P P P _ _ (write_version-Keeps user_id v w) (λ _.
            write_tokens-Keeps (revoke_all_for_user user_id (codes "password reset")) _
              (announce-Keeps stamp user_id v (UserEvent.password_changed user_id) v refl)))))

  pub reset_password-Keeps :
      (hash : Text → Result MyError Text) (token : Result MyError Verified) (password : Text)
      (stamp : Stamp)
      → Keeps P (reset_password hash token password stamp)
  unfolding reset_password
  reset_password-Keeps hash token password stamp = Leads-of_result P P token _ (λ proved.
      Leads-of_result P P (version_claim proved) _ (λ minted_at.
        Leads-of_result P P (hash password) _
          (λ password_hash. set_password-Keeps proved.user_id minted_at password_hash stamp)))
