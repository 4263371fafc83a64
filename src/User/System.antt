-- ===== src/User/System.antt =====
-- apps/services/user-service/src: the handlers on one database, in any order.
pub mod Once
pub mod Requested
pub mod Spacing
use our_driveway.Prelude.{
  Bool-cases, inl, inr, any, ℕ, ◌≡◌, refl, Bool, if◌then◌else◌, Option, none, some, List, [], ◌∷◌,
}
use our_driveway.Prelude.Text.{Text, text_eq}
use our_driveway.Prelude.Result.{◌>>◌, require, api, MyError, Result, committed, Tx}
use our_driveway.Prelude.Keeping.{
  Keeps, Leads, Leads-return, Leads-require, Leads-committed, Keeps-committed,
}
use our_driveway.Shared.Keyed.{find_row}
use our_driveway.Shared.EmailTokens.{Verified}
use our_driveway.User.Rows.{User, UserEvent, user_id_of}
use our_driveway.User.Table.{Db, Stamp, row_id, find_by_email}
use our_driveway.User.Service.{
  resend_to, reset_mail_to, ask_for_mail, mail_to, kinds, SignupRequest, signup, verify_email,
  resend_verification, notifications_seen, dismiss_notification, notification_event,
  forgot_password, reset_password,
}
use our_driveway.User.Profile.{UpdateUserRequest, update_user}
use our_driveway.User.Sessions.{Minted, Fresh, issue, rotate, revoke}
use our_driveway.User.Keeping.{
  Stable, asks_mail, verify_email-Keeps, notification_event-Keeps, reset_password-Keeps,
}
use our_driveway.User.Keeping.Calls.{signup-Leads, update_user-Keeps}
use our_driveway.User.Keeping.SessionCalls.{issue-Keeps, rotate-Keeps, revoke-Keeps}

-- The hashers and the JWT library.
pub record Libraries : Type 0 where
  pub hash : Text → Result MyError Text
  pub fits : Text → Text → Bool
  pub token_hash : ℕ → Text
  pub mint : ℕ → Result MyError Minted

-- A request: what it carries, what it read before its transaction, and what it takes from outside.
pub data Call : Type 0 where
  signs_up : Db → SignupRequest → ℕ → Stamp → Call
  verifies : Result MyError Verified → Stamp → Call
  asks_again forgets : Db → Text → ℕ → Stamp → Call
  sees : ℕ → Stamp → Call
  dismisses : ℕ → Text → ℕ → Stamp → Call
  resets : Result MyError Verified → Text → Stamp → Call
  updates : Db → Db → ℕ → UpdateUserRequest → Stamp → Call
  logs_in : User → Fresh → Call
  refreshes : Db → ℕ → ℕ → Fresh → Call
  logs_out : Db → ℕ → ℕ → Stamp → Call

-- When a request asks for a mail.
abbrev pub asked_at : Call → ℕ
asked_at (asks_again read email now stamp) = now
asked_at (forgets read email now stamp) = now
asked_at _ = 0

of_mail : (u : User) → user_id_of (UserEvent.verification_requested (mail_to u)) ≡ u.id
unfolding user_id_of
of_mail u = refl

of_reset : (u : User) → user_id_of (UserEvent.password_reset_requested (mail_to u)) ≡ u.id
unfolding user_id_of
of_reset u = refl

module _ (lib : Libraries) where
  open lib use {hash, fits, token_hash, mint}

  -- What a request leaves in the tables.
  unfoldable pub run_call : Call → Db → Db
  run_call (signs_up read request user_id stamp) =
      committed (signup hash read request user_id stamp)
  run_call (verifies token stamp) = committed (verify_email token stamp)
  run_call (asks_again read email now stamp) = committed (resend_verification read email now stamp)
  run_call (forgets read email now stamp) = committed (forgot_password read email now stamp)
  run_call (sees uid stamp) = committed (notifications_seen uid stamp)
  run_call (dismisses uid kind subject_id stamp) =
      committed (dismiss_notification uid kind subject_id stamp)
  run_call (resets token password stamp) = committed (reset_password hash token password stamp)
  run_call (updates read again uid request stamp) =
      committed (update_user hash fits read again uid request stamp)
  run_call (logs_in u fresh) = committed (issue token_hash mint u fresh)
  run_call (refreshes read now old fresh) = committed (rotate token_hash mint read now old fresh)
  run_call (logs_out read now token stamp) = committed (revoke token_hash read now token stamp)

  -- The id of a new account is new.
  abbrev pub IsNew : Call → Db → Type 0
  IsNew (signs_up read request user_id stamp) db = find_row row_id user_id db.users ≡ none
  IsNew _ db = Unit

  module _ (P : Db → Type 0) (stable : Stable P) where
    -- The property is kept by a mail that is asked for at an instant.
    abbrev pub KeptByMail : ℕ → Type 0
    KeptByMail now =
        (id : ℕ) (stamp : Stamp) (event : UserEvent)
        → user_id_of event ≡ id
        → Keeps P (ask_for_mail id now stamp event)

    resend_to-Keeps :
        (now : ℕ) (stamp : Stamp) (o : Option User)
        → KeptByMail now
        → Keeps P (resend_to now stamp o)
    resend_to-Keeps now stamp none mails = Leads-return P P tt (λ db p. p)
    resend_to-Keeps now stamp (some u) mails = elim (Bool-cases u.email_verified) [
      | inl t ↦ record { apply = λ s p. rw t p }
      | inr f ↦ record {
        apply = λ s p. rw f (
            (mails u.id stamp (UserEvent.verification_requested (mail_to u)) (of_mail u)).apply s
              p);
      }
    ]

    reset_mail_to-Keeps :
        (now : ℕ) (stamp : Stamp) (o : Option User)
        → KeptByMail now
        → Keeps P (reset_mail_to now stamp o)
    reset_mail_to-Keeps now stamp none mails = Leads-return P P tt (λ db p. p)
    reset_mail_to-Keeps now stamp (some u) mails =
        mails u.id stamp (UserEvent.password_reset_requested (mail_to u)) (of_reset u)

    -- A request keeps what each statement and the queueing of a mail keep.
    pub run_call-keeps :
        (c : Call) (db : Db) → KeptByMail (asked_at c) → IsNew c db → P db → P (run_call c db)
    unfolding run_call resend_verification forgot_password notifications_seen dismiss_notification
        asks_mail
    run_call-keeps (signs_up read request user_id stamp) db mails new p =
        Leads-committed P (λ d. P d × (find_row row_id user_id d.users ≡ none))
          (signup hash read request user_id stamp) db
          (signup-Leads P stable hash read request user_id stamp) (p, new) p
    run_call-keeps (verifies token stamp) db mails new p =
        Keeps-committed P _ db (verify_email-Keeps P stable token stamp) p
    run_call-keeps (asks_again read email now stamp) db mails new p =
        Keeps-committed P _ db (resend_to-Keeps now stamp (find_by_email email read.users) mails) p
    run_call-keeps (forgets read email now stamp) db mails new p =
        Keeps-committed P _ db
          (reset_mail_to-Keeps now stamp (find_by_email email read.users) mails) p
    run_call-keeps (sees uid stamp) db mails new p =
        Keeps-committed P _ db
          (notification_event-Keeps P stable uid stamp (UserEvent.notifications_seen uid) refl) p
    run_call-keeps (dismisses uid kind subject_id stamp) db mails new p =
        Keeps-committed P _ db
          (Leads-require P P (any (λ k. text_eq k kind) kinds) (api 404 "Not Found") _ (
            notification_event-Keeps P stable uid stamp
              (UserEvent.notification_dismissed uid kind subject_id) refl))
          p
    run_call-keeps (resets token password stamp) db mails new p =
        Keeps-committed P _ db (reset_password-Keeps P stable hash token password stamp) p
    run_call-keeps (updates read again uid request stamp) db mails new p =
        Keeps-committed P _ db (update_user-Keeps P stable hash fits read again uid request stamp) p
    run_call-keeps (logs_in u fresh) db mails new p =
        Keeps-committed P _ db (issue-Keeps P stable token_hash mint u fresh) p
    run_call-keeps (refreshes read now old fresh) db mails new p =
        Keeps-committed P _ db (rotate-Keeps P stable token_hash mint read now old fresh) p
    run_call-keeps (logs_out read now token stamp) db mails new p =
        Keeps-committed P _ db (revoke-Keeps P stable token_hash read now token stamp) p

  -- Requests one after another, each account under a new id.
  pub data Reach (start : Db) : Db → Type 0 where
    here : Reach start start
    next : {db : Db} (c : Call) → Reach start db → IsNew c db → Reach start (run_call c db)
