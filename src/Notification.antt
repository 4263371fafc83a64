-- ===== src/Notification.antt =====
-- apps/services/notification-service/src and shared/src/notification.rs: the mails that events of users ask for. The
-- provider's client is an argument.
pub mod ResetLink
mod Tests
use our_driveway.Prelude.{
  ℕ, Bool, true, false, Option, none, some, List, [], ◌∷◌, ◌++◌, if◌then◌else◌,
}
use our_driveway.Prelude.Int.{ℤ}
use our_driveway.Prelude.Text.{Text, codes}
use our_driveway.Prelude.Result.{MyError, Result, ok, err}
use our_driveway.Shared.EmailTokens.{Purpose, TokenLibrary, mint}
use our_driveway.User.Rows.{UserEvent}
use our_driveway.User.Table.{Payload, Envelope}

-- The fields of the two kinds of mail, where `url` is `verification_url` or `reset_url`.
pub record Fields : Type 0 where
  pub to : Text
  pub url : Text
  pub first_name : Option Text
  pub company_name : Option Text

pub data Mail : Type 0 where
  verify_email reset_password : Fields → Mail

-- `Mail::to`
unfoldable pub recipient : Mail → Text
recipient (Mail.verify_email f) = f.to
recipient (Mail.reset_password f) = f.to

pub record Config : Type 0 where
  pub notifications_enabled : Bool
  pub mail_from : Text
  pub app_base_url : Text
  pub company_name : Text
  pub email_token_secret : Text
  pub verify_token_ttl_secs : ℤ
  pub reset_token_ttl_secs : ℤ
  pub template_email_verification : Text
  pub template_password_reset : Text

-- `insert_opt`
abbrev insert_opt : Text → Option Text → List (Text × Text) → List (Text × Text)
insert_opt key none vars = vars
insert_opt key (some value) vars = (key, value) ∷ vars

-- What both kinds of mail insert besides the address of their link.
abbrev optional : Fields → List (Text × Text)
optional f =
    insert_opt (codes "first_name") f.first_name
      (insert_opt (codes "company_name") f.company_name [])

-- `variables`
unfoldable pub variables : Mail → List (Text × Text)
variables (Mail.verify_email f) = (codes "verification_url", f.url) ∷ optional f
variables (Mail.reset_password f) = (codes "reset_url", f.url) ∷ optional f

-- `subject`
unfoldable pub subject : Mail → Text
subject (Mail.verify_email f) = codes "Verify your email address"
subject (Mail.reset_password f) = codes "Reset your password"

-- What the provider is asked to send.
pub record Email : Type 0 where
  pub from : Text
  pub to : Text
  pub subject : Text
  pub template : Text
  pub variables : List (Text × Text)
  pub idempotency_key : ℕ

module _ (config : Config) where
  unfoldable pub template_id : Mail → Text
  template_id (Mail.verify_email f) = config.template_email_verification
  template_id (Mail.reset_password f) = config.template_password_reset

  unfoldable pub email_of : Mail → ℕ → Email
  email_of mail event_id = record {
    from = config.mail_from;
    to = recipient mail;
    subject = subject mail;
    template = template_id mail;
    variables = variables mail;
    idempotency_key = event_id;
  }

  -- `Mailer::send`; `client` is the provider's.
  unfoldable pub send : (Email → Result MyError (Unit {0})) → Mail → ℕ → Result MyError (Unit {0})
  send client mail event_id =
      if config.notifications_enabled then client (email_of mail event_id) else ok tt

  module _ (lib : TokenLibrary) (now : ℤ) where
    abbrev with_token : Text → Result MyError Text → Result MyError Text
    with_token path (ok token) = ok (config.app_base_url ++ (path ++ token))
    with_token path (err e) = err e

    unfoldable pub verification_url : ℕ → Result MyError Text
    verification_url user_id = with_token (codes "/verify-email?token=") (
        mint lib config.email_token_secret now user_id Purpose.verify_email
          config.verify_token_ttl_secs none)

    unfoldable pub reset_url : ℕ → ℤ → Result MyError Text
    reset_url user_id version = with_token (codes "/reset-password?token=") (
        mint lib config.email_token_secret now user_id Purpose.reset_password
          config.reset_token_ttl_secs (some version))

    abbrev fields : Text → Text → Text → Fields
    fields to url first_name = record {
      to = to;
      url = url;
      first_name = some first_name;
      company_name = some config.company_name;
    }

    abbrev mail_with :
        (Fields → Mail) → Text → Text → Result MyError Text → Result MyError (Option Mail)
    mail_with kind to first_name (ok url) = ok (some (kind (fields to url first_name)))
    mail_with kind to first_name (err e) = err e

    -- `mail_for`
    unfoldable pub mail_for : UserEvent → ℤ → Result MyError (Option Mail)
    mail_for (UserEvent.password_reset_requested e) version =
        mail_with Mail.reset_password e.email e.first_name (reset_url e.user_id version)
    mail_for (UserEvent.registered e) version =
        mail_with Mail.verify_email e.email e.first_name (verification_url e.user_id)
    mail_for (UserEvent.verification_requested e) version =
        mail_with Mail.verify_email e.email e.first_name (verification_url e.user_id)
    mail_for _ version = ok none

    abbrev send_some :
        (Email → Result MyError (Unit {0}))
        → ℕ
        → Result MyError (Option Mail)
        → Result MyError (Unit {0})
    send_some client event_id (ok none) = ok tt
    send_some client event_id (ok (some mail)) = send client mail event_id
    send_some client event_id (err e) = err e

    -- `notify`, on an event of a user with its version and its id.
    unfoldable pub notify :
        (Email → Result MyError (Unit {0})) → UserEvent → ℤ → ℕ → Result MyError (Unit {0})
    notify client event version event_id = send_some client event_id (mail_for event version)
