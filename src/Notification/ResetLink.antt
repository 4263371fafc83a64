-- ===== src/Notification/ResetLink.antt =====
-- From a forgotten password to a new one: user-service's request, the mail that its event asks for, and the link.
use mathlib.Core.Option
use our_driveway.Prelude.{
  ℕ, ◌+◌, ◌<◌, ◌==◌, ◌≡◌, refl, sym, ap, subst, ◌∙◌, true, some, ◌++◌, arith, if◌then◌else◌, ==_iff,
  inl, inr,
}
use our_driveway.Prelude.Int.{ℤ, pos, ◌+ℤ◌, i64, leb_ℤ, InWord, half_i64}
use our_driveway.Prelude.Text.{Text, codes}
use our_driveway.Prelude.Result.{MyError, Result, ok}
use our_driveway.Shared.Keyed.{find_row}
use our_driveway.Shared.Keyed.Laws.{find-update_where, find-id}
use our_driveway.Shared.Versions.{next_version, set_version}
use our_driveway.Shared.EmailTokens.{Purpose, purpose_eq, TokenLibrary, verify}
use our_driveway.Shared.EmailTokens.RoundTrip.{Honest, verify-mint}
use our_driveway.User.Rows.{User, UserEvent}
use our_driveway.Bus.Outbox.{Pending, enqueue}
use our_driveway.User.Table.{
  Aggregate, Payload, Envelope, Db, Stamp, UserRow, row_id, edit_user, at_version, find_by_email,
  mail_requested_at, set_mail_requested_at, next_user_version, set_user_version,
}
use our_driveway.User.Service.{
  forgot_password, ask_for_mail, queue_mail, may_send, mail_to, reset_password,
}
use our_driveway.User.Reset.{Reset, next_version_lem}
use our_driveway.User.Reset.Cases.{link, reset_password-cases}
use our_driveway.User.System.Spacing.{after_mail}
use our_driveway.Notification.{Mail, Config, mail_for, reset_url}

-- The request, on an account that a mail is due for.
module _ (id n now : ℕ) (db : Db) (r : UserRow) (found : find_row row_id id db.users ≡ some r)
    (stands : r.user.version ≡ pos n) (room : n + 1 < half_i64)
    (due : may_send r.mail_requested_at now ≡ true) where
  next_at : next_user_version id db.users ≡ pos (n + 1)
  unfolding next_user_version
  next_at = rw found (ap (λ v. next_version (some v)) stands ∙ next_version_lem n room)

  due_at : may_send (mail_requested_at id db.users) now ≡ true
  unfolding mail_requested_at Option.bind
  due_at = rw found due

  ask_for_mail-sends :
      (stamp : Stamp) (event : UserEvent)
      → ask_for_mail id now stamp event db ≡ ok (tt, after_mail id (pos (n + 1)) now stamp event db)
  unfolding ask_for_mail queue_mail
  ask_for_mail-sends stamp event = rw (ask_for_mail, due_at, next_at) refl

  abbrev asked_row : UserRow
  asked_row = record { user = at_version (pos (n + 1)) r.user; mail_requested_at = some now }

  asked_found :
      (stamp : Stamp) (event : UserEvent)
      → find_row row_id id (after_mail id (pos (n + 1)) now stamp event db).users ≡ some asked_row
  unfolding set_user_version set_mail_requested_at
  asked_found stamp event =
      let here : (row_id r == id) ≡ true =
        (==_iff (row_id r) id).1 (find-id row_id id db.users r found) in
      find-update_where row_id (λ r. row_id r == id) (edit_user (at_version (pos (n + 1))))
        (λ a. refl) id (set_mail_requested_at id now db.users)
      ∙ (ap (Option.map (λ a. if row_id a == id then edit_user (at_version (pos (n + 1))) a else a))
            (find-update_where row_id (λ r. row_id r == id)
              (λ r. record r { mail_requested_at = some now }) (λ a. refl) id db.users)
          ∙ rw found (rw here (rw here refl)))

  asked_version : asked_row.user.version ≡ pos (n + 1)
  unfolding set_version
  asked_version = rw stands (ground arith)

forgot_password-sends :
    (read : Db) (email : Text) (now : ℕ) (stamp : Stamp) (db : Db) (u : User)
    → find_by_email email read.users ≡ some u
    → forgot_password read email now stamp db
      ≡ ask_for_mail u.id now stamp (UserEvent.password_reset_requested (mail_to u)) db
unfolding forgot_password
forgot_password-sends read email now stamp db u known = rw known refl

-- The event of a request.
abbrev pub requested : User → ℤ → Stamp → Pending Envelope
requested u version stamp = record {
  id = stamp.event_id;
  payload = record {
    subject = u.id;
    aggregate = Aggregate.user u.id;
    version = version;
    occurred_at = stamp.occurred_at;
    actor_id = some u.id;
    payload = Payload.of_user (UserEvent.password_reset_requested (mail_to u));
  };
  created_at = stamp.created_at;
}

-- What the mail carries.
module _ (config : Config) (lib : TokenLibrary) (sent_at : ℤ) where
  abbrev pub mail_of : User → Text → Mail
  mail_of u token = Mail.reset_password (record {
    to = u.email;
    url = config.app_base_url ++ (codes "/reset-password?token=" ++ token);
    first_name = some u.first_name;
    company_name = some config.company_name;
  })

  mail_for-minted :
      (u : User) (version : ℤ) (token : Text)
      → our_driveway.Shared.EmailTokens.mint lib config.email_token_secret sent_at u.id
          Purpose.reset_password config.reset_token_ttl_secs
          (some version)
        ≡ ok token
      → mail_for config lib sent_at (UserEvent.password_reset_requested (mail_to u)) version
        ≡ ok (some (mail_of u token))
  unfolding mail_for reset_url
  mail_for-minted u version token minted = rw minted refl

-- The link on the tables that the request left.
link_resets :
    (hash : Text → Result MyError Text) (uid n : ℕ) (password password_hash : Text) (stamp : Stamp)
    (db : Db) (r : UserRow)
    → hash password ≡ ok password_hash
    → find_row row_id uid db.users ≡ some r
    → r.user.version ≡ pos (n + 1)
    → n + 2 < half_i64
    → (db' : Db) × (reset_password hash (link uid (n + 1)) password stamp db
        ≡ ok (pos (n + 2), db'))
      × Reset uid (n + 1) password_hash stamp db db'
link_resets hash uid n password password_hash stamp db r hashed found stands room =
    let word : InWord half_i64 r.user.version =
      subst (InWord half_i64) (sym stands) (omega arith, omega arith) in
    elim (reset_password-cases hash uid (n + 1) password password_hash stamp db hashed r found word
      (omega arith) (omega arith)) [
        | inl (s, db', runs, reset) ↦ (db', runs ∙ ap (λ k. ok (pos k, db')) (omega arith), reset)
        | inr (away, runs) ↦ absurd (away stands)
      ]

-- A forgotten password can be set anew: a request for the address of an account, where a mail is due, queues one
-- event; the mail that is made of it goes to the account's address with a link; and the token of the link,
-- opened before it expires and before anything else moves the account on, sets the password. It is assumed
-- that the JWT and the uuid library do what they document, and that the account's version is not negative
-- and short of the last two `i64`s.
pub reset_password-forgot_password :
    (config : Config) (lib : TokenLibrary) (hash : Text → Result MyError Text) (read db : Db)
    (email : Text) (u : User) (r : UserRow) (n now : ℕ) (stamp stamp' : Stamp)
    (sent_at clicked_at : ℤ) (password password_hash : Text)
    → Honest lib
    → find_by_email email read.users ≡ some u
    → find_row row_id u.id db.users ≡ some r
    → r.user.version ≡ pos n
    → n + 2 < half_i64
    → may_send r.mail_requested_at now ≡ true
    → leb_ℤ clicked_at (i64 (sent_at +ℤ config.reset_token_ttl_secs)) ≡ true
    → hash password ≡ ok password_hash
    → (asked : Db) × (forgot_password read email now stamp db ≡ ok (tt, asked))
      × (asked.outbox ≡ enqueue (requested u (pos (n + 1)) stamp) db.outbox)
      × (token : Text) × (mail_for config lib sent_at
            (UserEvent.password_reset_requested (mail_to u))
            (pos (n + 1))
          ≡ ok (some (mail_of config lib sent_at u token)))
      × (done : Db) × (reset_password hash
            (verify lib config.email_token_secret clicked_at token Purpose.reset_password)
            password
            stamp'
            asked
          ≡ ok (pos (n + 2), done))
      × Reset u.id (n + 1) password_hash stamp' asked done
unfolding purpose_eq
reset_password-forgot_password config lib hash read db email u r n now stamp stamp' sent_at
      clicked_at password password_hash honest known found stands room due fresh hashed =
    let event = UserEvent.password_reset_requested (mail_to u) in
    let less : n + 1 < half_i64 = omega arith in
    let asked : Db = after_mail u.id (pos (n + 1)) now stamp event db in
    let sends =
      forgot_password-sends read email now stamp db u known
      ∙ ask_for_mail-sends u.id n now db r found stands less due stamp event in
    let (token, minted, verifies) =
      verify-mint lib honest config.email_token_secret sent_at clicked_at
        config.reset_token_ttl_secs u.id (some (pos (n + 1))) Purpose.reset_password fresh in
    let (done, runs, reset) =
      link_resets hash u.id n password password_hash stamp' asked
        (asked_row u.id n now db r found stands less due) hashed
        (asked_found u.id n now db r found stands less due stamp event)
        (asked_version u.id n now db r found stands less due) room in
    (
      asked,
      sends,
      refl,
      token,
      mail_for-minted config lib sent_at u (pos (n + 1)) token minted,
      done,
      ap (λ v. reset_password hash v password stamp' asked) (verifies Purpose.reset_password)
          ∙ runs,
      reset,
    )
