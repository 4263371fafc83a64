-- ===== src/Notification/Tests.antt =====
-- apps/services/notification-service/src: the theorems on mails and their tokens, on small tables and with tokens that
-- carry their claims in the clear.
use our_driveway.Prelude.{
  ℕ, ◌==◌, ◌≡◌, refl, true, Option, none, some, [], ◌∷◌, arith, if◌then◌else◌,
}
use our_driveway.Prelude.Int.{ℤ, pos, negsuc, leb_ℤ, i64, wrap, ◌+ℤ◌}
use our_driveway.Prelude.Text.{Text, codes}
use our_driveway.Prelude.Result.{MyError, Result, ok, err}
use our_driveway.Shared.Keyed.{find_row}
use our_driveway.Shared.EmailTokens.{
  Purpose, purpose_eq, EmailTokenClaims, TokenLibrary, mint, verify, invalid,
}
use our_driveway.Shared.EmailTokens.RoundTrip.{Honest, verify-mint}
use our_driveway.Bus.Outbox.{enqueue}
use our_driveway.User.Rows.{UserEvent}
use our_driveway.User.Table.{Db, Stamp, UserRow, row_id, find_by_email}
use our_driveway.User.Service.{forgot_password, reset_password, may_send, mail_to}
use our_driveway.User.Reset.{Reset}
use our_driveway.Notification.{Config, mail_for}
use our_driveway.Notification.ResetLink.{requested, mail_of, reset_password-forgot_password}

abbrev purpose_code : Purpose → ℕ
purpose_code Purpose.verify_email = 0
purpose_code Purpose.reset_password = 1

abbrev purpose_of : ℕ → Purpose
purpose_of k = if k == 0 then Purpose.verify_email else Purpose.reset_password

abbrev sign : ℤ → ℕ
sign (pos n) = 0
sign (negsuc n) = 1

abbrev size : ℤ → ℕ
size (pos n) = n
size (negsuc n) = n

abbrev signed : ℕ → ℕ → ℤ
signed s n = if s == 0 then pos n else negsuc n

abbrev token_of : EmailTokenClaims → Text
token_of c =
    purpose_code c.purpose
    ∷ sign c.iat
    ∷ size c.iat
    ∷ sign c.exp
    ∷ size c.exp
    ∷ elim c.ver as (λ _. Text) [ none ↦ 0 ∷ 0 ∷ 0 ∷ c.sub | some v ↦ 1 ∷ sign v ∷ size v ∷ c.sub ]

abbrev encode : Text → EmailTokenClaims → Result MyError Text
encode secret c = ok (token_of c)

abbrev version_of : ℕ → ℕ → ℕ → Option ℤ
version_of v s n = if v == 0 then none else some (signed s n)

abbrev decode : ℤ → Text → Text → Text → Option EmailTokenClaims
decode now iss secret (p ∷ is ∷ im ∷ es ∷ em ∷ v ∷ vs ∷ vm ∷ sub) =
    if leb_ℤ now (signed es em)
    then some (record {
      sub = sub;
      purpose = purpose_of p;
      iat = signed is im;
      exp = signed es em;
      iss = iss;
      ver = version_of v vs vm;
    })
    else none
decode now iss secret _ = none

abbrev parse_uuid : Text → Option ℕ
parse_uuid (k ∷ []) = some k
parse_uuid _ = none

abbrev clear : TokenLibrary
clear = record {
  encode = encode;
  decode = decode;
  print_uuid = λ k. k ∷ [];
  parse_uuid = parse_uuid;
}

signed_back : (z : ℤ) → signed (sign z) (size z) ≡ z
signed_back (pos n) = refl
signed_back (negsuc n) = refl

purpose_back : (p : Purpose) → purpose_of (purpose_code p) ≡ p
purpose_back Purpose.verify_email = refl
purpose_back Purpose.reset_password = refl

accepts :
    (sub : Text) (purpose : Purpose) (iat exp : ℤ) (iss secret : Text) (ver : Option ℤ) (now : ℤ)
    → leb_ℤ now exp ≡ true
    → decode now iss secret (
        token_of
          (record { sub = sub; purpose = purpose; iat = iat; exp = exp; iss = iss; ver = ver }))
      ≡ some (record { sub = sub; purpose = purpose; iat = iat; exp = exp; iss = iss; ver = ver })
accepts sub purpose iat exp iss secret none now h =
    rw (signed_back exp, h, purpose_back purpose, signed_back iat) refl
accepts sub purpose iat exp iss secret (some v) now h =
    rw (signed_back exp, h, purpose_back purpose, signed_back iat, signed_back v) refl

clear-Honest : Honest clear
clear-Honest = record {
  uuids = λ id. refl;
  signs = λ secret c.
      (token_of c, refl, λ now h. accepts c.sub c.purpose c.iat c.exp c.iss secret c.ver now h);
}

minted_fresh : leb_ℤ (pos 150) (i64 (pos 100 +ℤ pos 60)) ≡ true
unfolding wrap ◌+ℤ◌
minted_fresh = refl

verify-mint_example :
    (token : Text) × (mint clear (codes "key") (pos 100) 7 Purpose.verify_email (pos 60) none
      ≡ ok token)
    × ((expected : Purpose)
        → verify clear (codes "key") (pos 150) token expected ≡ (
            if purpose_eq Purpose.verify_email expected
            then ok (record { user_id = 7; version = none })
            else err invalid))
verify-mint_example =
    verify-mint clear clear-Honest (codes "key") (pos 100) (pos 150) (pos 60) 7 none
      Purpose.verify_email minted_fresh

abbrev config : Config
config = record {
  notifications_enabled = true;
  mail_from = codes "no-reply@x";
  app_base_url = codes "https://x";
  company_name = codes "X";
  email_token_secret = codes "key";
  verify_token_ttl_secs = pos 60;
  reset_token_ttl_secs = pos 60;
  template_email_verification = codes "t1";
  template_password_reset = codes "t2";
}

abbrev ada : UserRow
ada = record {
  user = record {
    id = 1;
    version = pos 2;
    first_name = codes "Ada";
    last_name = codes "L";
    email = codes "a@x";
    password = codes "old";
    profile_picture = none;
    license_plates = [];
    email_verified = true;
    country = none;
  };
  mail_requested_at = none;
}

abbrev tables : Db
tables = record { users = ada ∷ []; tokens = []; outbox = [] }

abbrev stamp : ℕ → Stamp
stamp n = record { event_id = n; occurred_at = 20; created_at = 20 }

abbrev hash : Text → Result MyError Text
hash t = ok t

known : find_by_email (codes "a@x") tables.users ≡ some ada.user
unfolding find_by_email
known = refl

found : find_row row_id 1 tables.users ≡ some ada
unfolding find_row
found = refl

due : may_send none 500 ≡ true
unfolding may_send
due = refl

reset_password-forgot_password_example :
    (asked : Db) × (forgot_password tables (codes "a@x") 500 (stamp 5) tables ≡ ok (tt, asked))
    × (asked.outbox ≡ enqueue (requested ada.user (pos 3) (stamp 5)) tables.outbox)
    × (token : Text) × (mail_for config clear
          (pos 100)
          (UserEvent.password_reset_requested (mail_to ada.user))
          (pos 3)
        ≡ ok (some (mail_of config clear (pos 100) ada.user token)))
    × (done : Db) × (reset_password hash
          (verify clear (codes "key") (pos 150) token Purpose.reset_password)
          (codes "new")
          (stamp 6)
          asked
        ≡ ok (pos 4, done))
    × Reset 1 3 (codes "new") (stamp 6) asked done
reset_password-forgot_password_example =
    reset_password-forgot_password config clear hash tables tables (codes "a@x") ada.user ada 2 500
      (stamp 5) (stamp 6) (pos 100) (pos 150) (codes "new") (codes "new") clear-Honest known found
      refl (omega arith) due minted_fresh refl
