-- ===== src/User/Tests.antt =====
-- apps/services/user-service/src: the theorems on accounts, on small tables.
use our_driveway.Prelude.{
  ℕ, ◌≡◌, ◌≢◌, ◌⊎◌, refl, List, [], ◌∷◌, none, some, true, false, arith, inl, All, any,
  if◌then◌else◌,
}
use our_driveway.Prelude.Int.{ℤ, pos, InWord, half_i64, wrap, ◌-ℤ◌, ◌+ℤ◌}
use our_driveway.Prelude.Text.{Text, text_eq, codes}
use our_driveway.Prelude.Result.{MyError, api, Result, ok, err, committed, Tx}
use our_driveway.Shared.Keyed.{find_row, update_where}
use our_driveway.Shared.EmailTokens.{invalid, version_claim}
use our_driveway.Shared.Versions.{next_version}
use our_driveway.User.Table.{
  Db, Stamp, UserRow, TokenRow, row_id, token_row_id, mail_requested_at, next_user_version,
  patch_by_id, is_empty, clashes, find_user, find_by_email, taken_by_other, patch_user,
  server_error,
}
use our_driveway.User.Table.Tokens.{find_by_token_hash, revoke_all_for_user, patch_token}
use our_driveway.User.Service.{reset_password, set_password, verify_email, authenticate}
use our_driveway.User.Profile.{UpdateUserRequest, update_user, write_update, changed_email}
use our_driveway.User.Sessions.{Minted, Fresh, live, rotate}
use our_driveway.User.Reset.{Reset, Ended, after_reset, after_reset-Reset}
use our_driveway.User.Reset.Cases.{link, reset_password-cases}
use our_driveway.User.Reset.Login.{renewed_user, reset_password-authenticate}
use our_driveway.User.Races.{rotate_stale}
use our_driveway.User.Links.{Stands, At}
use our_driveway.User.Links.Stale.{verify_email_stale}
use our_driveway.User.Edits.{nothing, update_user-nothing}
use our_driveway.User.Passwords.{update_user-Knows}
use our_driveway.User.System.{Libraries, Call, run_call, here, next}
use our_driveway.User.System.Once.{Past, reset_password_once}
use our_driveway.User.System.Spacing.{Spaced, sent, sent-Spaced}

abbrev ada : UserRow
ada = record {
  user = record {
    id = 1;
    version = pos 2;
    first_name = codes "Ada";
    last_name = codes "L";
    email = codes "a@x";
    password = codes "old";
    profile_picture = none;
    license_plates = [];
    email_verified = true;
    country = none;
  };
  mail_requested_at = none;
}

abbrev tables : Db
tables = record { users = ada ∷ []; tokens = []; outbox = [] }

abbrev stamp : ℕ → Stamp
stamp n = record { event_id = n; occurred_at = 20; created_at = 20 }

abbrev hash : Text → Result MyError Text
hash t = ok t

abbrev lib : Libraries
lib = record {
  hash = hash;
  fits = λ stored given. true;
  token_hash = λ n. n ∷ [];
  mint = λ id. ok (record { jwt = codes "jwt"; expires_at = 1000; jti = 9 });
}

found : find_row row_id 1 tables.users ≡ some ada
unfolding find_row
found = refl

two_fits : InWord half_i64 (pos 2)
two_fits = (omega arith, omega arith)

reset_password-cases_example :
    ((ada.user.version ≡ pos 2)
      × (db' : Db) × (reset_password hash (link 1 2) (codes "new") (stamp 5) tables
          ≡ ok (pos 3, db'))
      × Reset 1 2 (codes "new") (stamp 5) tables db')
    ⊎ ((ada.user.version ≢ pos 2)
        × (reset_password hash (link 1 2) (codes "new") (stamp 5) tables ≡ err invalid))
reset_password-cases_example =
    reset_password-cases hash 1 2 (codes "new") (codes "new") (stamp 5) tables refl ada found
      two_fits (omega arith) (omega arith)

abbrev once : Db
once = committed (reset_password hash (link 1 2) (codes "new") (stamp 5)) tables

answers : reset_password hash (link 1 2) (codes "new") (stamp 5) tables ≡ ok (pos 3, once)
unfolding reset_password set_password version_claim next_user_version find_row patch_by_id is_empty
    clashes next_version wrap ◌-ℤ◌ ◌+ℤ◌
answers = refl

reset_password_once_example :
    reset_password hash
      (link 1 2)
      (codes "third")
      (stamp 7)
      (run_call lib (Call.forgets once (codes "a@x") 500 (stamp 6)) once)
    ≡ err invalid
reset_password_once_example =
    reset_password_once lib 1 2 (codes "new") (codes "third") (codes "third") (stamp 5) (stamp 7)
      (pos 3) tables once (run_call lib (Call.forgets once (codes "a@x") 500 (stamp 6)) once) ada
      found two_fits (omega arith) (omega arith) answers
      (next (Call.forgets once (codes "a@x") 500 (stamp 6)) here tt) refl

abbrev asks : List Call
asks =
    Call.forgets tables (codes "a@x") 200000 (stamp 6)
    ∷ Call.forgets tables (codes "a@x") 300000 (stamp 7)
    ∷ Call.forgets tables (codes "a@x") 400000 (stamp 8)
    ∷ []

there : Past 1 0 tables
there = record { row = ada; found = found; reached = omega arith; word = two_fits }

sent-Spaced_example : Spaced (mail_requested_at 1 tables.users) (sent lib 1 asks tables)
sent-Spaced_example = sent-Spaced lib 1 asks tables there (tt, (tt, (tt, tt)))

abbrev new_address : UpdateUserRequest
new_address = record {
  first_name = none;
  last_name = none;
  email = some (codes "b@x");
  license_plates = none;
  country = none;
  current_password = some (codes "old");
  new_password = none;
  profile_picture = none;
}

abbrev edits : Tx Db ℤ
edits = update_user hash lib.fits tables tables 1 new_address (stamp 5)

abbrev moved : Db
moved = committed edits tables

edits_answer : edits tables ≡ ok (pos 3, moved)
unfolding update_user write_update changed_email find_user find_by_email find_row patch_by_id
    is_empty clashes taken_by_other next_user_version next_version wrap ◌-ℤ◌ ◌+ℤ◌ update_where
    patch_user
edits_answer = refl

verify_email_stale_example :
    Stands 1 (At (codes "b@x") false) moved
    × (w : ℤ) × (db : Db) × (verify_email
          (ok (record { user_id = 1; version = none }))
          (stamp 6)
          moved
        ≡ ok (w, db))
    × Stands 1 (At (codes "b@x") true) db
verify_email_stale_example =
    verify_email_stale hash lib.fits tables tables tables moved new_address (stamp 5) (stamp 6)
      (codes "b@x") ada ada (pos 3) refl refl refl found found edits_answer

asks_address : (email : Text) × (changed_email new_address.email ada.user ≡ some email)
unfolding changed_email
asks_address = (codes "b@x", refl)

ada_read : find_user 1 tables.users ≡ some ada.user
unfolding find_user find_row
ada_read = refl

update_user-Knows_example :
    (current : Text) × (new_address.current_password ≡ some current)
    × (lib.fits ada.user.password current ≡ true)
update_user-Knows_example =
    update_user-Knows hash lib.fits tables tables tables moved new_address ada.user 1 (stamp 5)
      (pos 3) ada_read (inl asks_address) edits_answer

reset_password-authenticate_example : authenticate lib.fits (codes "a@x") (codes "new") once ≡ (
    if lib.fits (codes "new") (codes "new")
    then ok (renewed_user (codes "new") (pos 3) ada.user)
    else err (api 401 "Unauthorized"))
reset_password-authenticate_example =
    reset_password-authenticate hash lib.fits 1 2 (codes "new") (codes "new") (codes "a@x")
      (codes "new") (stamp 5) (pos 3) tables once ada refl refl refl answers

-- A session of the account.
abbrev session : TokenRow
session = record {
  token = record {
    id = 40;
    user_id = 1;
    token_hash = 3 ∷ [];
    jti = 8;
    created_at = 5;
    expires_at = 900;
    revoked = false;
    revoked_reason = none;
  };
  version = pos 1;
}

abbrev with_session : Db
with_session = record tables { tokens = session ∷ [] }

abbrev ended_all : Db
ended_all = after_reset 1 (pos 2) (codes "new") (stamp 5) with_session (pos 3)

abbrev fresh : Fresh
fresh = record { refresh_token = 4; token_id = 41; created_at = 30; stamp = stamp 9 }

abbrev minted : Minted
minted = record { jwt = codes "jwt"; expires_at = 1000; jti = 9 }

was_live :
    live lib.token_hash 20 (find_by_token_hash (lib.token_hash 3) with_session.tokens)
    ≡ some session.token
unfolding find_by_token_hash
was_live = refl

has_found : find_row row_id 1 with_session.users ≡ some ada
unfolding find_row
has_found = refl

ran : Reset 1 2 (codes "new") (stamp 5) with_session ended_all
ran = after_reset-Reset 1 2 (codes "new") (stamp 5) with_session ada has_found refl (omega arith)

unused : any (λ t. text_eq t.token.token_hash (lib.token_hash 4)) ended_all.tokens ≡ false
unfolding revoke_all_for_user patch_token update_where
unused = refl

new_id : find_row token_row_id 41 ended_all.tokens ≡ none
unfolding revoke_all_for_user patch_token update_where find_row
new_id = refl

rotate_stale_example :
    All (Ended 1) ended_all.tokens
    × (t : TokenRow) × (find_row token_row_id 41
          (committed (rotate lib.token_hash lib.mint with_session 20 3 fresh) ended_all).tokens
        ≡ some t)
    × (t.token.user_id ≡ 1)
    × (t.token.revoked ≡ false)
    × (t.token.token_hash ≡ lib.token_hash 4)
rotate_stale_example =
    rotate_stale lib.token_hash lib.mint fresh minted 3 1 20 2 with_session with_session ended_all
      session.token (codes "new") (stamp 5) was_live refl refl ran unused new_id

update_user-nothing_example :
    update_user hash lib.fits tables tables 1 (nothing none) (stamp 5) tables ≡ err server_error
update_user-nothing_example =
    update_user-nothing hash lib.fits tables tables tables 1 ada.user none (stamp 5) ada_read
