-- ===== src/User/Reset.antt =====
-- apps/services/user-service/src/service/user_service.rs: what `reset_password` leaves in the tables.
pub mod Cases
pub mod Login
use mathlib.Core.Option
use our_driveway.Prelude.{
  Bool, ℕ, ◌+◌, ◌<◌, ◌==◌, not, ◌&&◌, ◌≡◌, refl, ap, ◌∙◌, true, false, Option, none, some, List, [],
  ◌∷◌, keep, arith, if◌then◌else◌, Bool-cases, inl, inr, ◌⊎◌, ◌≢◌, All, ==_iff,
}
use our_driveway.Prelude.Int.{ℤ, pos, ◌-ℤ◌, ◌+ℤ◌, eqb_ℤ, eqb_ℤ_iff, i64, wrap, InWord, half_i64}
use our_driveway.Prelude.Text.{Text, codes}
use our_driveway.Prelude.Result.{MyError, Result, ok, err}
use our_driveway.Shared.Versions.{next_version, set_version, max_ℤ}
use our_driveway.Shared.Keyed.{find_row, update_where}
use our_driveway.Shared.Keyed.Laws.{find-update_where, find-id}
use our_driveway.Shared.EmailTokens.{Verified, invalid, version_claim}
use our_driveway.Bus.Outbox.{Pending, enqueue}
use our_driveway.User.Rows.{UserEvent}
use our_driveway.User.Table.{
  Aggregate, Payload, Envelope, Db, Stamp, UserRow, TokenRow, row_id, edit_user, patch_user,
  at_version, patch_by_id, is_empty, clashes, next_user_version, set_user_version, version_of_user,
}
use our_driveway.User.Table.Tokens.{patch_token, ended, revoke_all_for_user}
use our_driveway.User.Service.{set_password, reset_password, reset_patch}

-- The version that a row's link is minted at is the row's.
pub minted_lem :
    (s : ℤ) → InWord half_i64 s → i64 (next_version (some s) -ℤ pos 1) ≡ max_ℤ s (pos 0)
unfolding next_version wrap ◌-ℤ◌ ◌+ℤ◌
minted_lem s h = ground arith

-- The next version, where it is one of the machine's.
pub next_version_lem : (n : ℕ) → n + 1 < half_i64 → next_version (some (pos n)) ≡ pos (n + 1)
unfolding next_version wrap ◌+ℤ◌
next_version_lem n h = ground arith

-- The row with the new password, at the next version.
abbrev pub reset_row : Text → ℤ → UserRow → UserRow
reset_row password_hash version r = record r {
  user = record r.user { password = password_hash; email_verified = true; version = version };
}

-- The event of a reset.
module _ (uid : ℕ) (stamp : Stamp) where
  abbrev pub announced : ℤ → Pending Envelope
  announced version = record {
    id = stamp.event_id;
    payload = record {
      subject = uid;
      aggregate = Aggregate.user uid;
      version = version;
      occurred_at = stamp.occurred_at;
      actor_id = some uid;
      payload = Payload.of_user (UserEvent.password_changed uid);
    };
    created_at = stamp.created_at;
  }

-- The tables after a reset, for the version that was assigned.
module _ (uid : ℕ) (minted_at : ℤ) (password_hash : Text) (stamp : Stamp) (db : Db) where
  abbrev pub after_reset : ℤ → Db
  after_reset version = record {
    users = set_user_version uid version (
        update_where (λ r. row_id r == uid) (edit_user (patch_user (reset_patch password_hash)))
          db.users);
    tokens = revoke_all_for_user uid (codes "password reset") db.tokens;
    outbox = enqueue (announced uid stamp version) db.outbox;
  }

  pub set_password_refused :
      eqb_ℤ (i64 (next_user_version uid db.users -ℤ pos 1)) minted_at ≡ false
      → set_password uid minted_at password_hash stamp db ≡ err invalid
  unfolding set_password
  set_password_refused e = rw (e, set_password) refl

  pub set_password_done :
      eqb_ℤ (i64 (next_user_version uid db.users -ℤ pos 1)) minted_at ≡ true
      → set_password uid minted_at password_hash stamp db
        ≡ ok (next_user_version uid db.users, after_reset (next_user_version uid db.users))
  unfolding set_password patch_by_id is_empty clashes
  set_password_done e = rw (e, set_password) refl

  pub next_found :
      (o : Option UserRow)
      → find_row row_id uid db.users ≡ o
      → next_user_version uid db.users ≡ next_version (Option.map version_of_user o)
  unfolding next_user_version
  next_found o e = rw (e, next_user_version) refl

-- Every session of the account has ended.
abbrev pub Ended : ℕ → TokenRow → Type 0
Ended uid t = (t.token.user_id == uid) ≡ true → t.token.revoked ≡ true

ended_here :
    (uid : ℕ) (reason : Text) (t : TokenRow)
    → Ended uid
        (if t.token.user_id == uid && not t.token.revoked then patch_token (ended reason) t else t)
unfolding patch_token
ended_here uid reason t h = ground arith

revoke_all_for_user-Ended :
    (uid : ℕ) (reason : Text) (rows : List TokenRow)
    → All (Ended uid) (revoke_all_for_user uid reason rows)
unfolding revoke_all_for_user update_where patch_token
revoke_all_for_user-Ended uid reason [] = tt
revoke_all_for_user-Ended uid reason (t ∷ rows) =
    (λ h. ended_here uid reason t h, revoke_all_for_user-Ended uid reason rows)

-- The session is of another account.
abbrev pub of_another : ℕ → TokenRow → Bool
of_another uid t = not (t.token.user_id == uid)

revoke_all_for_user-others :
    (uid : ℕ) (reason : Text) (rows : List TokenRow)
    → keep (of_another uid) (revoke_all_for_user uid reason rows) ≡ keep (of_another uid) rows
unfolding revoke_all_for_user update_where patch_token
revoke_all_for_user-others uid reason [] = refl
revoke_all_for_user-others uid reason (t ∷ rows) = elim (Bool-cases (t.token.user_id == uid)) [
  | inl e ↦ elim (Bool-cases t.token.revoked) [
    | inl r ↦ ground (arith, revoke_all_for_user-others uid reason rows)
    | inr r ↦ ground (arith, revoke_all_for_user-others uid reason rows)
  ]
  | inr e ↦ ground (arith, revoke_all_for_user-others uid reason rows)
]

-- What a reset leaves, that answers: the new password and a verified address at the next version, the
-- other accounts as they were, no session of the account, every other session as it was, and one
-- event.
pub record Reset (uid minted_at : ℕ) (password_hash : Text) (stamp : Stamp) (db db' : Db)
    : Type 0 where
  pub old : UserRow
  pub stood : (find_row row_id uid db.users ≡ some old) × (old.user.version ≡ pos minted_at)
  pub account :
      find_row row_id uid db'.users ≡ some (reset_row password_hash (pos (minted_at + 1)) old)
  pub others :
      (k : ℕ) → (k == uid) ≡ false → find_row row_id k db'.users ≡ find_row row_id k db.users
  pub sessions : All (Ended uid) db'.tokens
  pub other_sessions : keep (of_another uid) db'.tokens ≡ keep (of_another uid) db.tokens
  pub outbox : db'.outbox ≡ enqueue (announced uid stamp (pos (minted_at + 1))) db.outbox

module _ (uid n : ℕ) (password_hash : Text) (stamp : Stamp) (db : Db) (r : UserRow)
    (found : find_row row_id uid db.users ≡ some r) (stands : r.user.version ≡ pos n)
    (room : n + 1 < half_i64) where
  pub numbered_lem : next_user_version uid db.users ≡ pos (n + 1)
  numbered_lem =
      next_found uid (pos n) password_hash stamp db (some r) found
      ∙ (ap (λ v. next_version (some v)) stands ∙ next_version_lem n room)

  abbrev renew : UserRow → UserRow
  renew a = if row_id a == uid then edit_user (patch_user (reset_patch password_hash)) a else a

  abbrev renumber : UserRow → UserRow
  renumber a = if row_id a == uid then edit_user (at_version (pos (n + 1))) a else a

  reset_users :
      (k : ℕ)
      → find_row row_id k (after_reset uid (pos n) password_hash stamp db (pos (n + 1))).users
        ≡ Option.map renumber (Option.map renew (find_row row_id k db.users))
  unfolding set_user_version patch_user
  reset_users k =
      find-update_where row_id (λ r. row_id r == uid) (edit_user (at_version (pos (n + 1))))
        (λ a. refl) k
        (update_where (λ r. row_id r == uid) (edit_user (patch_user (reset_patch password_hash)))
          db.users)
      ∙ ap (Option.map renumber) (
          find-update_where row_id (λ r. row_id r == uid)
            (edit_user (patch_user (reset_patch password_hash))) (λ a. refl) k db.users)

  -- The two updates, on the row that is there.
  renewed : renumber (renew r) ≡ reset_row password_hash (pos (n + 1)) r
  unfolding patch_user set_version
  renewed =
      let here : (row_id r == uid) ≡ true =
        (==_iff (row_id r) uid).1 (find-id row_id uid db.users r found) in
      rw (here, here) (rw stands (ground arith))

  others_kept :
      (k : ℕ) (o : Option UserRow)
      → find_row row_id k db.users ≡ o
      → (k == uid) ≡ false
      → Option.map renumber (Option.map renew o) ≡ o
  unfolding patch_user
  others_kept k none e f = refl
  others_kept k (some a) e f =
      let there : (row_id a == uid) ≡ false = rw (find-id row_id k db.users a e) f in
      rw (there, there) refl

  others_lem :
      (k : ℕ)
      → (k == uid) ≡ false
      → Option.map renumber (Option.map renew (find_row row_id k db.users))
        ≡ find_row row_id k db.users
  others_lem k f = others_kept k (find_row row_id k db.users) refl f

  pub after_reset-Reset :
      Reset uid n password_hash stamp db
        (after_reset uid (pos n) password_hash stamp db (pos (n + 1)))
  after_reset-Reset = record {
    old = r;
    stood = (found, stands);
    account =
        reset_users uid
        ∙ (ap (λ o. Option.map renumber (Option.map renew o)) found ∙ ap some renewed);
    others = λ k f. reset_users k ∙ others_lem k f;
    sessions = revoke_all_for_user-Ended uid (codes "password reset") db.tokens;
    other_sessions = revoke_all_for_user-others uid (codes "password reset") db.tokens;
    outbox = refl;
  }
