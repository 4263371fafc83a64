-- ===== src/User/Links.antt =====
-- apps/services/user-service/src/service/user_service.rs: the row of an account through the statements, and `verify_email`
-- on an account that is there.
pub mod Stale
use mathlib.Core.Option
use our_driveway.Prelude.{
  ℕ, ◌==◌, not, ◌≡◌, refl, sym, ap, ◌∙◌, subst, Bool, true, false, Option, none, some, List, arith,
  if◌then◌else◌, ==_iff,
}
use our_driveway.Prelude.Int.{ℤ}
use our_driveway.Prelude.Text.{Text, text_eq}
use our_driveway.Prelude.Result.{MyError, api, Result, ok, err, Tx, ◌>>=◌, ◌>>◌, return, require}
use our_driveway.Prelude.Keeping.{
  Left, Leads, Keeps, Leads-bind, Leads-return, Leads-read, Leads-require, Leads-context,
  Leads-modify, Leads-modify_last, Keeps-require_last, Leads-assoc,
}
use our_driveway.Shared.Keyed.{find_row, update_where}
use our_driveway.Shared.Keyed.Laws.{find-update_where, find-id}
use our_driveway.Shared.EmailTokens.{Verified}
use our_driveway.Bus.Outbox.{enqueue}
use our_driveway.User.Rows.{User, UserEvent, UserPatch, default_patch, updated_patch}
use our_driveway.User.Table.{
  Aggregate, Payload, Db, Stamp, UserRow, row_id, edit_user, patch_user, at_version, patch_by_id,
  clashes, is_empty, set_user_version, next_user_version, server_error, value_taken, announce,
  find_user, find_by_email,
}
use our_driveway.User.Service.{is_none, version_for, write_version, verify_email}
use our_driveway.User.Profile.{
  UpdateUserRequest, update_user, write_update, apply_update, unverify, changed_email, edit_of,
  decide, check_email, known_password,
}

-- The account is there, and its row passes.
pub record Stands (uid : ℕ) (T : User → Type 0) (db : Db) : Type 0 where
  pub row : UserRow
  pub found : find_row row_id uid db.users ≡ some row
  pub holds : T row.user

module _ (uid : ℕ) (T T' : User → Type 0) where
  pub Stands-edit :
      (f : User → User) (db : Db)
      → ((u : User) → (f u).id ≡ u.id)
      → ((u : User) → T u → T' (f u))
      → Stands uid T db
      → Stands uid T'
          (record db { users = update_where (λ r. row_id r == uid) (edit_user f) db.users })
  Stands-edit f db keeps h s =
      let here : (row_id s.row == uid) ≡ true =
        (==_iff (row_id s.row) uid).1 (find-id row_id uid db.users s.row s.found) in
      record {
        row = edit_user f s.row;
        found =
            find-update_where row_id (λ r. row_id r == uid) (edit_user f) (λ a. keeps a.user) uid
              db.users
            ∙ rw s.found (rw here refl);
        holds = h s.row.user s.holds;
      }

  pub patch_by_id-Stands :
      (patch : UserPatch)
      → ((u : User) → T u → T' (patch_user patch u))
      → Leads (Stands uid T) (Stands uid T') (patch_by_id uid patch)
  unfolding patch_by_id patch_user
  patch_by_id-Stands patch h =
      Leads-require (Stands uid T) (Stands uid T') (not (is_empty patch)) server_error _ (
        Leads-read (Stands uid T) (Stands uid T') (λ db. clashes uid patch.email db.users) _
          (λ clash. Leads-require (Stands uid T) (Stands uid T') (not clash) value_taken _ (
            Leads-modify_last (Stands uid T) (Stands uid T') _
              (λ db s. Stands-edit (patch_user patch) db (λ u. refl) h s))))

-- A change of the version, and an event.
module _ (uid : ℕ) (T : User → Type 0) (blind : (u : User) (v : ℤ) → T u → T (at_version v u)) where
  pub Stands-numbered :
      (v : ℤ) (db : Db)
      → Stands uid T db
      → Stands uid T (record db { users = set_user_version uid v db.users })
  unfolding set_user_version
  Stands-numbered v db s = Stands-edit uid T T (at_version v) db (λ u. refl) (λ u t. blind u v t) s

  announced-Stands :
      (stamp : Stamp) (v : ℤ) (event : UserEvent)
      → Keeps (Stands uid T) (announce stamp uid v event >> return v)
  announced-Stands stamp v event =
      Leads-modify (Stands uid T) (Stands uid T) (Stands uid T) _ _
        (λ db s. record { row = s.row; found = s.found; holds = s.holds })
        (Leads-return (Stands uid T) (Stands uid T) v (λ db s. s))

  pub numbered-Stands :
      (stamp : Stamp) (v : ℤ) (event : UserEvent)
      → Keeps (Stands uid T) (do write_version uid v; announce stamp uid v event; return v)
  numbered-Stands stamp v event =
      Leads-modify (Stands uid T) (Stands uid T) (Stands uid T) _ _ (λ db s. Stands-numbered v db s)
        (announced-Stands stamp v event)

-- What `verify_email` leaves of an account that is there.
module _ (uid : ℕ) (stamp : Stamp) (db : Db) where
  abbrev pub after_verify : ℤ → Db
  after_verify v = record {
    users = set_user_version uid v (
        update_where (λ r. row_id r == uid)
          (edit_user (patch_user (record default_patch { email_verified = some true }))) db.users);
    tokens = db.tokens;
    outbox =
        enqueue
          (record {
            id = stamp.event_id;
            payload = record {
              subject = uid;
              aggregate = Aggregate.user uid;
              version = v;
              occurred_at = stamp.occurred_at;
              actor_id = some uid;
              payload = Payload.of_user (UserEvent.email_verified uid);
            };
            created_at = stamp.created_at;
          })
          db.outbox;
  }

  pub verify_email-answers :
      (r : UserRow) (version : Option ℤ)
      → find_row row_id uid db.users ≡ some r
      → verify_email (ok (record { user_id = uid; version = version })) stamp db
        ≡ ok (next_user_version uid db.users, after_verify (next_user_version uid db.users))
  unfolding verify_email find_user patch_by_id is_empty clashes
  verify_email-answers r version found = rw (found, verify_email, find_user) refl

-- A row with an address, verified or not.
abbrev pub At : Text → Bool → User → Type 0
At email verified u = (u.email ≡ email) × (u.email_verified ≡ verified)

abbrev pub Any : User → Type 0
Any u = Unit

abbrev pub Unverified : User → Type 0
Unverified u = u.email_verified ≡ false
