-- ===== src/User/System/Once.antt =====
-- apps/services/user-service/src/service/user_service.rs: a link that sets a password works once, whatever runs
-- after it.
use mathlib.Core.Option
use our_driveway.Prelude.{
  ℕ, ◌+◌, ◌<◌, ◌≤◌, ◌==◌, ◌≡◌, refl, sym, ap, ◌∙◌, subst, Bool, true, false, none, some, arith,
  if◌then◌else◌, Bool-cases, inl, inr,
}
use our_driveway.Prelude.Int.{ℤ, pos, pos_part, eqb_ℤ, InWord, half_i64}
use our_driveway.Prelude.Text.{Text}
use our_driveway.Prelude.Result.{MyError, Result, ok, err, Result-cases}
use our_driveway.Prelude.Keeping.{Keeps, Leads-return, Leads-read}
use our_driveway.Shared.Versions.{set_version, max_ℤ}
use our_driveway.Shared.Keyed.{find_row, put, update_where}
use our_driveway.Shared.Keyed.Laws.{find-put, find-update_where}
use our_driveway.Shared.EmailTokens.{invalid}
use our_driveway.User.Rows.{User, UserEvent}
use our_driveway.User.Table.{
  Db, Stamp, UserRow, row_id, kept_user, edit_user, patch_user, at_version, set_user_version,
  mail_requested_at, set_mail_requested_at,
}
use our_driveway.User.Service.{reset_password, ask_for_mail, queue_mail, may_send}
use our_driveway.User.Reset.{Reset, reset_row}
use our_driveway.User.Reset.Cases.{
  link, reset_password-cases, reset_password_refused, reset_password_unhashed,
}
use our_driveway.User.Keeping.{Stable, Keeps-version_for}
use our_driveway.User.System.{Libraries, run_call-keeps, asked_at, Reach, here, next}

-- The account stands at version `n` or later.
pub record Past (uid n : ℕ) (db : Db) : Type 0 where
  pub row : UserRow
  pub found : find_row row_id uid db.users ≡ some row
  pub reached : n ≤ pos_part row.user.version
  pub word : InWord half_i64 row.user.version

set_version-le : (s v : ℤ) → pos_part s ≤ pos_part (set_version s v)
unfolding set_version
set_version-le s v = ground arith

set_version-InWord :
    (s v : ℤ) → InWord half_i64 s → InWord half_i64 v → InWord half_i64 (set_version s v)
unfolding set_version
set_version-InWord s v hs hv = ground arith

-- An update of one account that does not take its version back.
module _ (uid n id : ℕ) (db : Db) (change : UserRow → UserRow)
    (keeps : (a : UserRow) → row_id (change a) ≡ row_id a)
    (grows : (a : UserRow)
      → InWord half_i64 a.user.version
      → (pos_part a.user.version ≤ pos_part (change a).user.version)
        × InWord half_i64 (change a).user.version) where
  update-Past :
      Past uid n db
      → Past uid n (record db { users = update_where (λ r. row_id r == id) change db.users })
  update-Past p =
      let found =
        find-update_where row_id (λ r. row_id r == id) change keeps uid db.users
        ∙ ap (Option.map (λ a. if row_id a == id then change a else a)) p.found in
      let grown = grows p.row p.word in
      elim (Bool-cases (row_id p.row == id)) [
        | inl t ↦ record {
          row = change p.row;
          found = rw t at found;
          reached = omega (arith, grown.0, p.reached);
          word = grown.1;
        }
        | inr f ↦ record { row = p.row; found = rw f at found; reached = p.reached; word = p.word }
      ]

version_grows :
    (v : ℤ) (a : UserRow)
    → InWord half_i64 v
    → InWord half_i64 a.user.version
    → (pos_part a.user.version ≤ pos_part (set_version a.user.version v))
      × InWord half_i64 (set_version a.user.version v)
version_grows v a hv ha =
    (set_version-le a.user.version v, set_version-InWord a.user.version v ha hv)

-- A new account is another account.
inserted_elsewhere :
    (uid : ℕ) (u : User) (db : Db) (r : UserRow)
    → find_row row_id u.id db.users ≡ none
    → find_row row_id uid db.users ≡ some r
    → find_row row_id uid (put row_id (kept_user (find_row row_id u.id db.users) u) db.users)
      ≡ some r
inserted_elsewhere uid u db r new found =
    find-put row_id uid (kept_user (find_row row_id u.id db.users) u) db.users
    ∙ elim (Bool-cases (u.id == uid)) [
      | inl t ↦
          let same : u.id ≡ uid = ground arith in
          let gone : find_row row_id uid db.users ≡ none =
            subst (λ k. find_row row_id k db.users ≡ none) same new in
          absurd (cc)
      | inr f ↦ rw f found
    ]

pub Past-Stable : (uid n : ℕ) → Stable (Past uid n)
unfolding patch_user
Past-Stable uid n = record {
  patched = λ db id patch p.
      update-Past uid n id db (edit_user (patch_user patch)) (λ a. refl) (λ a h. (omega arith, h))
        p;
  numbered = λ db id v w p.
      update-Past uid n id db (edit_user (at_version v)) (λ a. refl) (λ a h. version_grows v a w h)
        p;
  sessions =
      λ db rows p. record { row = p.row; found = p.found; reached = p.reached; word = p.word };
  published =
      λ db row quiet p. record { row = p.row; found = p.found; reached = p.reached; word = p.word };
  inserted = λ db u new p. record {
    row = p.row;
    found = inserted_elsewhere uid u db p.row new p.found;
    reached = p.reached;
    word = p.word;
  };
}

pub queued-Past :
    (uid n id : ℕ) (v : ℤ) (now : ℕ) (stamp : Stamp) (event : UserEvent)
    → InWord half_i64 v
    → (sends : Bool) → Keeps (Past uid n) (queue_mail id v now stamp event sends)
unfolding queue_mail set_mail_requested_at set_user_version
queued-Past uid n id v now stamp event w false =
    Leads-return (Past uid n) (Past uid n) tt (λ db p. p)
queued-Past uid n id v now stamp event w true = record {
  apply = λ db p.
      let asked =
        update-Past uid n id db (λ r. record r { mail_requested_at = some now }) (λ a. refl)
          (λ a h. (omega arith, h)) p in
      let numbered =
        (Past-Stable uid n).numbered (record db { users = set_mail_requested_at id now db.users })
          id v w asked in
      record {
        row = numbered.row;
        found = numbered.found;
        reached = numbered.reached;
        word = numbered.word;
      };
}

-- Queueing a mail moves the version on, too.
ask_for_mail-Past :
    (uid n id now : ℕ) (stamp : Stamp) (event : UserEvent)
    → Keeps (Past uid n) (ask_for_mail id now stamp event)
unfolding ask_for_mail
ask_for_mail-Past uid n id now stamp event = Keeps-version_for (Past uid n) id _ (λ v w.
    Leads-read (Past uid n) (Past uid n) (λ db. mail_requested_at id db.users) _
      (λ last. queued-Past uid n id v now stamp event w (may_send last now)))

-- The account stands at one version later than the link's.
Reset-Past :
    (uid n : ℕ) (password_hash : Text) (stamp : Stamp) (db db' : Db)
    → n + 1 < half_i64
    → Reset uid n password_hash stamp db db'
    → Past uid (n + 1) db'
Reset-Past uid n password_hash stamp db db' room h = record {
  row = reset_row password_hash (pos (n + 1)) h.old;
  found = h.account;
  reached = omega arith;
  word = (room, omega arith);
}

-- The first use of the link.
first_Past :
    (hash : Text → Result MyError Text) (uid n : ℕ) (password : Text) (stamp : Stamp) (v : ℤ)
    (db db' : Db) (r : UserRow)
    → find_row row_id uid db.users ≡ some r
    → InWord half_i64 r.user.version
    → 0 < n
    → n + 1 < half_i64
    → reset_password hash (link uid n) password stamp db ≡ ok (v, db')
    → Past uid (n + 1) db'
first_Past hash uid n password stamp v db db' r found word positive room done =
    elim (Result-cases (hash password)) [
      | inl (h, e) ↦
          elim (reset_password-cases hash uid n password h stamp db e r found word positive room) [
            | inl (stands, made, run, reset) ↦
                let same : ok (pos (n + 1), made) ≡ ok (v, db') = sym run ∙ done in
                let it : made ≡ db' = cc in
                subst (Past uid (n + 1)) it (Reset-Past uid n h stamp db made room reset)
            | inr (away, run) ↦ let same : err invalid ≡ ok (v, db') = sym run ∙ done in absurd (cc)
          ]
      | inr (x, e) ↦
          let run : reset_password hash (link uid n) password stamp db ≡ err x =
            reset_password_unhashed hash uid n password stamp db x e in
          let same : err x ≡ ok (v, db') = sym run ∙ done in absurd (cc)
    ]

later_Past :
    (lib : Libraries) (uid n : ℕ) (db db' : Db) → Reach lib db db' → Past uid n db → Past uid n db'
later_Past lib uid n db _ here p = p
later_Past lib uid n db _ (next {db = mid} c r new) p =
    run_call-keeps lib (Past uid n) (Past-Stable uid n) c mid
      (λ id stamp event about. ask_for_mail-Past uid n id (asked_at c) stamp event) new
      (later_Past lib uid n db mid r p)

past_test : (v : ℤ) (n : ℕ) → n + 1 ≤ pos_part v → eqb_ℤ (max_ℤ v (pos 0)) (pos n) ≡ false
past_test v n h = ground arith

-- A link that has set a password is invalid ever after, whatever requests run in between, in any order and from
-- whatever they read: where it was minted at a positive version short of the last `i64`, the versions are
-- `i64`s, and new accounts have new ids.
pub reset_password_once :
    (lib : Libraries) (uid n : ℕ) (first second second_hash : Text) (stamp stamp' : Stamp) (v : ℤ)
    (db db' db'' : Db) (r : UserRow)
    → find_row row_id uid db.users ≡ some r
    → InWord half_i64 r.user.version
    → 0 < n
    → n + 1 < half_i64
    → reset_password lib.hash (link uid n) first stamp db ≡ ok (v, db')
    → Reach lib db' db''
    → lib.hash second ≡ ok second_hash
    → reset_password lib.hash (link uid n) second stamp' db'' ≡ err invalid
reset_password_once lib uid n first second second_hash stamp stamp' v db db' db'' r found word
      positive room done reach hashed =
    let p : Past uid (n + 1) db' =
      first_Past lib.hash uid n first stamp v db db' r found word positive room done in
    let q = later_Past lib uid (n + 1) db' db'' reach p in
    reset_password_refused lib.hash uid n second second_hash stamp' db'' hashed q.row q.found q.word
      (past_test q.row.user.version n q.reached)
