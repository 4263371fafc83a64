-- ===== src/User/Races.antt =====
-- apps/services/user-service/src/service/refresh_token_service.rs: a session that is traded while the password is
-- reset.
use our_driveway.Prelude.{
  ℕ, ◌==◌, not, ◌&&◌, ◌≡◌, refl, ap, subst, ◌∙◌, Bool, true, false, none, some, List, [], ◌∷◌,
  arith, any, ==_iff, All,
}
use our_driveway.Prelude.Int.{ℤ, pos}
use our_driveway.Prelude.Text.{Text, text_eq, codes}
use our_driveway.Prelude.Result.{MyError, Result, ok, committed}
use our_driveway.Shared.Keyed.{find_row, put, update_where}
use our_driveway.Shared.Keyed.Laws.{find-put_here, find-update_where}
use our_driveway.Shared.Versions.{set_version}
use our_driveway.User.Rows.{RefreshToken, rotated_token, RefreshTokenPatch}
use our_driveway.User.Table.{Db, Stamp, UserRow, TokenRow, row_id, token_row_id}
use our_driveway.User.Table.Tokens.{
  kept_token, upsert_token, patch_by_token_hash, patch_token, ended, set_token_version,
  next_token_version, find_by_token_hash,
}
use our_driveway.User.Reset.{Reset, Ended}
use our_driveway.User.Sessions.{Minted, Fresh, trade, rotate, live}

-- A row that is found has the id.
found_any :
    (uid : ℕ) (rows : List UserRow) (r : UserRow)
    → find_row row_id uid rows ≡ some r
    → any (λ a. row_id a == uid) rows ≡ true
unfolding find_row
found_any uid [] r h = cc
found_any uid (a ∷ rows) r h = ground (arith, found_any uid rows r)

abbrev hash_taken : RefreshToken → List TokenRow → Bool
hash_taken token rows =
    any (λ t. not (token_row_id t == token.id) && text_eq t.token.token_hash token.token_hash) rows

module _ (hash : ℕ → Text) (fresh : Fresh) (minted : Minted) (old_hash : Text) (uid : ℕ) where
  abbrev pub traded : RefreshToken
  traded =
      rotated_token
        (record {
          old_token_hash = old_hash;
          token_id = fresh.token_id;
          user_id = uid;
          token_hash = hash fresh.refresh_token;
          jti = minted.jti;
          expires_at = minted.expires_at;
        })
        fresh.created_at

  abbrev pub others_ended : List TokenRow → List TokenRow
  others_ended rows = patch_by_token_hash old_hash (ended (codes "Rotation")) rows

  trade_opens :
      (db : Db)
      → any (λ r. row_id r == uid) db.users ≡ true
      → hash_taken traded (others_ended db.tokens) ≡ false
      → (committed (trade hash old_hash uid minted fresh) db).tokens
        ≡ set_token_version fresh.token_id (next_token_version fresh.token_id db.tokens) (
            put token_row_id
              (kept_token (find_row token_row_id fresh.token_id (others_ended db.tokens)) traded)
              (others_ended db.tokens))
  unfolding trade upsert_token
  trade_opens db known free = rw (known, free, trade, upsert_token, committed) refl

-- A hash that no row has is free, whatever ends.
free_after :
    (token : RefreshToken) (test : TokenRow → Bool) (patch : RefreshTokenPatch)
    (rows : List TokenRow)
    → any (λ t. text_eq t.token.token_hash token.token_hash) rows ≡ false
    → hash_taken token (update_where test (patch_token patch) rows) ≡ false
unfolding update_where patch_token
free_after token test patch [] h = refl
free_after token test patch (t ∷ rows) h = ground (arith, free_after token test patch rows)

-- The row that stands under the new id.
versioned :
    (id : ℕ) (v : ℤ) (row : TokenRow) (rows : List TokenRow)
    → token_row_id row ≡ id
    → find_row token_row_id id (set_token_version id v (put token_row_id row rows))
      ≡ some (record row { version = set_version row.version v })
unfolding set_token_version
versioned id v row rows e =
    find-update_where token_row_id (λ t. token_row_id t == id)
      (λ t. record t { version = set_version t.version v }) (λ a. refl) id
      (put token_row_id row rows)
    ∙ rw
        (subst (λ k. find_row token_row_id k (put token_row_id row rows) ≡ some row) e
          (find-put_here token_row_id row rows))
        (rw ((==_iff (token_row_id row) id).1 e) refl)

none_after :
    (id : ℕ) (hash : Text) (patch : RefreshTokenPatch) (rows : List TokenRow)
    → find_row token_row_id id rows ≡ none
    → find_row token_row_id id (patch_by_token_hash hash patch rows) ≡ none
unfolding patch_by_token_hash patch_token
none_after id hash patch rows new =
    find-update_where token_row_id (λ t. text_eq t.token.token_hash hash) (patch_token patch)
      (λ a. refl) id rows
    ∙ rw new refl

-- What a session reads, that is traded.
module _ (hash : ℕ → Text) (mint : ℕ → Result MyError Minted) (fresh : Fresh) (minted : Minted)
    (old uid now : ℕ) (read db : Db) where
  rotate-trade :
      (session : RefreshToken)
      → live hash now (find_by_token_hash (hash old) read.tokens) ≡ some session
      → session.user_id ≡ uid
      → mint uid ≡ ok minted
      → rotate hash mint read now old fresh db ≡ trade hash (hash old) uid minted fresh db
  unfolding rotate
  rotate-trade session seen owned mints = rw (seen) (rw (owned) (rw mints refl))

  abbrev opened : TokenRow
  opened = record {
    token = traded hash fresh minted (hash old) uid;
    version = set_version (pos 0) (next_token_version fresh.token_id db.tokens);
  }

  trade-opened :
      any (λ r. row_id r == uid) db.users ≡ true
      → any (λ t. text_eq t.token.token_hash (hash fresh.refresh_token)) db.tokens ≡ false
      → find_row token_row_id fresh.token_id db.tokens ≡ none
      → find_row token_row_id fresh.token_id
          (committed (trade hash (hash old) uid minted fresh) db).tokens
        ≡ some opened
  unfolding patch_by_token_hash
  trade-opened known free new =
      let gone = none_after fresh.token_id (hash old) (ended (codes "Rotation")) db.tokens new in
      ap (find_row token_row_id fresh.token_id) (
        trade_opens hash fresh minted (hash old) uid db known (
          free_after (traded hash fresh minted (hash old) uid)
            (λ t. text_eq t.token.token_hash (hash old)) (ended (codes "Rotation")) db.tokens free))
      ∙ rw gone (
          versioned fresh.token_id (next_token_version fresh.token_id db.tokens)
            (record { token = traded hash fresh minted (hash old) uid; version = pos 0 })
            (others_ended hash fresh minted (hash old) uid db.tokens) refl)

-- A session that was looked up before a reset of its account's password is traded after it for a new session,
-- which is live, while the reset had ended every session of the account: where the new id and the new
-- hash are unused.
pub rotate_stale :
    (hash : ℕ → Text) (mint : ℕ → Result MyError Minted) (fresh : Fresh) (minted : Minted)
    (old uid now n : ℕ) (read db db' : Db) (session : RefreshToken) (password_hash : Text)
    (stamp : Stamp)
    → live hash now (find_by_token_hash (hash old) read.tokens) ≡ some session
    → session.user_id ≡ uid
    → mint uid ≡ ok minted
    → Reset uid n password_hash stamp db db'
    → any (λ t. text_eq t.token.token_hash (hash fresh.refresh_token)) db'.tokens ≡ false
    → find_row token_row_id fresh.token_id db'.tokens ≡ none
    → All (Ended uid) db'.tokens
      × (t : TokenRow) × (find_row token_row_id fresh.token_id
            (committed (rotate hash mint read now old fresh) db').tokens
          ≡ some t)
      × (t.token.user_id ≡ uid)
      × (t.token.revoked ≡ false)
      × (t.token.token_hash ≡ hash fresh.refresh_token)
rotate_stale hash mint fresh minted old uid now n read db db' session password_hash stamp seen owned
      mints reset free new =
    let known = found_any uid db'.users _ reset.account in
    let same = rotate-trade hash mint fresh minted old uid now read db' session seen owned mints in
    let opens = trade-opened hash mint fresh minted old uid now read db' known free new in
    (
      reset.sessions,
      opened hash mint fresh minted old uid now read db',
      rw (same, committed) opens,
      refl,
      refl,
      refl,
    )
