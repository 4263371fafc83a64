-- ===== src/User/Table/Tokens.antt =====
-- apps/services/user-service/src/repository/refresh_token_repository.rs: the statements on `refresh_token`.
use mathlib.Core.Option
use our_driveway.Prelude.{
  ℕ, ◌==◌, ltb, not, ◌&&◌, true, Option, none, some, List, any, find?, keep, given, or_else,
}
use our_driveway.Prelude.Int.{ℤ, pos}
use our_driveway.Prelude.Text.{Text, text_eq}
use our_driveway.Prelude.Result.{Tx, ◌>>=◌, ◌>>◌, gets, modify, require}
use our_driveway.Shared.Versions.{next_version, set_version}
use our_driveway.Shared.Keyed.{find_row, put, update_where}
use our_driveway.User.Rows.{RefreshToken, RefreshTokenPatch}
use our_driveway.User.Table.{Db, TokenRow, row_id, token_row_id, server_error, value_taken}

abbrev version_of_token : TokenRow → ℤ
version_of_token t = t.version

unfoldable pub next_token_version : ℕ → List TokenRow → ℤ
next_token_version id rows =
    next_version (Option.map version_of_token (find_row token_row_id id rows))

unfoldable pub set_token_version : ℕ → ℤ → List TokenRow → List TokenRow
set_token_version id v =
    update_where (λ t. token_row_id t == id) (λ t. record t { version = set_version t.version v })

abbrev token_of : TokenRow → RefreshToken
token_of t = t.token

-- `RefreshTokenRepository::find_by_token_hash`
unfoldable pub find_by_token_hash : Text → List TokenRow → Option RefreshToken
find_by_token_hash hash rows =
    Option.map token_of (find? (λ t. text_eq t.token.token_hash hash) rows)

abbrev pub write_tokens : (List TokenRow → List TokenRow) → Tx Db (Unit {0})
write_tokens f = modify (λ db. record db { tokens = f db.tokens })

-- What an upsert leaves alone: the version, by default 0, and a reason that is there.
abbrev pub kept_token : Option TokenRow → RefreshToken → TokenRow
kept_token none token = record { token = token; version = pos 0 }
kept_token (some old) token = record {
  token = record token { revoked_reason = or_else token.revoked_reason old.token.revoked_reason };
  version = old.version;
}

-- `RefreshTokenRepository::upsert`, below the foreign key and the unique index on the hash.
unfoldable pub upsert_token : RefreshToken → Tx Db (Unit {0})
upsert_token token = do
  known ← gets (λ db. any (λ r. row_id r == token.user_id) db.users)
  require known server_error
  taken ← gets (λ db.
      any (λ t. not (token_row_id t == token.id) && text_eq t.token.token_hash token.token_hash)
        db.tokens)
  require (not taken) value_taken
  write_tokens
      (λ rows. put token_row_id (kept_token (find_row token_row_id token.id rows) token) rows)

-- The `SET` list of a `RefreshTokenPatch`.
unfoldable pub patch_token : RefreshTokenPatch → TokenRow → TokenRow
patch_token patch t = record t {
  token = record t.token {
    revoked = given patch.revoked t.token.revoked;
    revoked_reason = or_else patch.revoked_reason t.token.revoked_reason;
  };
}

abbrev pub ended : Text → RefreshTokenPatch
ended reason = record { revoked = some true; revoked_reason = some reason }

-- `RefreshTokenRepository::patch_by_token_hash`
unfoldable pub patch_by_token_hash : Text → RefreshTokenPatch → List TokenRow → List TokenRow
patch_by_token_hash hash patch =
    update_where (λ t. text_eq t.token.token_hash hash) (patch_token patch)

-- `RefreshTokenRepository::revoke_all_for_user`
unfoldable pub revoke_all_for_user : ℕ → Text → List TokenRow → List TokenRow
revoke_all_for_user user_id reason =
    update_where (λ t. t.token.user_id == user_id && not t.token.revoked)
      (patch_token (ended reason))

-- `RefreshTokenRepository::delete_expired`
unfoldable pub delete_expired : ℕ → List TokenRow → List TokenRow
delete_expired before = keep (λ t. not (ltb t.token.expires_at before))
