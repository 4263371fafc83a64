-- ===== src/User/Sessions.antt =====
-- apps/services/user-service/src/service/refresh_token_service.rs: opening, trading and ending a session. The
-- tokens, their hash and what the JWT library mints are arguments.
use our_driveway.Prelude.{ℕ, ltb, not, ◌&&◌, Option, none, some, if◌then◌else◌}
use our_driveway.Prelude.Int.{ℤ}
use our_driveway.Prelude.Text.{Text, codes}
use our_driveway.Prelude.Result.{MyError, api, Result, Tx, ◌>>=◌, ◌>>◌, return, gets, context}
use our_driveway.User.Rows.{
  User, RefreshTokenIssued, RefreshTokenRotated, RefreshTokenRevoked, SessionEvent, RefreshToken,
  issued_token, rotated_token,
}
use our_driveway.User.Table.{Aggregate, Payload, Db, Stamp, publish}
use our_driveway.User.Table.Tokens.{
  next_token_version, set_token_version, find_by_token_hash, write_tokens, upsert_token,
  patch_by_token_hash, ended, delete_expired,
}
use our_driveway.User.Service.{of_result}

-- What `jwt::mint` answers: the access token, when its session ends, and the id that binds the two.
pub record Minted : Type 0 where
  pub jwt : Text
  pub expires_at : ℕ
  pub jti : ℕ

-- The ids and instants that a handler takes from outside.
pub record Fresh : Type 0 where
  pub refresh_token : ℕ
  pub token_id : ℕ
  pub created_at : ℕ
  pub stamp : Stamp

-- `token::hash` is `hash`.
module _ (hash : ℕ → Text) where
  -- The row of a new session, its version and its event.
  unfoldable pub open_session :
      ℕ → RefreshToken → Fresh → Text → SessionEvent → Tx Db (Text × ℕ × ℤ)
  open_session user_id token fresh jwt event = do
    version ← gets (λ db. next_token_version fresh.token_id db.tokens)
    upsert_token token
    write_tokens (set_token_version fresh.token_id version)
    publish fresh.stamp user_id (Aggregate.refresh_token fresh.token_id) version
        (Payload.of_session event)
    return (jwt, fresh.refresh_token, version)

  -- `issue`
  unfoldable pub issue : (ℕ → Result MyError Minted) → User → Fresh → Tx Db (Text × ℕ × ℤ)
  issue mint u fresh = do
    minted ← of_result (mint u.id)
    let issued : RefreshTokenIssued = record {
      token_id = fresh.token_id;
      user_id = u.id;
      token_hash = hash fresh.refresh_token;
      jti = minted.jti;
      expires_at = minted.expires_at;
    }
    open_session u.id (issued_token issued fresh.created_at) fresh minted.jwt
        (SessionEvent.issued issued)

  -- Neither revoked nor expired.
  abbrev pub live : ℕ → Option RefreshToken → Option RefreshToken
  live now none = none
  live now (some t) = if not t.revoked && not (ltb t.expires_at now) then some t else none

  -- The transaction of `rotate`: the old token dies and the new one is opened.
  unfoldable pub trade : Text → ℕ → Minted → Fresh → Tx Db (Text × ℕ × ℤ)
  trade old_hash user_id minted fresh = do
    let rotated : RefreshTokenRotated = record {
      old_token_hash = old_hash;
      token_id = fresh.token_id;
      user_id = user_id;
      token_hash = hash fresh.refresh_token;
      jti = minted.jti;
      expires_at = minted.expires_at;
    }
    version ← gets (λ db. next_token_version fresh.token_id db.tokens)
    write_tokens (patch_by_token_hash old_hash (ended (codes "Rotation")))
    upsert_token (rotated_token rotated fresh.created_at)
    write_tokens (set_token_version fresh.token_id version)
    publish fresh.stamp user_id (Aggregate.refresh_token fresh.token_id) version
        (Payload.of_session (SessionEvent.rotated rotated))
    return (minted.jwt, fresh.refresh_token, version)

  -- `rotate`, where `now` is when the old token was looked up.
  unfoldable pub rotate : (ℕ → Result MyError Minted) → Db → ℕ → ℕ → Fresh → Tx Db (Text × ℕ × ℤ)
  rotate mint read now old fresh = do
    existing ←
        context (live now (find_by_token_hash (hash old) read.tokens)) (api 401 "Unauthorized")
    minted ← of_result (mint existing.user_id)
    trade (hash old) existing.user_id minted fresh

  -- The transaction of `revoke`, where `now` is the clock that expired sessions are dropped by.
  unfoldable pub end_session : ℕ → Text → Stamp → RefreshToken → Tx Db (Unit {0})
  end_session now token_hash stamp existing = do
    let revoked : RefreshTokenRevoked = record { token_hash = token_hash; reason = codes "logout" }
    version ← gets (λ db. next_token_version existing.id db.tokens)
    write_tokens (patch_by_token_hash token_hash (ended revoked.reason))
    write_tokens (delete_expired now)
    write_tokens (set_token_version existing.id version)
    publish stamp existing.user_id (Aggregate.refresh_token existing.id) version
        (Payload.of_session (SessionEvent.revoked revoked))

  abbrev pub end_known : ℕ → Text → Stamp → Option RefreshToken → Tx Db (Unit {0})
  end_known now token_hash stamp none = return tt
  end_known now token_hash stamp (some existing) = end_session now token_hash stamp existing

  -- `revoke`
  unfoldable pub revoke : Db → ℕ → ℕ → Stamp → Tx Db (Unit {0})
  revoke read now token stamp =
      end_known now (hash token) stamp (find_by_token_hash (hash token) read.tokens)
