-- ===== src/User/Keeping/SessionCalls.antt =====
-- apps/services/user-service/src/service/refresh_token_service.rs: the handlers of sessions keep what the
-- statements keep.
use our_driveway.Prelude.{ℕ, ◌==◌, ◌&&◌, refl, not, Option, none, some, any, List}
use our_driveway.Prelude.Int.{ℤ}
use our_driveway.Prelude.Text.{Text, codes, text_eq}
use our_driveway.Prelude.Result.{MyError, api, Result, Tx, ◌>>◌}
use our_driveway.Prelude.Keeping.{
  Keeps, Leads-bind, Leads-return, Leads-read, Leads-require, Leads-context, Leads-modify_last,
}
use our_driveway.Shared.Keyed.{find_row, put}
use our_driveway.User.Rows.{
  User, RefreshToken, SessionEvent, RefreshTokenIssued, RefreshTokenRotated, issued_token,
  rotated_token,
}
use our_driveway.User.Table.{
  Aggregate, Payload, Db, Stamp, row_id, TokenRow, token_row_id, publish, server_error, value_taken,
}
use our_driveway.User.Table.Tokens.{
  kept_token, write_tokens, upsert_token, next_token_version, set_token_version,
  patch_by_token_hash, ended, delete_expired, find_by_token_hash,
}
use our_driveway.User.Sessions.{
  Minted, Fresh, open_session, issue, rotate, trade, revoke, end_session, end_known, live,
}
use our_driveway.User.Keeping.{Stable, is_mail, Leads-of_result, write_tokens-Keeps}

module _ (P : Db → Type 0) (stable : Stable P) where
  written-Keeps : (f : List TokenRow → List TokenRow) → Keeps P (write_tokens f)
  written-Keeps f = Leads-modify_last P P _ (λ db q. stable.sessions db (f db.tokens) q)

  upsert_token-Keeps : (token : RefreshToken) → Keeps P (upsert_token token)
  unfolding upsert_token
  upsert_token-Keeps token =
      Leads-read P P (λ db. any (λ r. row_id r == token.user_id) db.users) _
        (λ known. Leads-require P P known server_error _ (
          Leads-read P P
            (λ db.
              any
                (λ t.
                  not (token_row_id t == token.id) && text_eq t.token.token_hash token.token_hash)
                db.tokens)
            _
            (λ taken. Leads-require P P (not taken) value_taken _ (
              written-Keeps (λ rows.
                put token_row_id (kept_token (find_row token_row_id token.id rows) token) rows)))))

  published-Keeps :
      (stamp : Stamp) (user_id : ℕ) (aggregate : Aggregate) (v : ℤ) (event : SessionEvent)
      → Keeps P (publish stamp user_id aggregate v (Payload.of_session event))
  unfolding is_mail
  published-Keeps stamp user_id aggregate v event = record {
    apply = λ db q. stable.published db _ refl q;
  }

  publish-Keeps :
      {A : Type 0} (stamp : Stamp) (user_id : ℕ) (aggregate : Aggregate) (v : ℤ)
      (event : SessionEvent) (m : Tx Db A)
      → Keeps P m
      → Keeps P (publish stamp user_id aggregate v (Payload.of_session event) >> m)
  publish-Keeps stamp user_id aggregate v event m h =
      Leads-bind P P P _ _ (published-Keeps stamp user_id aggregate v event) (λ _. h)

  module _ (hash : ℕ → Text) where
    -- The row, its version and its event, behind what is done first.
    open_session-Keeps :
        (user_id : ℕ) (token : RefreshToken) (fresh : Fresh) (jwt : Text) (event : SessionEvent)
        → Keeps P (open_session hash user_id token fresh jwt event)
    unfolding open_session
    open_session-Keeps user_id token fresh jwt event =
        Leads-read P P (λ db. next_token_version fresh.token_id db.tokens) _
          (λ v. Leads-bind P P P (upsert_token token) _ (upsert_token-Keeps token) (λ _.
            write_tokens-Keeps P stable (set_token_version fresh.token_id v) _ (
              publish-Keeps fresh.stamp user_id (Aggregate.refresh_token fresh.token_id) v event _
                (Leads-return P P (jwt, fresh.refresh_token, v) (λ db p. p)))))

    pub issue-Keeps :
        (mint : ℕ → Result MyError Minted) (u : User) (fresh : Fresh)
        → Keeps P (issue hash mint u fresh)
    unfolding issue
    issue-Keeps mint u fresh = Leads-of_result P P (mint u.id) _ (λ minted.
        let issued : RefreshTokenIssued = record {
          token_id = fresh.token_id;
          user_id = u.id;
          token_hash = hash fresh.refresh_token;
          jti = minted.jti;
          expires_at = minted.expires_at;
        } in
        open_session-Keeps u.id (issued_token issued fresh.created_at) fresh minted.jwt
          (SessionEvent.issued issued))

    trade-Keeps :
        (old_hash : Text) (user_id : ℕ) (minted : Minted) (fresh : Fresh)
        → Keeps P (trade hash old_hash user_id minted fresh)
    unfolding trade
    trade-Keeps old_hash user_id minted fresh =
        let rotated : RefreshTokenRotated = record {
          old_token_hash = old_hash;
          token_id = fresh.token_id;
          user_id = user_id;
          token_hash = hash fresh.refresh_token;
          jti = minted.jti;
          expires_at = minted.expires_at;
        } in
        Leads-read P P (λ db. next_token_version fresh.token_id db.tokens) _
          (λ v.
            write_tokens-Keeps P stable (patch_by_token_hash old_hash (ended (codes "Rotation"))) _
              (Leads-bind P P P (upsert_token (rotated_token rotated fresh.created_at)) _
                (upsert_token-Keeps (rotated_token rotated fresh.created_at))
                (λ _. write_tokens-Keeps P stable (set_token_version fresh.token_id v) _ (
                  publish-Keeps fresh.stamp user_id (Aggregate.refresh_token fresh.token_id) v
                    (SessionEvent.rotated rotated) _
                    (Leads-return P P (minted.jwt, fresh.refresh_token, v) (λ db p. p))))))

    pub rotate-Keeps :
        (mint : ℕ → Result MyError Minted) (read : Db) (now old : ℕ) (fresh : Fresh)
        → Keeps P (rotate hash mint read now old fresh)
    unfolding rotate
    rotate-Keeps mint read now old fresh =
        Leads-context P P (live hash now (find_by_token_hash (hash old) read.tokens))
          (api 401 "Unauthorized") _
          (λ existing.
            Leads-of_result P P (mint existing.user_id) _
              (λ minted. trade-Keeps (hash old) existing.user_id minted fresh))

    end_known-Keeps :
        (now : ℕ) (token_hash : Text) (stamp : Stamp) (o : Option RefreshToken)
        → Keeps P (end_known hash now token_hash stamp o)
    unfolding end_session is_mail
    end_known-Keeps now token_hash stamp none = Leads-return P P tt (λ db p. p)
    end_known-Keeps now token_hash stamp (some existing) =
        Leads-read P P (λ db. next_token_version existing.id db.tokens) _
          (λ v.
            write_tokens-Keeps P stable (patch_by_token_hash token_hash (ended (codes "logout"))) _
              (write_tokens-Keeps P stable (delete_expired now) _ (
                write_tokens-Keeps P stable (set_token_version existing.id v) _ (
                  published-Keeps stamp existing.user_id (Aggregate.refresh_token existing.id) v (
                    SessionEvent.revoked
                      (record { token_hash = token_hash; reason = codes "logout" }))))))

    pub revoke-Keeps :
        (read : Db) (now token : ℕ) (stamp : Stamp) → Keeps P (revoke hash read now token stamp)
    unfolding revoke
    revoke-Keeps read now token stamp =
        end_known-Keeps now (hash token) stamp (find_by_token_hash (hash token) read.tokens)
