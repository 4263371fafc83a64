-- ===== src/Shared/EmailTokens/RoundTrip.antt =====
-- shared/src/email_token.rs: what is verified of a token that was minted.
use our_driveway.Prelude.{ℕ, ◌≡◌, refl, ◌∙◌, true, Option, some, if◌then◌else◌}
use our_driveway.Prelude.Int.{ℤ, ◌+ℤ◌, i64, leb_ℤ}
use our_driveway.Prelude.Text.{Text}
use our_driveway.Prelude.Result.{ok, err}
use our_driveway.Shared.EmailTokens.{
  Purpose, purpose_eq, EmailTokenClaims, invalid, TokenLibrary, claims_for, mint, verified, verify,
  issuer,
}

-- What the two libraries document: a uuid that is printed is read back, and a token that is signed with a secret
-- is accepted under it and its issuer until it expires.
pub record Honest (lib : TokenLibrary) : Type 0 where
  pub uuids : (id : ℕ) → lib.parse_uuid (lib.print_uuid id) ≡ some id
  pub signs :
      (secret : Text) (claims : EmailTokenClaims)
      → (token : Text) × (lib.encode secret claims ≡ ok token)
        × ((now : ℤ)
            → leb_ℤ now claims.exp ≡ true
            → lib.decode now claims.iss secret token ≡ some claims)

module _ (lib : TokenLibrary) (honest : Honest lib) (secret : Text) (now later ttl_secs : ℤ)
    (user_id : ℕ) (version : Option ℤ) where
  verified-claims_for :
      (purpose expected : Purpose)
      → verified lib secret expected (claims_for lib secret now user_id purpose ttl_secs version)
        ≡ (if purpose_eq purpose expected
            then ok (record { user_id = user_id; version = version })
            else err invalid)
  unfolding verified
  verified-claims_for purpose expected = rw (honest.uuids user_id) refl

  verify-decoded :
      (token : Text) (claims : EmailTokenClaims) (expected : Purpose)
      → lib.decode later issuer secret token ≡ some claims
      → verify lib secret later token expected ≡ verified lib secret expected claims
  unfolding verify
  verify-decoded token claims expected h = rw (h, verify) refl

  -- A token is good for what it was minted for until it expires: it proves the user and the version that it was
  -- minted with; for the other purpose it is invalid. It is assumed that the JWT and the uuid library do what
  -- they document.
  pub verify-mint :
      (purpose : Purpose)
      → leb_ℤ later (i64 (now +ℤ ttl_secs)) ≡ true
      → (token : Text) × (mint lib secret now user_id purpose ttl_secs version ≡ ok token)
        × ((expected : Purpose)
            → verify lib secret later token expected ≡ (
                if purpose_eq purpose expected
                then ok (record { user_id = user_id; version = version })
                else err invalid))
  unfolding mint
  verify-mint purpose fresh =
      let (token, signed, accepted) =
        honest.signs secret (claims_for lib secret now user_id purpose ttl_secs version) in
      (
        token,
        signed,
        λ expected.
            verify-decoded token _ expected (accepted later fresh)
            ∙ verified-claims_for purpose expected,
      )
