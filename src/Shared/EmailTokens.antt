-- ===== src/Shared/EmailTokens.antt =====
-- shared/src/email_token.rs: the tokens that a link in a mail carries. Signing and the checks of the JWT library
-- are arguments; its `decode` is given the clock, the issuer that it demands, and the key.
pub mod RoundTrip
use our_driveway.Prelude.{ℕ, Bool, true, false, Option, none, some, if◌then◌else◌}
use our_driveway.Prelude.Int.{ℤ, ◌+ℤ◌, i64}
use our_driveway.Prelude.Text.{Text, codes}
use our_driveway.Prelude.Result.{MyError, api, Result, ok, err}

pub data Purpose : Type 0 where
  verify_email reset_password : Purpose

unfoldable pub purpose_eq : Purpose → Purpose → Bool
purpose_eq verify_email verify_email = true
purpose_eq reset_password reset_password = true
purpose_eq verify_email reset_password = false
purpose_eq reset_password verify_email = false

pub record EmailTokenClaims : Type 0 where
  pub sub : Text
  pub purpose : Purpose
  pub iat : ℤ
  pub exp : ℤ
  pub iss : Text
  pub ver : Option ℤ

pub record Verified : Type 0 where
  pub user_id : ℕ
  pub version : Option ℤ

-- `ISSUER`
abbrev pub issuer : Text
issuer = codes "OurDriveway"

-- `invalid`
abbrev pub invalid : MyError
invalid = api 400 "Invalid link"

-- `Verified::version`
unfoldable pub version_claim : Verified → Result MyError ℤ
version_claim v = elim v.version [ none ↦ err invalid | some version ↦ ok version ]

-- What the JWT and the uuid libraries do.
pub record TokenLibrary : Type 0 where
  pub encode : Text → EmailTokenClaims → Result MyError Text
  pub decode : ℤ → Text → Text → Text → Option EmailTokenClaims
  pub print_uuid : ℕ → Text
  pub parse_uuid : Text → Option ℕ

module _ (lib : TokenLibrary) (secret : Text) where
  abbrev pub claims_for : ℤ → ℕ → Purpose → ℤ → Option ℤ → EmailTokenClaims
  claims_for now user_id purpose ttl_secs version = record {
    sub = lib.print_uuid user_id;
    purpose = purpose;
    iat = now;
    exp = i64 (now +ℤ ttl_secs);
    iss = issuer;
    ver = version;
  }

  -- `mint`
  unfoldable pub mint : ℤ → ℕ → Purpose → ℤ → Option ℤ → Result MyError Text
  mint now user_id purpose ttl_secs version =
      lib.encode secret (claims_for now user_id purpose ttl_secs version)

  -- What `verify` makes of claims whose signature, issuer and expiry are good.
  unfoldable pub verified : Purpose → EmailTokenClaims → Result MyError Verified
  verified expected claims =
      if purpose_eq claims.purpose expected
      then elim (lib.parse_uuid claims.sub) [
        | none ↦ err invalid
        | some id ↦ ok (record { user_id = id; version = claims.ver })
      ]
      else err invalid

  -- `verify`
  unfoldable pub verify : ℤ → Text → Purpose → Result MyError Verified
  verify now token expected = elim (lib.decode now issuer secret token) [
    | none ↦ err invalid
    | some claims ↦ verified expected claims
  ]
