-- ===== src/Sdk/Verify.antt =====
-- `Verifier.Verify` of sdk/verifier.go. A nil feed is `none`.
use legant.Base.{
  ℕ, ℤ, ltb_ℤ, String, Bool, true, false, not, ◌&&◌, Option, none, some, ◌==◌, string_eq,
  if◌then◌else◌,
}
use legant.Base.Result.{Result, ok, err, ◌>>=◌, ◌>>◌, reject_if}
use legant.World.{World}
use legant.Delegation.Jwt.{ActClaim, nobody, actor, DelegationClaims, Jwt}
use legant.Sdk.{audience_matches}
use legant.Sdk.Feed.{RevocationFeed, is_revoked, staleness}

pub data VerifyError : Type 0 where
  unparsed no_act wrong_audience stale_feed revoked_token : VerifyError

abbrev pub has_no_act : ActClaim → Bool
has_no_act nobody = true
has_no_act (actor sub act) = false

abbrev pub parsed_or : {A : Type 0} → Option A → Result VerifyError A
parsed_or none = err unparsed
parsed_or (some c) = ok c

module _ ⦃W : World⦄ ⦃J : Jwt⦄ where
  pub record Verifier : Type 0 where
    pub issuer : String
    pub audience : String
    pub keys : String → Option J.PublicKey
    pub feed : Option RevocationFeed
    pub feed_fail_closed : Bool
    pub feed_max_staleness : ℤ

  -- The kid header, "" where it is missing, selects the key.
  unfoldable pub trusted_key : Verifier → String → Option J.PublicKey
  trusted_key v kid = if kid == "" then none else v.keys kid

  abbrev pub feed_stale : Verifier → ℕ → Option RevocationFeed → Bool
  feed_stale v now none = false
  feed_stale v now (some f) = v.feed_fail_closed && ltb_ℤ v.feed_max_staleness (staleness f now)

  abbrev pub feed_lists : Option RevocationFeed → String → Bool
  feed_lists none id = false
  feed_lists (some f) id = not (id == "") && is_revoked f id

  unfoldable pub verify : Verifier → ℕ → J.Token → Result VerifyError DelegationClaims
  verify v now token = do
    c ←
        parsed_or
          (J.parse (trusted_key v) (record { issuer = v.issuer; audience = none }) now token)
    reject_if (has_no_act c.act) no_act
    reject_if (not (audience_matches c.audience v.audience)) wrong_audience
    reject_if (feed_stale v now v.feed) stale_feed
    reject_if (feed_lists v.feed c.id) revoked_token
    ok c
