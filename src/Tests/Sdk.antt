-- ===== src/Tests/Sdk.antt =====
-- Tests and instances for sdk: the OCR agent's token at the API that it is meant for.
use legant.Base.{
  ℕ, pos, leb_ℤ, String, ◌≡◌, refl, true, List, [], ◌∷◌, Option, none, some, arith, eq_iff,
  string_eq,
}
use legant.Base.Result.{ok}
use legant.Delegation.Constraints.{Action}
use legant.Delegation.Jwt.{DelegationClaims}
use legant.Delegation.Token.{authorize}
use legant.Delegation.Token.RoundTrip.{minted}
use legant.Sdk.{
  canonicalize_audience, audience_matches, scope_listed, actors_of, window_allows, permit_canonical,
  authorize_claims,
}
use legant.Sdk.Feed.{FeedClaims, RevocationFeed, is_revoked, staleness, apply, poll, poll-monotone}
use legant.Sdk.Verify.{Verifier, trusted_key, verify}
use legant.Sdk.Laws.{authorize_claims_sound}
use legant.Sdk.Accept.{Taken, verify-Taken, verify-minted}
use legant.Tests.Sample.{sample, sample_jwt}
use legant.Tests.Delegation.{
  issuer_key, api_verifier, passed_on, ocr_grant, ocr_token, ocr_issued, lunch,
}
use legant.Tests.Chains.{store}

unfoldable pub resource_server : Unit {0}
unfolding store canonicalize_audience audience_matches scope_listed actors_of window_allows
    permit_canonical authorize_claims trusted_key verify is_revoked staleness apply poll
resource_server = tt

abbrev day_feed : RevocationFeed
day_feed = record { revoked = "j7" ∷ []; version = pos 3; fetched_at = 15 }

abbrev api_server : Verifier
api_server = record {
  issuer = "https://legant";
  audience = "https://api/";
  keys = api_verifier.keys;
  feed = some day_feed;
  feed_fail_closed = true;
  feed_max_staleness = pos 60;
}

abbrev ocr_claims : DelegationClaims
ocr_claims = minted issuer_key ocr_grant passed_on "https://api/" 10 "j1"

api_takes : verify api_server 20 ocr_token ≡ ok ocr_claims
unfolding resource_server
api_takes = refl

verify-Taken_example : Taken api_server 20 ocr_token ocr_claims
verify-Taken_example = verify-Taken api_server 20 ocr_token api_takes

abbrev plain_server : Verifier
plain_server = record api_server { feed = none }

verify-minted_example :
    (jti : String) × (some "j1" ≡ some jti)
    × (verify plain_server 20 ocr_token
        ≡ ok (minted issuer_key ocr_grant passed_on "https://api/" 10 jti))
unfolding resource_server
verify-minted_example =
    verify-minted issuer_key ocr_grant passed_on "https://api/" 10 (some "j1") plain_server 20 refl
      (λ e. ground (arith, e, eq_iff "k1" "")) refl refl refl (omega arith) ocr_issued

server_authorizes_lunch : authorize_claims 1 ocr_claims lunch ≡ none
unfolding resource_server
server_authorizes_lunch = refl

authorize_claims_sound_example :
    (r : String) × (canonicalize_audience r ≡ canonicalize_audience "https://api/")
    × (authorize 1 ocr_claims (record lunch { resource_of = r }) ≡ none)
authorize_claims_sound_example = authorize_claims_sound 1 ocr_claims lunch server_authorizes_lunch

abbrev anywhere : Action
anywhere = record lunch { resource_of = "" }

-- A body is its own claims.
abbrev read_body : ℕ → FeedClaims → Option FeedClaims
read_body now c = some c

abbrev bodies : List (ℕ × FeedClaims)
bodies =
    (20, record { version = pos 4; jtis = "j1" ∷ [] })
    ∷ (30, record { version = pos 2; jtis = [] })
    ∷ []

replay_refused : (poll read_body day_feed bodies).version ≡ pos 4
unfolding resource_server
replay_refused = refl

poll-monotone_example : leb_ℤ (pos 3) (poll read_body day_feed bodies).version ≡ true
poll-monotone_example = poll-monotone read_body day_feed bodies

abbrev next_body : FeedClaims
next_body = record { version = pos 4; jtis = "j1" ∷ [] }

next_lists : is_revoked (apply read_body day_feed 20 next_body).0 "j1" ≡ true
unfolding resource_server
next_lists = refl
