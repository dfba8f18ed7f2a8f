-- ===== src/Tests/Exchange.antt =====
-- Tests and instances for internal/auth/token_exchange.go and internal/revocation: the OCR agent
-- exchanges Alice's token, the token is introspected, and it is revoked.
use legant.Base.{
  ℕ, pos, String, ◌≡◌, ◌≢◌, refl, true, false, not, List, [], ◌∷◌, none, some, string_eq, ltb,
  contains,
}
use legant.Base.Result.{ok}
use legant.Delegation.Grant.{link}
use legant.Delegation.Jwt.{DelegationClaims}
use legant.Delegation.Token.{verify, verify_any}
use legant.Delegation.Token.RoundTrip.{minted}
use legant.Mcpauth.{
  resource_matches, canonical, canonicalize_resource, canonicalize_resource-IsAcceptable,
  IsAcceptable,
}
use legant.World.{Url}
use legant.Database.{TokenRow, Database}
use legant.Revocation.{find_token, record_tx, is_active, revoke, revoke_by_delegation, feed_jtis}
use legant.Revocation.Laws.{HasUniqueJtis}
use legant.Exchange.{
  Form, TokenExchanger, TokenResponse, Introspection, answer, verifier_of, signer_of, clamp_leaf,
  check_form, shape_grant, record_mint, count_recent, handle, introspect_delegation,
}
use legant.Exchange.Sound.{Granted, handle-Granted}
use legant.Exchange.Limits.{
  TokenWritten, handle-capped, handle-recorded, introspect_delegation-revoke,
}
use legant.Tests.Sample.{sample, sample_jwt}
use legant.Tests.Delegation.{api_verifier, passed_on}
use legant.Tests.Chains.{store, delegated_rows, delegated_rows-IsSound, ocr_chain}

unfoldable exchange : Unit {0}
unfolding store check_form shape_grant record_mint count_recent handle introspect_delegation
    verify_any resource_matches find_token record_tx is_active revoke revoke_by_delegation feed_jtis
exchange = tt

abbrev exchanger : TokenExchanger
exchanger = record {
  issuer = "https://legant";
  ttl = pos 300;
  active_kid = "k1";
  active_signer = 77;
  verifier_keys = api_verifier.keys;
  resolve_actor = λ t. some "ocr";
  resolve_subject = λ t. some ("alice", "expenses:submit" ∷ "expenses:read" ∷ []);
}

abbrev ocr_form : Form
ocr_form = record {
  subject_token = "alice-token";
  actor_token = "ocr-token";
  subject_token_type = "";
  actor_token_type = "";
  resources = "https://api/" ∷ [];
  scope = "expenses:submit expenses:delete";
}

abbrev ocr_claims : DelegationClaims
ocr_claims =
    minted (signer_of exchanger) (clamp_leaf ocr_chain passed_on 303) passed_on "https://api/" 3
      "j1"

abbrev ocr_answer : TokenResponse
ocr_answer = record {
  access_token = record { kid = "k1"; key = 77; claims = ocr_claims };
  expires_at = 303;
  scope = "expenses:submit";
}

abbrev exchanged_rows : Database
exchanged_rows = record delegated_rows {
  tokens =
      record {
        jti = "j1";
        delegation_id = some "d2";
        subject = "user:alice";
        agent_id = some "ocr";
        actor_chain = "agent:ocr" ∷ "agent:assistant" ∷ [];
        audience = "https://api/";
        scopes = passed_on;
        issued_at = 3;
        expires_at = 303;
        revoked_at = none;
      }
      ∷ [];
  audit =
      record {
        actor_type = "agent";
        actor_id = "ocr";
        action = "token.exchanged";
        resource_id = "j1";
        on_behalf_of_sub = "user:alice";
        actor_chain = "agent:ocr" ∷ "agent:assistant" ∷ [];
        delegation_id = some "d2";
        grant_jti = "j1";
      }
      ∷ [];
}

ocr_exchanged :
    handle exchanger delegated_rows 3 (some "j1") ocr_form ≡ ok (exchanged_rows, ocr_answer)
unfolding exchange
ocr_exchanged = refl

handle-Granted_example :
    (claims : DelegationClaims) × (audience : String) × (verify
        (verifier_of exchanger)
        3
        ocr_answer.access_token
        audience
      ≡ ok claims)
    × Granted exchanger delegated_rows 3 ocr_form claims
handle-Granted_example =
    handle-Granted exchanger delegated_rows 3 (some "j1") ocr_form delegated_rows-IsSound.0
      delegated_rows-IsSound.1 ocr_exchanged

-- The resolved grant has the user's own cap of five an hour.
ocr_capped : (link ocr_chain).constraints.rate ≡ some (record { max_per_hour = pos 5 })
unfolding exchange
ocr_capped = refl

handle-capped_example :
    TokenWritten exchanger delegated_rows 3 (some "j1") ocr_form exchanged_rows ocr_answer
handle-capped_example = handle-capped exchanger delegated_rows 3 (some "j1") ocr_form ocr_exchanged

handle-recorded_example :
    (claims : DelegationClaims) × (audience : String) × (verify
        (verifier_of exchanger)
        3
        ocr_answer.access_token
        audience
      ≡ ok claims)
    × ((later : ℕ) → is_active delegated_rows.tokens later claims.id ≡ false)
    × ((later : ℕ) → is_active exchanged_rows.tokens later claims.id ≡ not (ltb 303 later))
    × ((later : ℕ) (jti : String)
        → claims.id ≢ jti
        → is_active exchanged_rows.tokens later jti ≡ is_active delegated_rows.tokens later jti)
handle-recorded_example =
    handle-recorded exchanger delegated_rows 3 (some "j1") ocr_form ocr_exchanged

ocr_introspected :
    introspect_delegation exchanger exchanged_rows 9 ocr_answer.access_token
    ≡ some (answer true ocr_claims)
unfolding exchange
ocr_introspected = refl

ocr_verifies : verify_any (verifier_of exchanger) 20 ocr_answer.access_token ≡ ok ocr_claims
unfolding exchange
ocr_verifies = refl

ocr_dead :
    introspect_delegation exchanger
      (record exchanged_rows { tokens = (revoke exchanged_rows.tokens 9 "j1").0 })
      20
      ocr_answer.access_token
    ≡ some (answer false ocr_claims)
unfolding exchange
ocr_dead = refl

abbrev silent : Introspection
silent = answer false ocr_claims

introspect_delegation-revoke_example : (silent.active ≡ false) × (silent.body ≡ none)
introspect_delegation-revoke_example =
    introspect_delegation-revoke exchanger exchanged_rows 9 20 ocr_answer.access_token "j1"
      (answer false ocr_claims) ocr_verifies refl ocr_dead

abbrev revoked_tokens : List TokenRow
revoked_tokens =
    record {
      jti = "j1";
      delegation_id = some "d2";
      subject = "user:alice";
      agent_id = some "ocr";
      actor_chain = "agent:ocr" ∷ "agent:assistant" ∷ [];
      audience = "https://api/";
      scopes = passed_on;
      issued_at = 3;
      expires_at = 303;
      revoked_at = some 9;
    }
    ∷ []

revoked_tokens-HasUniqueJtis : HasUniqueJtis revoked_tokens
unfolding exchange
revoked_tokens-HasUniqueJtis = (refl, tt)

revoked_on_feed : contains (feed_jtis revoked_tokens 20) "j1" ≡ true
unfolding exchange
revoked_on_feed = refl

api_canonical : canonicalize_resource "https://api:443" ≡ canonical "https://api"
unfolding exchange
api_canonical = refl

canonicalize_resource-IsAcceptable_example :
    (u : Url) × (sample.url_parse "https://api:443" ≡ some u) × IsAcceptable u
canonicalize_resource-IsAcceptable_example =
    canonicalize_resource-IsAcceptable "https://api:443" "https://api" api_canonical
