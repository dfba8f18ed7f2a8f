-- ===== src/Exchange.antt =====
-- internal/auth/token_exchange.go: the RFC 8693 token exchange and the introspection of its tokens.
-- The two resolvers that the server injects are fields of the exchanger, as in the source; the
-- transaction is one step; `time.Now()` and `now()` are the argument `now`.
pub mod Steps
pub mod Handle
pub mod Sound
pub mod Limits
use legant.Base.{
  ℕ, suc, ◌+◌, ℤ, pos, negsuc, ltb_ℤ, leb_ℤ, shift, ltb, leb, String, Bool, true, false, not, ◌&&◌,
  ◌||◌, List, [], ◌∷◌, Option, none, some, ◌==◌, string_eq, is_empty, any, if◌then◌else◌,
}
use legant.Base.Text.{fields, join}
use legant.Base.Result.{Result, ok, err, ◌>>=◌, ◌>>◌, reject_if}
use legant.World.{World}
use legant.Delegation.AllowList.{attenuate}
use legant.Delegation.Constraints.{RateLimit}
use legant.Delegation.Grant.{Link, Grant, root, child, link}
use legant.Delegation.Jwt.{ActClaim, nobody, actor, DelegationClaims, Jwt}
use legant.Delegation.Token.{
  Signer, Verifier, TokenError, actor_chain, issue_for_grant, verify, verify_any,
}
use legant.Mcpauth.{Canonical, canonical, invalid, canonicalize_resource, resource_matches}
use legant.Database.{TokenRow, AuditRow, Database}
use legant.Revocation.{record_tx, is_active}
use legant.Chains.{ChainError, resolve_grant_chain}

-- One constructor for each call of `oauthError`.
pub data ExchangeError : Type 0 where
  tokens_required bad_subject_type bad_actor_type many_resources no_resource : ExchangeError
  bad_actor bad_subject no_delegation no_scope bad_resource resource_denied : ExchangeError
  expired mint_failed self_verification rate_limited record_failed : ExchangeError

unfoldable pub status : ExchangeError → ℕ
status bad_actor = 401
status no_delegation = 403
status expired = 403
status rate_limited = 429
status mint_failed = 500
status self_verification = 500
status record_failed = 500
status _ = 400

abbrev pub access_token_type : String
access_token_type = "urn:ietf:params:oauth:token-type:access_token"

abbrev pub agent_token_type : String
agent_token_type = "urn:legant:params:oauth:token-type:agent-token"

pub record Form : Type 0 where
  pub subject_token : String
  pub actor_token : String
  pub subject_token_type : String
  pub actor_token_type : String
  pub resources : List String
  pub scope : String

-- One hour, in nanoseconds.
abbrev pub hour_ns : ℕ
hour_ns = 3600000000000

abbrev pub minted_of : Option String → String → Bool
minted_of none id = false
minted_of (some d) id = d == id

-- `delegation_id = $1 AND issued_at > now() - interval '1 hour'`
unfoldable pub count_recent : List TokenRow → ℕ → String → ℕ
count_recent [] now id = 0
count_recent (t ∷ tokens) now id =
    let rest = count_recent tokens now id in
    if minted_of t.delegation_id id && ltb now (t.issued_at + hour_ns) then suc rest else rest

abbrev pub single : List String → String
single [] = ""
single (r ∷ rs) = r

abbrev pub more_than_one : List String → Bool
more_than_one [] = false
more_than_one (r ∷ rs) = not (is_empty rs)

-- `len(minted) >= cap` under a cap that is set and positive.
abbrev pub over_rate : Option RateLimit → ℕ → Bool
over_rate none minted = false
over_rate (some r) minted = ltb_ℤ (pos 0) r.max_per_hour && leb_ℤ r.max_per_hour (pos minted)

abbrev pub actor_of : ActClaim → String
actor_of nobody = ""
actor_of (actor sub act) = sub

abbrev pub or_refuse : {A : Type 0} → Option A → ExchangeError → Result ExchangeError A
or_refuse none e = err e
or_refuse (some a) e = ok a

abbrev pub as_refusal : {E A : Type 0} → ExchangeError → Result E A → Result ExchangeError A
as_refusal e (ok a) = ok a
as_refusal e (err x) = err e

abbrev pub canonical_or : Canonical → Result ExchangeError String
canonical_or (canonical c) = ok c
canonical_or (invalid e) = err bad_resource

module _ ⦃W : World⦄ where
  -- `grant.ExpiresAt = exp; grant.Scopes = effective`
  abbrev pub clamp_link : Link → List String → ℕ → Link
  clamp_link l scopes exp = record l { scopes = scopes; expires_at = exp }

  abbrev pub clamp_leaf : Grant → List String → ℕ → Grant
  clamp_leaf (root l) scopes exp = root (clamp_link l scopes exp)
  clamp_leaf (child l p) scopes exp = child (clamp_link l scopes exp) p

  -- min(now + ttl, the grant's expiry)
  abbrev pub lifetime : Grant → ℕ → ℤ → ℕ
  lifetime g now ttl =
      if ltb (link g).expires_at (shift now ttl) then (link g).expires_at else shift now ttl

  module _ ⦃J : Jwt⦄ where
    pub record TokenExchanger : Type 0 where
      pub issuer : String
      pub ttl : ℤ
      pub active_kid : String
      pub active_signer : J.PrivateKey
      pub verifier_keys : String → Option J.PublicKey
      pub resolve_actor : String → Option String
      pub resolve_subject : String → Option (String × List String)

    pub record TokenResponse : Type 0 where
      pub access_token : J.Token
      pub expires_at : ℕ
      pub scope : String

    abbrev pub signer_of : TokenExchanger → Signer
    signer_of x = record { issuer = x.issuer; kid = x.active_kid; key = x.active_signer }

    abbrev pub verifier_of : TokenExchanger → Verifier
    verifier_of x = record { issuer = x.issuer; keys = x.verifier_keys }

    -- The checks of the form, up to the resource.
    unfoldable pub check_form : Form → Result ExchangeError String
    check_form f = do
      reject_if (f.subject_token == "" || f.actor_token == "") tokens_required
      reject_if
          (not (f.subject_token_type == "") && not (f.subject_token_type == access_token_type))
          bad_subject_type
      reject_if (not (f.actor_token_type == "") && not (f.actor_token_type == agent_token_type))
          bad_actor_type
      reject_if (more_than_one f.resources) many_resources
      reject_if (single f.resources == "") no_resource
      ok (single f.resources)

    -- The grant as it is minted, with its audience: attenuated, permitted, clamped.
    unfoldable pub shape_grant :
        TokenExchanger
        → ℕ
        → Form
        → String
        → List String
        → Grant
        → Result ExchangeError (List String × String × ℕ)
    shape_grant x now f resource subject_scopes g = do
      let effective = attenuate subject_scopes (attenuate (link g).scopes (fields f.scope))
      reject_if (is_empty effective) no_scope
      canon ← canonical_or (canonicalize_resource resource)
      reject_if (not (any (resource_matches canon) (link g).constraints.resources)) resource_denied
      let exp = lifetime g now x.ttl
      reject_if (leb exp now) expired
      ok (effective, canon, exp)

    -- The transaction: the rate cap, the token's row and its audit line.
    unfoldable pub record_mint :
        Database
        → ℕ
        → String
        → String
        → Option RateLimit
        → DelegationClaims
        → String
        → List String
        → ℕ
        → Result ExchangeError Database
    record_mint db now agent id rate claims canon effective exp = do
      reject_if (over_rate rate (count_recent db.tokens now id)) rate_limited
      tokens ←
          or_refuse
            (record_tx db.tokens (record {
              jti = claims.id;
              delegation_id = some id;
              subject = claims.subject;
              agent_id = some agent;
              actor_chain = actor_chain claims.act;
              audience = canon;
              scopes = effective;
              issued_at = now;
              expires_at = exp;
              revoked_at = none;
            }))
            record_failed
      ok (record db {
        tokens = tokens;
        audit =
            record {
              actor_type = "agent";
              actor_id = agent;
              action = "token.exchanged";
              resource_id = claims.id;
              on_behalf_of_sub = claims.subject;
              actor_chain = actor_chain claims.act;
              delegation_id = some id;
              grant_jti = claims.id;
            }
            ∷ db.audit;
      })

    unfoldable pub handle :
        TokenExchanger
        → Database
        → ℕ
        → Option String
        → Form
        → Result ExchangeError (Database × TokenResponse)
    handle x db now random_hex f = do
      resource ← check_form f
      agent ← or_refuse (x.resolve_actor f.actor_token) bad_actor
      subject ← or_refuse (x.resolve_subject f.subject_token) bad_subject
      resolved ← as_refusal no_delegation (resolve_grant_chain db now agent subject.0)
      shape ← shape_grant x now f resource subject.1 resolved.0
      let g = clamp_leaf resolved.0 shape.0 shape.2
      token ←
          as_refusal mint_failed (issue_for_grant (signer_of x) g shape.0 shape.1 now random_hex)
      claims ← as_refusal self_verification (verify (verifier_of x) now token shape.1)
      db' ←
          record_mint db now agent resolved.1 (link g).constraints.rate claims shape.1 shape.0
            shape.2
      ok (db', record { access_token = token; expires_at = shape.2; scope = join " " shape.0 })

    -- The claims go into the answer only for an active token.
    pub record Introspection : Type 0 where
      pub active : Bool
      pub body : Option DelegationClaims
      pub client_id : Option String

    abbrev pub answer : Bool → DelegationClaims → Introspection
    answer true c = record { active = true; body = some c; client_id = some (actor_of c.act) }
    answer false c = record { active = false; body = none; client_id = none }

    abbrev pub introspect_claims : Database → ℕ → DelegationClaims → ActClaim → Option Introspection
    introspect_claims db now c nobody = none
    introspect_claims db now c (actor sub act) = some (answer (is_active db.tokens now c.id) c)

    abbrev pub introspect_verified :
        Database → ℕ → Result TokenError DelegationClaims → Option Introspection
    introspect_verified db now (err e) = none
    introspect_verified db now (ok c) = introspect_claims db now c c.act

    -- `none` where the token is not a delegation token of this issuer.
    unfoldable pub introspect_delegation :
        TokenExchanger → Database → ℕ → J.Token → Option Introspection
    introspect_delegation x db now token =
        introspect_verified db now (verify_any (verifier_of x) now token)
