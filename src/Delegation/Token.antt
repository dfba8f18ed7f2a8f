-- ===== src/Delegation/Token.antt =====
-- Minting, verifying and authorizing of internal/delegation/delegation.go: `Signer`, `Verifier`,
-- `Authorize`, `ActorChain`, `Provenance`. `RandomHex(16)` and `time.Now()` are arguments.
pub mod Actors
pub mod RoundTrip
use mathlib.Core.List.{reverse, foldl}
use legant.Base.{
  ℕ, String, Bool, true, false, not, ◌&&◌, List, [], ◌∷◌, Option, none, some, ◌==◌, string_eq,
  contains, is_empty, if◌then◌else◌,
}
use legant.Base.Text.{fields, join}
use legant.Base.Result.{Result, ok, err, ◌>>=◌, ◌>>◌, reject_if}
use legant.World.{World}
use legant.Delegation.AllowList.{Denial, missing_scope, attenuate}
use legant.Delegation.Constraints.{Constraints, Action, ◌orelse◌, permit}
use legant.Delegation.Grant.{
  Grant, link, root_delegator, actor_chain_root_to_leaf, effective_scopes,
}
use legant.Delegation.Jwt.{ActClaim, nobody, actor, DelegationClaims, Jwt}

pub data TokenError : Type 0 where
  no_effective_scopes audience_not_permitted no_randomness signing_failed rejected : TokenError

unfoldable pub has_scope : String → String → Bool
has_scope scope_str scope = contains (fields scope_str) scope

-- The loop `act = &ActClaim{Sub: actor, Act: act}` from the root to the leaf.
unfoldable pub act_of : List String → ActClaim
act_of actors = foldl (λ act who. actor who act) nobody actors

-- Most recent first.
unfoldable pub actor_chain : ActClaim → List String
actor_chain nobody = []
actor_chain (actor sub act) = sub ∷ actor_chain act

abbrev pub or_fail : {E A : Type 0} → Option A → E → Result E A
or_fail none e = err e
or_fail (some a) e = ok a

module _ ⦃W : World⦄ where
  unfoldable pub provenance : DelegationClaims → String
  provenance c = join " -> " (c.subject ∷ reverse (actor_chain c.act))

  abbrev pub permit_claims : ℕ → Option Constraints → Action → Option Denial
  permit_claims now none a = none
  permit_claims now (some c) a = permit now c a

  unfoldable pub authorize : ℕ → DelegationClaims → Action → Option Denial
  authorize now c a =
      if not (has_scope c.scope a.scope)
      then some (missing_scope a.scope)
      else permit_claims now c.constraints a

  module _ ⦃J : Jwt⦄ where
    pub record Signer : Type 0 where
      pub issuer : String
      pub kid : String
      pub key : J.PrivateKey

    pub record Verifier : Type 0 where
      pub issuer : String
      pub keys : String → Option J.PublicKey

    unfoldable pub issue_claims :
        Signer
        → String
        → ActClaim
        → List String
        → String
        → Option Constraints
        → ℕ
        → ℕ
        → Option String
        → Result TokenError J.Token
    issue_claims s subject act scopes audience constraints exp now random_hex = do
      jti ← or_fail random_hex no_randomness
      or_fail
          (J.sign s.kid s.key (record {
            issuer = s.issuer;
            subject = subject;
            audience = audience ∷ [];
            expires_at = some (J.numeric_date exp);
            issued_at = some (J.numeric_date now);
            id = jti;
            scope = join " " scopes;
            act = act;
            constraints = constraints;
          }))
          signing_failed

    unfoldable pub issue_for_grant :
        Signer → Grant → List String → String → ℕ → Option String → Result TokenError J.Token
    issue_for_grant s g requested audience now random_hex = do
      let effective = effective_scopes g requested
      let resources = (link g).constraints.resources
      reject_if (is_empty effective) no_effective_scopes
      reject_if (not (is_empty resources) && not (contains resources audience))
          audience_not_permitted
      jti ← or_fail random_hex no_randomness
      or_fail
          (J.sign s.kid s.key (record {
            issuer = s.issuer;
            subject = root_delegator g;
            audience = audience ∷ [];
            expires_at = some (J.numeric_date (link g).expires_at);
            issued_at = some (J.numeric_date now);
            id = jti;
            scope = join " " effective;
            act = act_of (actor_chain_root_to_leaf g);
            constraints = some (link g).constraints;
          }))
          signing_failed

    -- The kid header, "" where it is missing, selects the key.
    unfoldable pub key_func : Verifier → String → Option J.PublicKey
    key_func v kid = if kid == "" then none else v.keys kid

    unfoldable pub verify : Verifier → ℕ → J.Token → String → Result TokenError DelegationClaims
    verify v now token expected_audience =
        or_fail
          (J.parse (key_func v) (record { issuer = v.issuer; audience = some expected_audience })
            now token)
          rejected

    unfoldable pub verify_any : Verifier → ℕ → J.Token → Result TokenError DelegationClaims
    verify_any v now token =
        or_fail (J.parse (key_func v) (record { issuer = v.issuer; audience = none }) now token)
          rejected
