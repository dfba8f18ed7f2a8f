-- ===== src/Chains/Consent.antt =====
-- `GrantConsent` and `ListUserDelegations` of internal/delegation/chains/service.go. The transaction
-- is one step: where an insert fails nothing is written.
use legant.Base.{
  ℕ, ℤ, pos, ltb_ℤ, shift, String, true, not, ◌&&◌, ◌||◌, List, [], ◌∷◌, Option, none, some, ◌==◌,
  string_eq, is_empty, any, keep, if◌then◌else◌,
}
use legant.Base.Result.{Result, ok, err, ◌>>=◌, ◌>>◌, reject_if}
use legant.World.{World}
use legant.Delegation.Constraints.{Constraints}
use legant.Database.{ConsentRow, ChainRow, Database}
use legant.Chains.{ChainError, required, insert_failed, validate_and_canonicalize, insert_chain}

-- "" stands for NULL.
abbrev pub null_if_blank : String → Option String
null_if_blank s = if s == "" then none else some s

-- `TTL > 0` sets an expiry.
abbrev pub expiry_of : ℕ → ℤ → Option ℕ
expiry_of now ttl = if ltb_ℤ (pos 0) ttl then some (shift now ttl) else none

module _ ⦃W : World⦄ where
  pub record ConsentRequest : Type 0 where
    pub user_id : String
    pub agent_id : String
    pub org_id : String
    pub scopes : List String
    pub constraints : Constraints
    pub resource : String
    pub ttl : ℤ

  -- The consent's resource, folded into a constraint set that names none.
  abbrev pub with_resource : Constraints → String → Constraints
  with_resource c resource =
      if is_empty c.resources && not (resource == "")
      then record c { resources = resource ∷ [] }
      else c

  abbrev pub insert_consent : Database → ConsentRow → Result ChainError Database
  insert_consent db r =
      if any (λ k. k.id == r.id) db.consents
      then err insert_failed
      else ok (record db { consents = r ∷ db.consents })

  abbrev pub consented : String → String → ConsentRequest → Constraints → ℕ → ChainRow
  consented consent_id new_id req c now = record {
    id = new_id;
    delegator_type = "user";
    delegator_id = req.user_id;
    delegatee = req.agent_id;
    scopes = req.scopes;
    constraints = c;
    active = true;
    created_at = now;
    expires_at = expiry_of now req.ttl;
    org_id = null_if_blank req.org_id;
    consent_id = some consent_id;
    parent_id = none;
    depth = 0;
  }

  unfoldable pub grant_consent :
      Database
      → ℕ
      → String
      → String
      → ConsentRequest
      → Result ChainError (Database × String × String)
  grant_consent db now consent_id new_id req = do
    reject_if (req.user_id == "" || req.agent_id == "" || is_empty req.scopes) required
    c ← validate_and_canonicalize (with_resource req.constraints req.resource)
    db' ← insert_consent db (record {
      id = consent_id;
      user_id = req.user_id;
      agent_id = req.agent_id;
      org_id = null_if_blank req.org_id;
      scopes = req.scopes;
      constraints = c;
      resource = req.resource;
    })
    db'' ← insert_chain db' (consented consent_id new_id req c now)
    ok (db'', consent_id, new_id)

  -- The `WHERE` of the listing; `ORDER BY` and the join with the agent's name are left out.
  unfoldable pub list_user_delegations : Database → String → List ChainRow
  list_user_delegations db user =
      keep (λ r. r.delegator_id == user && r.delegator_type == "user") db.chains
