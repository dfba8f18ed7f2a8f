-- ===== src/Chains.antt =====
-- internal/delegation/chains/service.go: grants stored as rows. A method takes the database and
-- returns the new one where it writes. Failures of the connection, the metrics and the live console
-- are left out; a stored constraint set is taken as decoded.
pub mod Latest
pub mod Resolve
pub mod Resolved
pub mod Sound
pub mod Validate
pub mod Redelegate
pub mod Consent
pub mod ConsentSound
pub mod Revoke
use Prim.Native.Char.{code}
use Prim.Native.String.{◌++◌}
use legant.Base.{
  ℕ, zero, suc, ◌+◌, ℤ, pos, ltb_ℤ, shift, ltb, leb, String, Bool, true, false, not, ◌&&◌, ◌||◌,
  List, [], ◌∷◌, Option, none, some, ◌==◌, string_eq, nat_beq, contains, is_empty, any, length, map,
  if◌then◌else◌,
}
use legant.Base.Result.{Result, ok, err, ◌>>=◌, ◌>>◌, reject_if}
use legant.World.{World}
use legant.Delegation.AllowList.{is_subset}
use legant.Delegation.Constraints.{
  TimeWindow, RateLimit, Constraints, WindowError, validate, tighten,
}
use legant.Delegation.Grant.{Link, Grant, root, child, clamp, default_max_depth}
use legant.Mcpauth.{Canonical, canonical, invalid, ResourceError, canonicalize_resource}
use legant.Database.{
  ConsentRow, ChainRow, AgentRow, TokenRow, AuditRow, Database, is_some, unexpired, same_org, live,
  find_chain, find_live,
}

pub data ChainError : Type 0 where
  no_delegation broken not_rooted : ChainError
  required bad_window bad_rate bad_amount bad_resource : ChainError
  no_parent not_holder exceeds too_deep cycle bad_delegatee dangling insert_failed not_owned :
      ChainError

abbrev pub max_chain_walk : ℕ
max_chain_walk = 32

-- The order of texts that PostgreSQL has on ids.
unfoldable pub text_lt : String → String → Bool
text_lt s String.[] = false
text_lt String.[] (String.◌∷◌ d t) = true
text_lt (String.◌∷◌ c s) (String.◌∷◌ d t) =
    let rest = text_lt s t in ltb (code c) (code d) || (nat_beq (code c) (code d) && rest)

-- A nullable id; "" ends a walk.
abbrev pub or_blank : Option String → String
or_blank none = ""
or_blank (some id) = id

-- 365 * 24 * time.Hour
abbrev pub year : ℤ
year = pos 31536000000000000

abbrev pub or_year : ℕ → Option ℕ → ℕ
or_year now none = shift now year
or_year now (some e) = e

abbrev pub clamp_to : ℕ → Option ℕ → ℕ
clamp_to exp none = exp
clamp_to exp (some limit) = clamp exp limit

module _ ⦃W : World⦄ where
  abbrev window_error : Option TimeWindow → Bool
  window_error none = false
  window_error (some w) = is_some (validate w)

  abbrev rate_error : Option RateLimit → Bool
  rate_error none = false
  rate_error (some r) = ltb_ℤ r.max_per_hour (pos 0)

  abbrev amount_error : Option W.Float → Bool
  amount_error none = false
  amount_error (some m) = W.gt W.float_zero m

  abbrev canonical_or_error : Canonical → Result ChainError String
  canonical_or_error (canonical c) = ok c
  canonical_or_error (invalid e) = err bad_resource

  unfoldable pub canonicalize_all : List String → Result ChainError (List String)
  canonicalize_all [] = ok []
  canonicalize_all (r ∷ resources) = do
    c ← canonical_or_error (canonicalize_resource r)
    rest ← canonicalize_all resources
    ok (c ∷ rest)

  unfoldable pub validate_and_canonicalize : Constraints → Result ChainError Constraints
  validate_and_canonicalize c = do
    reject_if (window_error c.time_window) bad_window
    reject_if (rate_error c.rate) bad_rate
    reject_if (amount_error c.max_amount) bad_amount
    resources ← canonicalize_all c.resources
    ok (record c { resources = resources })

  -- `ORDER BY created_at DESC, id DESC`
  abbrev pub precedes : ChainRow → ChainRow → Bool
  precedes r s =
      ltb s.created_at r.created_at || (nat_beq s.created_at r.created_at && text_lt s.id r.id)

  abbrev pub first_of_two : ChainRow → Option ChainRow → Option ChainRow
  first_of_two r none = some r
  first_of_two r (some s) = if precedes s r then some s else some r

  -- The most recent live delegation to an agent.
  unfoldable pub latest : List ChainRow → ℕ → String → Option ChainRow
  latest [] now agent = none
  latest (r ∷ rows) now agent =
      let rest = latest rows now agent in
      if r.delegatee == agent && live now r then first_of_two r rest else rest

  -- The loop from the leaf to the root, leaf first.
  unfoldable pub walk : ℕ → List ChainRow → ℕ → String → Result ChainError (List ChainRow)
  walk zero rows now id = ok []
  walk (suc n) rows now id = elim (id == "") [
    | true ↦ ok []
    | false ↦ elim (find_live rows now id) [
      | none ↦ err broken
      | some r ↦ walk n rows now (or_blank r.parent_id) >>= λ rest. ok (r ∷ rest)
    ]
  ]

  unfoldable pub link_of : ℕ → ChainRow → Link
  link_of now r = record {
    delegator = r.delegator_type ++ (":" ++ r.delegator_id);
    delegatee = "agent:" ++ r.delegatee;
    scopes = r.scopes;
    constraints = r.constraints;
    expires_at = or_year now r.expires_at;
  }

  -- The grant with its parents, from the rows leaf first.
  unfoldable pub grant_of : ℕ → ChainRow → List ChainRow → Grant
  grant_of now r [] = root (link_of now r)
  grant_of now r (p ∷ rows) = child (link_of now r) (grant_of now p rows)

  abbrev pub last_row : ChainRow → List ChainRow → ChainRow
  last_row r [] = r
  last_row r (p ∷ rows) = last_row p rows

  abbrev pub rooted_at : String → ChainRow → Bool
  rooted_at user r = r.delegator_type == "user" && r.delegator_id == user

  -- The rest of `ResolveGrantChain` behind the walk, which is never empty.
  abbrev pub grant_from : ℕ → String → String → List ChainRow → Result ChainError (Grant × String)
  grant_from now user leaf_id [] = err broken
  grant_from now user leaf_id (r ∷ rows) =
      if not (rooted_at user (last_row r rows))
      then err not_rooted
      else ok (grant_of now r rows, leaf_id)

  unfoldable pub resolve_grant_chain :
      Database → ℕ → String → String → Result ChainError (Grant × String)
  resolve_grant_chain db now agent user = elim (latest db.chains now agent) [
    | none ↦ err no_delegation
    | some leaf ↦ walk max_chain_walk db.chains now leaf.id >>= grant_from now user leaf.id
  ]

  -- The loop of `agentInChain`; a row that is missing is an error.
  unfoldable pub agent_in_chain : ℕ → List ChainRow → String → String → Result ChainError Bool
  agent_in_chain zero rows id candidate = ok false
  agent_in_chain (suc n) rows id candidate = elim (id == "") [
    | true ↦ ok false
    | false ↦ elim (find_chain rows id) [
      | none ↦ err dangling
      | some r ↦ elim (r.delegatee == candidate) [
        | true ↦ ok true
        | false ↦ agent_in_chain n rows (or_blank r.parent_id) candidate
      ]
    ]
  ]

  -- An active agent of the delegation's organization.
  unfoldable pub delegatee_ok : List AgentRow → String → Option String → Bool
  delegatee_ok agents id org =
      any (λ a. a.id == id && a.status == "active" && same_org a.org_id org) agents

  -- A text of the row's lists that the database does not store.
  abbrev pub lists_of : ChainRow → List (List String)
  lists_of r =
      r.scopes ∷ r.constraints.categories ∷ r.constraints.tools ∷ r.constraints.resources ∷ []

  abbrev pub unstorable : ChainRow → Bool
  unstorable r = any (λ l. any (λ s. not (W.storable s)) l) (lists_of r)

  -- An insert fails on a primary key that is taken, and on a text that the database does not store.
  abbrev pub insert_chain : Database → ChainRow → Result ChainError Database
  insert_chain db r =
      if is_some (find_chain db.chains r.id) || unstorable r
      then err insert_failed
      else ok (record db { chains = r ∷ db.chains })

  abbrev or_error : {E : Type 0} {A : Type 0} → Option A → E → Result E A
  or_error none e = err e
  or_error (some a) e = ok a

  -- The row that `Redelegate` inserts.
  abbrev pub redelegated :
      String → String → ChainRow → String → String → List String → Constraints → ℤ → ℕ → ChainRow
  redelegated new_id parent p delegator delegatee scopes c ttl now = record {
    id = new_id;
    delegator_type = "agent";
    delegator_id = delegator;
    delegatee = delegatee;
    scopes = scopes;
    constraints = tighten p.constraints c;
    active = true;
    created_at = now;
    expires_at = some (clamp_to (shift now ttl) p.expires_at);
    org_id = p.org_id;
    consent_id = none;
    parent_id = some parent;
    depth = p.depth + 1;
  }

  unfoldable pub redelegate :
      Database
      → ℕ
      → String
      → String
      → String
      → String
      → List String
      → Constraints
      → ℤ
      → Result ChainError (Database × String)
  redelegate db now new_id parent delegator delegatee scopes c ttl = do
    reject_if (delegatee == "" || is_empty scopes) required
    c' ← validate_and_canonicalize c
    p ← or_error (find_live db.chains now parent) no_parent
    reject_if (not (p.delegatee == delegator)) not_holder
    reject_if (not (is_subset scopes p.scopes)) exceeds
    reject_if (leb default_max_depth (p.depth + 1)) too_deep
    in_chain ← agent_in_chain max_chain_walk db.chains parent delegatee
    reject_if in_chain cycle
    reject_if (not (delegatee_ok db.agents delegatee p.org_id)) bad_delegatee
    db' ← insert_chain db (redelegated new_id parent p delegator delegatee scopes c' ttl now)
    ok (db', new_id)
