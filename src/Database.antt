-- ===== src/Database.antt =====
-- The tables that the engine's SQL reads and writes (migrations/), as lists of rows, with the
-- statements of internal/delegation/chains and internal/revocation as functions. `now()` and
-- `time.Now()` are one argument; an id that PostgreSQL generates is an argument too. A `uuid` or
-- `text` column is a string; the `constraints` column holds the decoded set.
use legant.Base.{
  ℕ, ltb, String, Bool, true, false, ◌&&◌, List, [], ◌∷◌, Option, none, some, ◌==◌, string_eq,
  if◌then◌else◌,
}
use legant.World.{World}
use legant.Delegation.Constraints.{Constraints}

abbrev pub is_some {ℓ} : {A : Type ℓ} → Option A → Bool
is_some none = false
is_some (some a) = true

-- `expires_at IS NULL OR expires_at > now()`
abbrev pub unexpired : Option ℕ → ℕ → Bool
unexpired none now = true
unexpired (some e) now = ltb now e

-- `org_id = $2 OR ($2 IS NULL AND org_id IS NULL)`
abbrev pub same_org : Option String → Option String → Bool
same_org none none = true
same_org (some a) (some b) = a == b
same_org _ _ = false

pub record AgentRow : Type 0 where
  pub id : String
  pub status : String
  pub org_id : Option String

pub record TokenRow : Type 0 where
  pub jti : String
  pub delegation_id : Option String
  pub subject : String
  pub agent_id : Option String
  pub actor_chain : List String
  pub audience : String
  pub scopes : List String
  pub issued_at : ℕ
  pub expires_at : ℕ
  pub revoked_at : Option ℕ

pub record AuditRow : Type 0 where
  pub actor_type : String
  pub actor_id : String
  pub action : String
  pub resource_id : String
  pub on_behalf_of_sub : String
  pub actor_chain : List String
  pub delegation_id : Option String
  pub grant_jti : String

module _ ⦃W : World⦄ where
  pub record ConsentRow : Type 0 where
    pub id : String
    pub user_id : String
    pub agent_id : String
    pub org_id : Option String
    pub scopes : List String
    pub constraints : Constraints
    pub resource : String

  pub record ChainRow : Type 0 where
    pub id : String
    pub delegator_type : String
    pub delegator_id : String
    pub delegatee : String
    pub scopes : List String
    pub constraints : Constraints
    pub active : Bool
    pub created_at : ℕ
    pub expires_at : Option ℕ
    pub org_id : Option String
    pub consent_id : Option String
    pub parent_id : Option String
    pub depth : ℕ

  pub record Database : Type 0 where
    pub chains : List ChainRow
    pub consents : List ConsentRow
    pub agents : List AgentRow
    pub tokens : List TokenRow
    pub audit : List AuditRow

  -- `WHERE id = $1` on a primary key.
  unfoldable pub find_chain : List ChainRow → String → Option ChainRow
  find_chain [] id = none
  find_chain (r ∷ rows) id = if r.id == id then some r else find_chain rows id

  -- `active = true AND (expires_at IS NULL OR expires_at > now())`
  abbrev pub live : ℕ → ChainRow → Bool
  live now r = r.active && unexpired r.expires_at now

  abbrev pub keep_live : ℕ → Option ChainRow → Option ChainRow
  keep_live now none = none
  keep_live now (some r) = if live now r then some r else none

  -- A live row by its id.
  unfoldable pub find_live : List ChainRow → ℕ → String → Option ChainRow
  find_live rows now id = keep_live now (find_chain rows id)
