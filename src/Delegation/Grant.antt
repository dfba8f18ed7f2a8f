-- ===== src/Delegation/Grant.antt =====
-- Grants of internal/delegation/delegation.go: a chain of links from a user's root grant to the
-- agent that holds the leaf. A `*Grant` is a `Grant`; `Parent == nil` is the constructor `root`.
pub mod Chain
pub mod Exact
pub mod Within
use mathlib.Core.List.{reverse}
use legant.Base.{
  ℕ, suc, ◌+◌, ℤ, shift, leb, ltb, String, Bool, not, ◌||◌, List, [], ◌∷◌, ◌==◌, string_eq,
  if◌then◌else◌,
}
use legant.Base.Result.{Result, ok, err, ◌>>=◌, ◌>>◌, reject_if}
use legant.World.{World}
use legant.Delegation.AllowList.{attenuate, is_subset}
use legant.Delegation.Constraints.{Constraints, tighten}

abbrev pub default_max_depth : ℕ
default_max_depth = 5

pub data DelegateError : Type 0 where
  scopes_exceed depth_exceeded cycle : DelegateError

-- `exp`, clamped to the parent's.
abbrev pub clamp : ℕ → ℕ → ℕ
clamp exp limit = if ltb limit exp then limit else exp

module _ ⦃W : World⦄ where
  pub record Link : Type 0 where
    pub delegator : String
    pub delegatee : String
    pub scopes : List String
    pub constraints : Constraints
    pub expires_at : ℕ

  pub data Grant : Type 0 where
    root : Link → Grant
    child : Link → Grant → Grant

  -- The fields of the grant itself.
  abbrev pub link : Grant → Link
  link (root l) = l
  link (child l p) = l

  unfoldable pub new_root_grant : String → String → List String → Constraints → ℤ → ℕ → Grant
  new_root_grant user agent scopes c ttl now = root (record {
    delegator = user;
    delegatee = agent;
    scopes = scopes;
    constraints = c;
    expires_at = shift now ttl;
  })

  unfoldable pub depth : Grant → ℕ
  depth (root l) = 0
  depth (child l p) = suc (depth p)

  -- The loop of `Delegate` that looks for the delegatee up the chain.
  unfoldable pub in_chain : Grant → String → Bool
  in_chain (root l) who = l.delegatee == who
  in_chain (child l p) who = l.delegatee == who || in_chain p who

  unfoldable pub delegate :
      Grant → String → List String → Constraints → ℤ → ℕ → ℕ → Result DelegateError Grant
  delegate parent delegatee scopes c ttl now max_depth = do
    reject_if (not (is_subset scopes (link parent).scopes)) scopes_exceed
    reject_if (leb max_depth (depth parent + 1)) depth_exceeded
    reject_if (in_chain parent delegatee) cycle
    ok (
        child
          (record {
            delegator = (link parent).delegatee;
            delegatee = delegatee;
            scopes = scopes;
            constraints = tighten (link parent).constraints c;
            expires_at = clamp (shift now ttl) (link parent).expires_at;
          })
          parent)

  unfoldable pub root_delegator : Grant → String
  root_delegator (root l) = l.delegator
  root_delegator (child l p) = root_delegator p

  -- The slice `rev` of `ActorChainRootToLeaf`.
  unfoldable pub actors_leaf_to_root : Grant → List String
  actors_leaf_to_root (root l) = l.delegatee ∷ []
  actors_leaf_to_root (child l p) = l.delegatee ∷ actors_leaf_to_root p

  unfoldable pub actor_chain_root_to_leaf : Grant → List String
  actor_chain_root_to_leaf g = reverse (actors_leaf_to_root g)

  unfoldable pub effective_scopes : Grant → List String → List String
  effective_scopes g requested = attenuate (link g).scopes requested
