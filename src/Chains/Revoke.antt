-- ===== src/Chains/Revoke.antt =====
-- `RevokeDelegationTree` of internal/delegation/chains/service.go. The recursive query is the
-- iteration `tree`, whose fuel is the number of rows: no chain of distinct rows is longer.
pub mod Subtree
use legant.Base.{
  ℕ, zero, suc, String, Bool, true, false, not, ◌&&◌, ◌||◌, List, [], ◌∷◌, ◌++◌, Option, none, some,
  ◌==◌, string_eq, contains, any, keep, map, length, if◌then◌else◌,
}
use legant.Base.Result.{Result, ok, err, ◌>>=◌, ◌>>◌, reject_if}
use legant.World.{World}
use legant.Database.{ChainRow, TokenRow, AuditRow, Database}
use legant.Revocation.{revoke_where, count_revoked}
use legant.Chains.{ChainError, not_owned}

abbrev pub has_parent_in : List String → Option String → Bool
has_parent_in ids none = false
has_parent_in ids (some pid) = contains ids pid

abbrev pub minted_from : List String → TokenRow → Bool
minted_from ids t = has_parent_in ids t.delegation_id

module _ ⦃W : World⦄ where
  abbrev pub row_id : ChainRow → String
  row_id r = r.id

  -- `SELECT c.id FROM delegation_chains c JOIN tree t ON c.parent_delegation_id = t.id`
  unfoldable pub children : List ChainRow → List String → List String
  children rows ids = map row_id (keep (λ r. has_parent_in ids r.parent_id) rows)

  unfoldable pub tree : ℕ → List ChainRow → List String → List String
  tree zero rows ids = ids
  tree (suc n) rows ids = ids ++ tree n rows (children rows ids)

  abbrev pub subtree : List ChainRow → String → List String
  subtree rows id = tree (length rows) rows (id ∷ [])

  -- `SET active = false`
  abbrev pub deactivate_if : Bool → ChainRow → ChainRow
  deactivate_if b r = if b && r.active then record r { active = false } else r

  unfoldable pub deactivate : List String → List ChainRow → List ChainRow
  deactivate ids [] = []
  deactivate ids (r ∷ rows) = deactivate_if (contains ids r.id) r ∷ deactivate ids rows

  unfoldable pub count_active : List String → List ChainRow → ℕ
  count_active ids [] = 0
  count_active ids (r ∷ rows) =
      let rest = count_active ids rows in if contains ids r.id && r.active then suc rest else rest

  abbrev pub owned : String → String → ChainRow → Bool
  owned id user r = r.id == id && (r.delegator_id == user && r.delegator_type == "user")

  -- The counts of delegations and of tokens come back beside the database.
  unfoldable pub revoke_delegation_tree :
      Database → ℕ → String → String → Result ChainError (Database × ℕ × ℕ)
  revoke_delegation_tree db now id user = do
    reject_if (not (any (owned id user) db.chains)) not_owned
    let ids = subtree db.chains id
    ok (
      record db {
        chains = deactivate ids db.chains;
        tokens = revoke_where now (minted_from ids) db.tokens;
        audit =
            record {
              actor_type = "user";
              actor_id = user;
              action = "delegation.revoked";
              resource_id = id;
              on_behalf_of_sub = "";
              actor_chain = [];
              delegation_id = none;
              grant_jti = "";
            }
            ∷ db.audit;
      },
      count_active ids db.chains,
      count_revoked (minted_from ids) db.tokens,
    )
