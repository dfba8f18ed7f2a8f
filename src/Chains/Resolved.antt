-- ===== src/Chains/Resolved.antt =====
-- What `ResolveGrantChain` returns.
use Prim.Native.String.{◌++◌}
use mathlib.Core.Path.{subst}
use mathlib.Core.Option.{some-injective}
use legant.Base.{
  ℕ, String, ◌≡◌, refl, sym, ap, ◌∙◌, true, ◌&&◌, List, [], ◌∷◌, none, some, arith, eq_iff,
  Option-cases, Bool-cases, inl, inr, ◌==◌, string_eq,
}
use legant.Base.Result.{Result, ok, err, ◌>>=◌, >>=-eq-ok, ok-injective}
use legant.World.{World}
use legant.Delegation.Grant.{Link, Grant, link, root_delegator}
use legant.Delegation.Grant.Within.{IsAttenuated}
use legant.Database.{ChainRow, Database, find_live, live}
use legant.Chains.{
  ChainError, no_delegation, not_rooted, max_chain_walk, latest, walk, link_of, grant_of, last_row,
  rooted_at, grant_from, resolve_grant_chain,
}
use legant.Chains.Sound.{IsSound, find_live-inv}
use legant.Chains.Latest.{HasUniqueIds, latest-IsLeaf}
use legant.Chains.Resolve.{
  Linked, Walked, walk-Walked, link-grant_of, grant_of-IsAttenuated, root_of-last,
}

module _ ⦃W : World⦄ where
  -- A resolved grant: it stands for a chain of rows, each of them live, from the agent's row up to
  -- one that the user made; its links are attenuated, and it names the user and the agent.
  pub record Resolved (db : Database) (now : ℕ) (agent user : String) (g : Grant) (id : String)
      : Type 0 where
    pub leaf : ChainRow
    pub above : List ChainRow
    pub leaf_live : find_live db.chains now id ≡ some leaf
    pub linked : Linked db.chains now leaf above
    pub same_grant : grant_of now leaf above ≡ g
    pub attenuated : IsAttenuated g
    pub for_user : root_delegator g ≡ "user:" ++ user
    pub to_agent : (link g).delegatee ≡ "agent:" ++ agent

  grant_from-inv :
      (now : ℕ) (user id : String) (rows : List ChainRow) (g : Grant) (id' : String)
      → grant_from now user id rows ≡ ok (g, id')
      → (r : ChainRow) × (above : List ChainRow) × (rows ≡ r ∷ above)
        × (rooted_at user (last_row r above) ≡ true)
        × (grant_of now r above ≡ g)
        × (id ≡ id')
  grant_from-inv now user id [] g id' h = absurd (ground arith)
  grant_from-inv now user id (r ∷ above) g id' h =
      elim (Bool-cases (rooted_at user (last_row r above))) [
        | inl rooted ↦
            let same = ok-injective (rw rooted at h) in
            (
              r,
              above,
              refl,
              rooted,
              ap (λ (x : Grant × String). x.0) same,
              ap (λ (x : Grant × String). x.1) same,
            )
        | inr foreign ↦ absurd (refused (rw foreign at h))
      ]
    where
      refused : ◌≡◌ {A = Result ChainError (Grant × String)} (err not_rooted) (ok (g, id')) → ⊥
      refused e = cc

  delegatee_of :
      (now : ℕ) (agent : String) (r : ChainRow)
      → (r.delegatee == agent && live now r) ≡ true
      → (link_of now r).delegatee ≡ "agent:" ++ agent
  unfolding link_of
  delegatee_of now agent r h = ap (λ a. "agent:" ++ a) ((eq_iff r.delegatee agent).0 (ground arith))

  module _ (db : Database) (now : ℕ) (agent user : String) where
    resolve-none :
        latest db.chains now agent ≡ none
        → resolve_grant_chain db now agent user ≡ err no_delegation
    unfolding resolve_grant_chain
    resolve-none e = rw (e, resolve_grant_chain)

    resolve-some :
        (leaf : ChainRow)
        → latest db.chains now agent ≡ some leaf
        → resolve_grant_chain db now agent user
          ≡ (walk max_chain_walk db.chains now leaf.id >>= grant_from now user leaf.id)
    unfolding resolve_grant_chain
    resolve-some leaf e = rw (e, resolve_grant_chain)

    resolve_at_leaf :
        (leaf : ChainRow) (g : Grant) (id : String)
        → IsSound db.chains
        → HasUniqueIds db.chains
        → latest db.chains now agent ≡ some leaf
        → (walk max_chain_walk db.chains now leaf.id >>= grant_from now user leaf.id) ≡ ok (g, id)
        → Resolved db now agent user g id
    resolve_at_leaf leaf g id sound unique at h =
        let (rows, walked, h1) = >>=-eq-ok (walk max_chain_walk db.chains now leaf.id) _ h in
        let (r, above, shape, rooted, same, ids) = grant_from-inv now user leaf.id rows g id h1 in
        let (more, first, up) =
          subst (Walked db.chains now leaf.id) shape
            (walk-Walked max_chain_walk db.chains now leaf.id rows walked) in
        let (stored, _) = find_live-inv db.chains now leaf.id r first in
        let picked = latest-IsLeaf db.chains now agent leaf unique at in
        let is_r = some-injective leaf r (sym picked.stored ∙ stored) in
        record {
          leaf = r;
          above = above;
          leaf_live = subst (λ k. find_live db.chains now k ≡ some r) ids first;
          linked = up;
          same_grant = same;
          attenuated =
              subst IsAttenuated same
                (grant_of-IsAttenuated db.chains now r above sound (sound.row leaf.id r stored) up);
          for_user = ap root_delegator (sym same) ∙ root_of-last now user r above rooted;
          to_agent =
              ap (λ k. (link k).delegatee) (sym same)
              ∙ ap (λ (l : Link). l.delegatee) (link-grant_of now r above)
              ∙ delegatee_of now agent r
                  (subst (λ k. (k.delegatee == agent && live now k) ≡ true) is_r picked.fits);
        }

    -- A chain that resolves, over a sound table with a primary key, is a chain of live rows from the
    -- agent to the user, attenuated link by link.
    pub resolve-Resolved :
        {g : Grant} {id : String}
        → IsSound db.chains
        → HasUniqueIds db.chains
        → resolve_grant_chain db now agent user ≡ ok (g, id)
        → Resolved db now agent user g id
    resolve-Resolved {g} {id} sound unique h = elim (Option-cases (latest db.chains now agent)) [
      | inl e ↦ absurd (missing (sym (resolve-none e) ∙ h))
      | inr (leaf, e) ↦ resolve_at_leaf leaf g id sound unique e (sym (resolve-some leaf e) ∙ h)
    ]
      where
        missing : ◌≡◌ {A = Result ChainError (Grant × String)} (err no_delegation) (ok (g, id)) → ⊥
        missing e = cc
