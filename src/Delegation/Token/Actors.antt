-- ===== src/Delegation/Token/Actors.antt =====
-- The act chain of a token names the agents of the grant.
use mathlib.Core.List.{reverse, foldl-append, reverse-cons}
use legant.Base.{String, ◌≡◌, refl, ap, List, [], ◌∷◌, ◌++◌}
use legant.Base.Text.{join}
use legant.World.{World}
use legant.Delegation.Grant.{Grant, root_delegator, actors_leaf_to_root, actor_chain_root_to_leaf}
use legant.Delegation.Jwt.{actor, DelegationClaims}
use legant.Delegation.Token.{act_of, actor_chain, provenance}

act_of-snoc : (who : String) (l : List String) → act_of (l ++ who ∷ []) ≡ actor who (act_of l)
unfolding act_of
act_of-snoc who l = rw foldl-append

-- Building the claim from the root and reading it back from the top reverses nothing but the order.
actor_chain-act_of-reverse : (l : List String) → actor_chain (act_of (reverse l)) ≡ l
unfolding actor_chain
actor_chain-act_of-reverse [] = unfold act_of in refl
actor_chain-act_of-reverse (who ∷ l) =
    rw (reverse-cons, act_of-snoc) (ap (λ k. who ∷ k) (actor_chain-act_of-reverse l))

module _ ⦃W : World⦄ where
  -- The chain that a minted token carries lists the delegatees of the grant, the leaf first.
  pub actor_chain-grant :
      (g : Grant) → actor_chain (act_of (actor_chain_root_to_leaf g)) ≡ actors_leaf_to_root g
  unfolding actor_chain_root_to_leaf
  actor_chain-grant g = actor_chain-act_of-reverse (actors_leaf_to_root g)

  -- A token whose claims name a grant's user and agents renders them from the user to the leaf.
  pub provenance-grant :
      (c : DelegationClaims) (g : Grant)
      → c.subject ≡ root_delegator g
      → c.act ≡ act_of (actor_chain_root_to_leaf g)
      → provenance c ≡ join " -> " (root_delegator g ∷ actor_chain_root_to_leaf g)
  unfolding provenance
  provenance-grant c g user agents =
      rw (user, agents, actor_chain-grant g) (unfold actor_chain_root_to_leaf in refl)
