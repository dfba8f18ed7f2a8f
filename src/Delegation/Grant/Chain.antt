-- ===== src/Delegation/Grant/Chain.antt =====
-- The chain invariant: every link of a chain of grants is at most what each link above it is.
use legant.Base.{
  ℕ, ◌≤◌, String, ◌≡◌, true, false, List, [], ◌∷◌, none, arith, string_eq, contains, All,
}
use legant.World.{World}
use legant.Delegation.AllowList.{is_subset}
use legant.Delegation.AllowList.Laws.{is_subset_refl, is_subset_trans}
use legant.Delegation.Constraints.{Action, permit}
use legant.Delegation.Constraints.Laws.{IsWellFormed}
use legant.Delegation.Grant.{Link, Grant, root, child, link, in_chain, actors_leaf_to_root}

module _ ⦃W : World⦄ where
  -- What a link may do, another may do too.
  pub record Narrows (l p : Link) : Type 0 where
    pub scopes : is_subset l.scopes p.scopes ≡ true
    pub expiry : l.expires_at ≤ p.expires_at
    pub permits :
        (now : ℕ) (a : Action)
        → permit now l.constraints a ≡ none
        → permit now p.constraints a ≡ none

  abbrev pub IsChain : Grant → Type 0
  IsChain (root l) = IsWellFormed l.constraints
  IsChain (child l p) =
      IsWellFormed l.constraints
      × Narrows l (link p)
      × (l.delegator ≡ (link p).delegatee)
      × (in_chain p l.delegatee ≡ false)
      × IsChain p

  abbrev pub links : Grant → List Link
  links (root l) = l ∷ []
  links (child l p) = l ∷ links p

  pub IsChain-link : (g : Grant) → IsChain g → IsWellFormed (link g).constraints
  IsChain-link (root l) h = h
  IsChain-link (child l p) h = h.0

  Narrows-refl : (l : Link) → Narrows l l
  Narrows-refl l = record {
    scopes = is_subset_refl l.scopes;
    expiry = omega arith;
    permits = λ now a h. h;
  }

  Narrows-trans : {a b c : Link} → Narrows a b → Narrows b c → Narrows a c
  Narrows-trans {a} {b} {c} h k = record {
    scopes = is_subset_trans a.scopes b.scopes c.scopes h.scopes k.scopes;
    expiry = omega (arith, h.expiry, k.expiry);
    permits = λ now x e. k.permits now x (h.permits now x e);
  }

  lift-All : {a b : Link} (ls : List Link) → Narrows a b → All (Narrows b) ls → All (Narrows a) ls
  lift-All [] h k = tt
  lift-All (l ∷ ls) h k = (Narrows-trans h k.0, lift-All ls h k.1)

  -- In a chain the leaf is at most each of its ancestors: in scopes, in expiry, and in every action
  -- that its constraints permit.
  pub chain-Narrows : (g : Grant) → IsChain g → All (Narrows (link g)) (links g)
  chain-Narrows (root l) h = (Narrows-refl l, tt)
  chain-Narrows (child l p) h = (Narrows-refl l, lift-All (links p) h.1 (chain-Narrows p h.4))

  -- The loop of `Delegate` looks through the agents of the chain.
  pub in_chain-actors :
      (g : Grant) (who : String) → contains (actors_leaf_to_root g) who ≡ in_chain g who
  unfolding in_chain actors_leaf_to_root contains
  in_chain-actors (root l) who = ground arith
  in_chain-actors (child l p) who = ground (arith, in_chain-actors p who)
