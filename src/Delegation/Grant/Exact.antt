-- ===== src/Delegation/Grant/Exact.antt =====
-- `Delegate`: when it succeeds, and that its result is a chain again.
use mathlib.Core.Path.{subst}
use legant.Base.{
  ℕ, ◌+◌, ◌≤◌, ◌<◌, ℤ, shift, String, ◌≡◌, refl, sym, ap, ◌∙◌, ◌↔◌, true, false, List, arith,
  contains, string_eq,
}
use legant.Base.Result.{ok}
use legant.World.{World}
use legant.Delegation.AllowList.{is_subset}
use legant.Delegation.AllowList.Laws.{is_subset_sound, is_subset_complete}
use legant.Delegation.Constraints.{Constraints, tighten}
use legant.Delegation.Constraints.Laws.{IsWellFormed, tighten_parent, tighten-IsWellFormed}
use legant.Delegation.Grant.{
  Link, Grant, child, link, depth, in_chain, clamp, delegate, root_delegator, actors_leaf_to_root,
}
use legant.Delegation.Grant.Chain.{Narrows, IsChain, IsChain-link, in_chain-actors}

clamp-le : (exp limit : ℕ) → clamp exp limit ≤ limit
clamp-le exp limit = ground arith

module _ ⦃W : World⦄ (parent : Grant) (delegatee : String) (scopes : List String) (c : Constraints)
    (ttl : ℤ) (now max_depth : ℕ) where
  -- The link that `Delegate` adds.
  abbrev pub delegated : Link
  delegated = record {
    delegator = (link parent).delegatee;
    delegatee = delegatee;
    scopes = scopes;
    constraints = tighten (link parent).constraints c;
    expires_at = clamp (shift now ttl) (link parent).expires_at;
  }

  -- What `Delegate` asks for: each scope is one of the parent's, the new depth is below the bound, and
  -- the delegatee is not yet an agent of the chain.
  pub record MayDelegate : Type 0 where
    pub covered : (s : String) → contains scopes s ≡ true → contains (link parent).scopes s ≡ true
    pub shallow : depth parent + 1 < max_depth
    pub fresh : contains (actors_leaf_to_root parent) delegatee ≡ false

  guards-inv :
      {g : Grant}
      → delegate parent delegatee scopes c ttl now max_depth ≡ ok g
      → (is_subset scopes (link parent).scopes ≡ true)
        × (depth parent + 1 < max_depth)
        × (in_chain parent delegatee ≡ false)
        × (child delegated parent ≡ g)
  unfolding delegate
  guards-inv h = (ground arith, ground arith, ground arith, ground arith)

  delegate-inv :
      {g : Grant}
      → delegate parent delegatee scopes c ttl now max_depth ≡ ok g
      → MayDelegate × (child delegated parent ≡ g)
  delegate-inv h =
      let (within, shallow, new, made) = guards-inv h in
      (
        record {
          covered = λ s m. is_subset_sound scopes (link parent).scopes s within m;
          shallow = shallow;
          fresh = in_chain-actors parent delegatee ∙ new;
        },
        made,
      )

  pub delegate-MayDelegate :
      MayDelegate
      → delegate parent delegatee scopes c ttl now max_depth ≡ ok (child delegated parent)
  unfolding delegate
  delegate-MayDelegate h = ground (
    arith,
    is_subset_complete scopes (link parent).scopes h.covered,
    h.shallow,
    sym (in_chain-actors parent delegatee) ∙ h.fresh,
  )

  delegated-Narrows :
      MayDelegate → IsWellFormed (link parent).constraints → Narrows delegated (link parent)
  delegated-Narrows h w = record {
    scopes = is_subset_complete scopes (link parent).scopes h.covered;
    expiry = clamp-le (shift now ttl) (link parent).expires_at;
    permits = λ t a. tighten_parent t (link parent).constraints c a w;
  }

  -- From a chain, and for well-formed constraints, `Delegate` returns the parent with one more link:
  -- from the parent's agent to the delegatee, with the scopes asked for, the parent's constraints
  -- tightened by the given ones and the earlier of the two expiries. That link is within the parent's
  -- in scopes, expiry and permitted actions; the result is a chain again, below the depth bound, from
  -- the same user.
  pub delegate-IsChain :
      {g : Grant}
      → delegate parent delegatee scopes c ttl now max_depth ≡ ok g
      → IsChain parent
      → IsWellFormed c
      → IsChain g
        × (depth g < max_depth)
        × (root_delegator g ≡ root_delegator parent)
        × (g ≡ child delegated parent)
        × Narrows (link g) (link parent)
  unfolding depth root_delegator
  delegate-IsChain {g} h chain w =
      let (may, e) = delegate-inv h in
      let known = IsChain-link parent chain in
      subst
        (λ k.
          IsChain k
          × (depth k < max_depth)
          × (root_delegator k ≡ root_delegator parent)
          × (k ≡ child delegated parent)
          × Narrows (link k) (link parent))
        e
        (
          (
            tighten-IsWellFormed (link parent).constraints c known w,
            delegated-Narrows may known,
            refl,
            sym (in_chain-actors parent delegatee) ∙ may.fresh,
            chain,
          ),
          omega (arith, may.shallow),
          refl,
          refl,
          delegated-Narrows may known,
        )

  -- `Delegate` returns a grant exactly when every scope asked for is one of the parent's, the new
  -- depth is below the bound and the delegatee is not an agent of the chain; and the grant is then
  -- the parent with the one link added.
  pub delegate_iff :
      (g : Grant)
      → (delegate parent delegatee scopes c ttl now max_depth ≡ ok g)
        ↔ (MayDelegate × (g ≡ child delegated parent))
  delegate_iff g = (
    λ h. let (may, made) = delegate-inv h in (may, sym made),
    λ may. delegate-MayDelegate may.0 ∙ ap ok (sym may.1),
  )
