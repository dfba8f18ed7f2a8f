-- ===== src/Sdk/Laws.antt =====
-- The SDK and the issuer's engine authorize alike.
use legant.Base.{
  ℕ, String, ◌≡◌, refl, sym, ap, ◌∙◌, Bool, true, false, ◌||◌, List, [], ◌∷◌, Option, none, some,
  arith, eq_iff, ◌==◌, string_eq, contains, is_empty, any, Bool-cases, inl, inr,
}
use legant.Base.Text.{fields}
use legant.World.{World}
use legant.Delegation.AllowList.{Dim, category, tool, resource, missing_scope, permit_list}
use legant.Delegation.Constraints.{
  TimeWindow, Constraints, Action, allows, inside, location_of, check_amount, check_window, permit,
  instant_of,
}
use legant.Delegation.Constraints.Gates.{orelse-none, scope_gate}
use legant.Delegation.Jwt.{ActClaim, nobody, actor, DelegationClaims}
use legant.Delegation.Token.{has_scope, permit_claims, authorize, actor_chain, provenance}
use legant.Sdk.{
  scope_listed, actors_of, canonicalize_audience, same_audience, window_allows, permit_canonical,
  constraints_denied, amount_denied, window_denied, authorize_claims, render_provenance,
}

actors-actor_chain : (a : ActClaim) → actors_of a ≡ actor_chain a
unfolding actors_of actor_chain
actors-actor_chain nobody = refl
actors-actor_chain (actor sub act) = ap (λ l. sub ∷ l) (actors-actor_chain act)

module _ ⦃W : World⦄ where
  -- Both sides render the same provenance.
  pub render_provenance_lem : (c : DelegationClaims) → render_provenance c ≡ provenance c
  unfolding render_provenance provenance
  render_provenance_lem c = rw (actors-actor_chain c.act) refl

  window_lem : (w : TimeWindow) (at : ℕ) → window_allows w at ≡ allows w at
  unfolding window_allows allows location_of inside
  window_lem w at = ground arith

  denied_window : (w : Option TimeWindow) (at : ℕ) → window_denied w at ≡ check_window w at
  unfolding check_window
  denied_window none at = refl
  denied_window (some w) at = rw window_lem refl

  denied_amount : (m : Option W.Float) (a : W.Float) → amount_denied m a ≡ check_amount m a
  unfolding check_amount
  denied_amount none a = refl
  denied_amount (some m) a = refl

  permit_exact :
      (d : Dim) (allowed : List String) (v : String)
      → permit_canonical d allowed v false ≡ permit_list d allowed v
  unfolding permit_canonical permit_list
  permit_exact d allowed v = ground arith

  permit_wider :
      (d : Dim) (allowed : List String) (v : String)
      → permit_list d allowed v ≡ none
      → permit_canonical d allowed v true ≡ none
  unfolding permit_canonical permit_list
  permit_wider d allowed v h = ground arith

  any-witness :
      (test : String → Bool) (l : List String)
      → any test l ≡ true
      → (x : String) × (contains l x ≡ true) × (test x ≡ true)
  unfolding any contains
  any-witness test [] h = absurd (ground arith)
  any-witness test (x ∷ l) h = elim (Bool-cases (test x)) [
    | inl on ↦ (x, ground (arith, eq_iff x x), on)
    | inr off ↦
        let (y, at, fits) = any-witness test l (ground (arith, off)) in
        (y, ground (arith, at), fits)
  ]

  canonical_lem :
      (d : Dim) (allowed : List String) (v : String)
      → permit_canonical d allowed v true ≡ none
      → (r : String) × (canonicalize_audience r ≡ canonicalize_audience v)
        × (permit_list d allowed r ≡ none)
  unfolding permit_canonical permit_list
  canonical_lem d allowed v h =
      elim (Bool-cases (is_empty allowed || v == "" || contains allowed v)) [
        | inl exact ↦ (v, refl, ground arith)
        | inr other ↦
            let (r, at, same) =
              any-witness (same_audience (canonicalize_audience v)) allowed (ground arith) in
            (r, (eq_iff (canonicalize_audience r) (canonicalize_audience v)).0 same, ground arith)
      ]

  blank_lem :
      (d : Dim) (allowed : List String) (v : String)
      → v ≡ ""
      → permit_canonical d allowed v true ≡ permit_list d allowed v
  unfolding permit_canonical permit_list
  blank_lem d allowed v h = ground (arith, eq_iff v "")

  constraints_exact :
      (now : ℕ) (o : Option Constraints) (a : Action)
      → a.resource_of ≡ ""
      → constraints_denied now o a ≡ permit_claims now o a
  unfolding permit
  constraints_exact now none a h = refl
  constraints_exact now (some k) a h =
      rw
        (
          denied_amount k.max_amount a.amount,
          permit_exact category k.categories a.category_of,
          permit_exact tool k.tools a.tool_name,
          blank_lem resource k.resources a.resource_of h,
          denied_window k.time_window (instant_of now a.at),
        )
        refl

  constraints_wider :
      (now : ℕ) (o : Option Constraints) (a : Action)
      → permit_claims now o a ≡ none
      → constraints_denied now o a ≡ none
  unfolding permit
  constraints_wider now none a h = refl
  constraints_wider now (some k) a h =
      let (amount, h1) = orelse-none (check_amount k.max_amount a.amount) _ h in
      let (cat, h2) = orelse-none (permit_list category k.categories a.category_of) _ h1 in
      let (tooled, h3) = orelse-none (permit_list tool k.tools a.tool_name) _ h2 in
      let (res, win) = orelse-none (permit_list resource k.resources a.resource_of) _ h3 in
      rw
        (
          denied_amount k.max_amount a.amount,
          amount,
          permit_exact category k.categories a.category_of,
          cat,
          permit_exact tool k.tools a.tool_name,
          tooled,
          permit_wider resource k.resources a.resource_of res,
          denied_window k.time_window (instant_of now a.at),
        )
        win

  constraints_sound :
      (now : ℕ) (o : Option Constraints) (a : Action)
      → constraints_denied now o a ≡ none
      → (r : String) × (canonicalize_audience r ≡ canonicalize_audience a.resource_of)
        × (permit_claims now o (record a { resource_of = r }) ≡ none)
  unfolding permit
  constraints_sound now none a h = (a.resource_of, refl, refl)
  constraints_sound now (some k) a h =
      let (amount, h1) = orelse-none (amount_denied k.max_amount a.amount) _ h in
      let (cat, h2) =
        orelse-none (permit_canonical category k.categories a.category_of false) _ h1 in
      let (tooled, h3) = orelse-none (permit_canonical tool k.tools a.tool_name false) _ h2 in
      let (res, win) =
        orelse-none (permit_canonical resource k.resources a.resource_of true) _ h3 in
      let (r, same, fits) = canonical_lem resource k.resources a.resource_of res in
      (
        r,
        same,
        rw
            (
              sym (denied_amount k.max_amount a.amount) ∙ amount,
              sym (permit_exact category k.categories a.category_of) ∙ cat,
              sym (permit_exact tool k.tools a.tool_name) ∙ tooled,
              fits,
            )
            (sym (denied_window k.time_window (instant_of now a.at)) ∙ win),
      )

  -- An action that names no resource is authorized at a resource server exactly as it is at the issuer,
  -- with the same reason where it is refused.
  pub authorize_claims_exact :
      (now : ℕ) (c : DelegationClaims) (a : Action)
      → a.resource_of ≡ ""
      → authorize_claims now c a ≡ authorize now c a
  unfolding authorize_claims authorize scope_listed has_scope
  authorize_claims_exact now c a h = rw (constraints_exact now c.constraints a h) refl

  -- What the issuer's engine authorizes, a resource server authorizes.
  pub authorize-authorize_claims :
      (now : ℕ) (c : DelegationClaims) (a : Action)
      → authorize now c a ≡ none
      → authorize_claims now c a ≡ none
  unfolding authorize_claims authorize scope_listed has_scope
  authorize-authorize_claims now c a h =
      let (held, fits) =
        scope_gate (contains (fields c.scope) a.scope) (missing_scope a.scope)
          (permit_claims now c.constraints a) h in
      rw held (constraints_wider now c.constraints a fits)

  -- What a resource server authorizes, the issuer's engine authorizes for a resource of the same
  -- canonical form.
  pub authorize_claims_sound :
      (now : ℕ) (c : DelegationClaims) (a : Action)
      → authorize_claims now c a ≡ none
      → (r : String) × (canonicalize_audience r ≡ canonicalize_audience a.resource_of)
        × (authorize now c (record a { resource_of = r }) ≡ none)
  unfolding authorize_claims authorize scope_listed has_scope
  authorize_claims_sound now c a h =
      let (held, fits) =
        scope_gate (contains (fields c.scope) a.scope) (missing_scope a.scope)
          (constraints_denied now c.constraints a) h in
      let (r, same, k) = constraints_sound now c.constraints a fits in (r, same, rw held k)
