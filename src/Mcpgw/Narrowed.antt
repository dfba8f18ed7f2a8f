-- ===== src/Mcpgw/Narrowed.antt =====
-- The tokens that the gateway mints for an upstream are no wider than the token it was shown.
use mathlib.Core.Path.{subst}
use legant.Base.{
  All-contains, ℕ, ◌≤◌, ◌+◌, String, ◌≡◌, refl, ap, ◌∙◌, Bool, true, not, List, [], ◌∷◌, Option,
  none, some, arith, eq_iff, ◌==◌, string_eq, contains, Bool-cases, ◌⊎◌, inl, inr, if◌then◌else◌,
}
use legant.Base.Text.{fields, join, IsWord, fields-IsWord, fields-join}
use legant.Base.Result.{ok}
use legant.World.{World}
use legant.Delegation.AllowList.{Denial, category, tool, resource, missing_scope, permit_list}
use legant.Delegation.Constraints.{
  Constraints, Action, permit, check_amount, check_window, instant_of,
}
use legant.Delegation.Constraints.Gates.{orelse-none, none-orelse, scope_gate}
use legant.Delegation.Jwt.{DelegationClaims, Jwt}
use legant.Delegation.Token.{has_scope, authorize, permit_claims, issue_claims}
use legant.Mcpgw.{Gateway}
use legant.Mcpgw.Decode.{JsonLib}
use legant.Mcpgw.Call.{downstream_constraints, downstream_expiry, mint, tool_action, no_later}

module _ ⦃W : World⦄ ⦃L : JsonLib⦄ ⦃J : Jwt⦄ (g : Gateway) (c : DelegationClaims)
    (scopes : List String) (aud : String) (k : Option Constraints) (now : ℕ) (jti : String) where
  -- The claims that `mint` signs.
  abbrev pub downstream : DelegationClaims
  downstream = record {
    issuer = g.issuer;
    subject = c.subject;
    audience = aud ∷ [];
    expires_at = some (J.numeric_date (downstream_expiry g c now));
    issued_at = some (J.numeric_date now);
    id = jti;
    scope = join " " scopes;
    act = c.act;
    constraints = k;
  }

module _ ⦃W : World⦄ where
  permit_list-only : (t v : String) → permit_list tool (t ∷ []) v ≡ none → (v ≡ t) ⊎ (v ≡ "")
  unfolding permit_list contains
  permit_list-only t v h = elim (Bool-cases (v == "")) [
    | inl blank ↦ inr ((eq_iff v "").0 blank)
    | inr given ↦ inl (ground (arith, given, eq_iff t v))
  ]

  permit_list-narrower :
      (l : List String) (t v : String)
      → permit_list tool l t ≡ none
      → (v ≡ t) ⊎ (v ≡ "")
      → permit_list tool l v ≡ none
  unfolding permit_list
  permit_list-narrower l t v h (inl e) = ap (permit_list tool l) e ∙ h
  permit_list-narrower l t v h (inr e) = ground (arith, h, (eq_iff v "").1 e)

  permit_list-blank :
      (l : List String) (t : String)
      → permit_list resource l t ≡ none
      → permit_list resource l "" ≡ none
  unfolding permit_list
  permit_list-blank l t h = ground (arith, h)

  permit-inv :
      (at : ℕ) (k : Constraints) (a : Action)
      → permit at k a ≡ none
      → (check_amount k.max_amount a.amount ≡ none)
        × (permit_list category k.categories a.category_of ≡ none)
        × (permit_list tool k.tools a.tool_name ≡ none)
        × (permit_list resource k.resources a.resource_of ≡ none)
        × (check_window k.time_window (instant_of at a.at) ≡ none)
  unfolding permit
  permit-inv at k a h =
      let (amount, h1) = orelse-none (check_amount k.max_amount a.amount) _ h in
      let (cat, h2) = orelse-none (permit_list category k.categories a.category_of) _ h1 in
      let (tooled, h3) = orelse-none (permit_list tool k.tools a.tool_name) _ h2 in
      let (res, win) = orelse-none (permit_list resource k.resources a.resource_of) _ h3 in
      (amount, cat, tooled, res, win)

  permit-of :
      (at : ℕ) (k : Constraints) (a : Action)
      → check_amount k.max_amount a.amount ≡ none
      → permit_list category k.categories a.category_of ≡ none
      → permit_list tool k.tools a.tool_name ≡ none
      → permit_list resource k.resources a.resource_of ≡ none
      → check_window k.time_window (instant_of at a.at) ≡ none
      → permit at k a ≡ none
  unfolding permit
  permit-of at k a amount cat tooled res win =
      none-orelse (check_amount k.max_amount a.amount) _ amount (
        none-orelse (permit_list category k.categories a.category_of) _ cat (
          none-orelse (permit_list tool k.tools a.tool_name) _ tooled
            (none-orelse (permit_list resource k.resources a.resource_of) _ res win)))

  -- The action, naming no resource.
  abbrev pub anywhere : Action → Action
  anywhere a = record a { resource_of = "" }

  permit_narrower :
      (now at : ℕ) (k : Constraints) (scope t : String) (a : Action)
      → permit now k (tool_action scope t) ≡ none
      → permit at (record k { tools = t ∷ []; resources = [] }) a ≡ none
      → ((a.tool_name ≡ t) ⊎ (a.tool_name ≡ "")) × (permit at k (anywhere a) ≡ none)
  permit_narrower now at k scope t a held h =
      let (_, _, calls, blank, _) = permit-inv now k (tool_action scope t) held in
      let (amount, cat, tooled, _, win) =
        permit-inv at (record k { tools = t ∷ []; resources = [] }) a h in
      let one = permit_list-only t a.tool_name tooled in
      (
        one,
        permit-of at k (anywhere a) amount cat
            (permit_list-narrower k.tools t a.tool_name calls one) blank win,
      )

  constraints_narrower :
      (now at : ℕ) (o : Option Constraints) (scope t : String) (a : Action)
      → permit_claims now o (tool_action scope t) ≡ none
      → permit_claims at (downstream_constraints o t) a ≡ none
      → ((k : Constraints) → o ≡ some k → (a.tool_name ≡ t) ⊎ (a.tool_name ≡ ""))
        × (permit_claims at o (anywhere a) ≡ none)
  unfolding downstream_constraints
  constraints_narrower now at none scope t a held h = (λ k e. absurd (unset k e), refl)
    where
      unset : (k : Constraints) → none ≡ some k → ⊥
      unset k e = cc e
  constraints_narrower now at (some k) scope t a held h =
      let (one, fits) = permit_narrower now at k scope t a held h in (λ k' e. one, fits)

  one_scope :
      (scope s : String) → IsWord scope → has_scope (join " " (scope ∷ [])) s ≡ true → s ≡ scope
  unfolding has_scope contains
  one_scope scope s word h =
      let listed : contains (scope ∷ []) s ≡ true =
        subst (λ l. contains l s ≡ true) (fields-join (scope ∷ []) (word, tt)) h in
      ground (arith, listed, eq_iff scope s)

  held-IsWord : (held scope : String) → has_scope held scope ≡ true → IsWord scope
  unfolding has_scope
  held-IsWord held scope h = All-contains IsWord (fields held) scope (fields-IsWord held) h

  -- The claims' list of resources, if they have one, takes the action's resource.
  abbrev pub ResourceListed : DelegationClaims → Action → Type 0
  ResourceListed c a =
      (k : Constraints)
      → c.constraints ≡ some k
      → permit_list resource k.resources a.resource_of ≡ none

  permit_anywhere :
      (at : ℕ) (o : Option Constraints) (a : Action)
      → ((k : Constraints) → o ≡ some k → permit_list resource k.resources a.resource_of ≡ none)
      → permit_claims at o (anywhere a) ≡ none
      → permit_claims at o a ≡ none
  permit_anywhere at none a listed h = refl
  permit_anywhere at (some k) a listed h =
      let (amount, cat, tooled, _, win) = permit-inv at k (anywhere a) h in
      permit-of at k a amount cat tooled (listed k refl) win

  -- What is authorized with the resource left aside is authorized where its resource is listed.
  pub authorize-anywhere :
      (at : ℕ) (c : DelegationClaims) (a : Action)
      → authorize at c (anywhere a) ≡ none
      → ResourceListed c a
      → authorize at c a ≡ none
  unfolding authorize
  authorize-anywhere at c a h listed =
      let (has, fits) = scope_gate (has_scope c.scope a.scope) (missing_scope a.scope) _ h in
      ground (arith, has, permit_anywhere at c.constraints a listed fits)

  module _ ⦃L : JsonLib⦄ ⦃J : Jwt⦄ where
    -- What the token for a tool call authorizes, at any instant, has the tool's scope and, where the
    -- inbound token has constraints, no other tool; and the inbound token authorizes it, where the
    -- resource is left aside, which is the upstream itself.
    pub downstream-narrow :
        (g : Gateway) (c : DelegationClaims) (scope t aud : String) (now at : ℕ) (jti : String)
        (a : Action)
        → authorize now c (tool_action scope t) ≡ none
        → authorize at
            (downstream g c (scope ∷ []) aud (downstream_constraints c.constraints t) now jti)
            a
          ≡ none
        → (a.scope ≡ scope)
          × ((k : Constraints) → c.constraints ≡ some k → (a.tool_name ≡ t) ⊎ (a.tool_name ≡ ""))
          × (authorize at c (anywhere a) ≡ none)
    unfolding authorize
    downstream-narrow g c scope t aud now at jti a held h =
        let (has, fits) = scope_gate (has_scope c.scope scope) (missing_scope scope) _ held in
        let (asked, narrow) =
          scope_gate (has_scope (join " " (scope ∷ [])) a.scope) (missing_scope a.scope) _ h in
        let same = one_scope scope a.scope (held-IsWord c.scope scope has) asked in
        let (one, inner) = constraints_narrower now at c.constraints scope t a fits narrow in
        let here : has_scope c.scope a.scope ≡ true = ap (has_scope c.scope) same ∙ has in
        (same, one, passed (has_scope c.scope a.scope) here inner)
      where
        passed :
            {o : Option Denial} (b : Bool)
            → b ≡ true
            → o ≡ none
            → (if not b then some (missing_scope a.scope) else o) ≡ none
        passed b e k = ground (arith, e, k)

    -- A token that is minted is signed under the gateway's active key, for one audience, with the
    -- subject and the actors of the inbound token, and expires no later than it does.
    pub mint-signed :
        (g : Gateway) (c : DelegationClaims) (scopes : List String) (aud : String)
        (k : Option Constraints) (now : ℕ) (random_hex : Option String) {t : J.Token}
        → mint g c scopes aud k now random_hex ≡ ok t
        → (jti : String) × (random_hex ≡ some jti)
          × (J.sign g.active_kid g.active_signer (downstream g c scopes aud k now jti) ≡ some t)
    unfolding mint issue_claims
    mint-signed g c scopes aud k now none h = absurd (ground arith)
    mint-signed g c scopes aud k now (some jti) h = (jti, refl, ground arith)

    pub downstream_expiry-le :
        (g : Gateway) (c : DelegationClaims) (now e : ℕ)
        → c.expires_at ≡ some e
        → (J.numeric_date (downstream_expiry g c now) ≤ e)
          × (J.numeric_date (downstream_expiry g c now) ≤ now + g.downstream_ttl)
    downstream_expiry-le g c now e h =
        let cut = J.numeric_date-le (downstream_expiry g c now) in
        let clamped = clamp c.expires_at h in
        (omega (arith, cut, clamped), omega (arith, cut, clamped))
      where
        clamp :
            (o : Option ℕ)
            → o ≡ some e
            → (no_later (now + g.downstream_ttl) o ≤ e)
              × (no_later (now + g.downstream_ttl) o ≤ now + g.downstream_ttl)
        clamp o k = ground (arith, k)
