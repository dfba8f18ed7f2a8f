-- ===== src/Grants/Trees.antt =====
-- The grants that a file declares are attenuated as those of the engine are.
use mathlib.Core.Path.{subst}
use legant.Base.{
  ℕ, ℤ, String, ◌≡◌, ◌≢◌, refl, sym, ap, ◌∙◌, List, [], ◌∷◌, Option, none, some, ◌==◌, string_eq,
  eq_iff, arith, All,
}
use legant.Base.Text.{join}
use legant.Base.Result.{Result, ok, err, >>=-eq-ok, reject_if-eq-ok, ok-injective}
use legant.World.{World}
use legant.Delegation.Constraints.{Constraints}
use legant.Delegation.Constraints.Laws.{IsWellFormed}
use legant.Delegation.Grant.{Grant, new_root_grant, delegate, default_max_depth, root_delegator}
use legant.Delegation.Grant.Chain.{IsChain}
use legant.Delegation.Grant.Exact.{delegate-IsChain}
use legant.Grants.{
  GrantError, Formats, ConstraintSpec, ChildSpec, GrantSpec, File, Node, audience_for, as_error,
  constraints_for, ttl_for, label, sanitize, build_children, build_tree, not_delegable,
}

module _ ⦃W : World⦄ ⦃F : Formats⦄ where
  -- No allow-list that is declared mixes the deny-all sentinel with real values.
  abbrev pub Sealed : Option ConstraintSpec → Type 0
  Sealed o = (k : Constraints) → constraints_for o ≡ ok k → IsWellFormed k

  abbrev pub Declared : String → String → Node → Type 0
  Declared principal aud n =
      IsChain n.grant × (root_delegator n.grant ≡ principal) × (n.audience ≡ aud)

  as_error-inv :
      {E A : Type 0} (e : GrantError) (m : Result E A) {a : A} → as_error e m ≡ ok a → m ≡ ok a
  as_error-inv e (ok b) h = ap ok (ok-injective h)
  as_error-inv e (err x) h = cc

  build_children-Declared :
      (top : Grant) (base aud principal : String) (ttl : ℤ) (now : ℕ) (cs : List ChildSpec)
      {nodes : List Node}
      → IsChain top
      → root_delegator top ≡ principal
      → All (λ c. Sealed c.constraints) cs
      → build_children top base aud ttl now cs ≡ ok nodes
      → All (Declared principal aud) nodes
  unfolding build_children
  build_children-Declared top base aud principal ttl now [] chain user closed h =
      subst (All (Declared principal aud)) (ok-injective h) tt
  build_children-Declared top base aud principal ttl now (c ∷ cs) chain user closed h =
      let (named, h1) = reject_if-eq-ok (c.agent == "") _ _ h in
      let (k, built, h2) = >>=-eq-ok (constraints_for c.constraints) _ h1 in
      let (g, made, h3) =
        >>=-eq-ok
          (as_error not_delegable (delegate top c.agent c.scopes k ttl now default_max_depth)) _
          h2 in
      let (others, rest, h4) = >>=-eq-ok (build_children top base aud ttl now cs) _ h3 in
      let (linked, _, same, _, _) =
        delegate-IsChain top c.agent c.scopes k ttl now default_max_depth (as_error-inv _ _ made)
          chain (closed.0 k built) in
      subst (All (Declared principal aud)) (ok-injective h4) (
        (linked, same ∙ user, refl),
        build_children-Declared top base aud principal ttl now cs chain user closed.1 rest,
      )

  -- Every grant of a tree that is built is a chain that is attenuated link by link, from the declared
  -- principal, for the declared audience, where no declared list mixes the sentinel with real values.
  pub build_tree-Declared :
      (f : File) (g : GrantSpec) (i now : ℕ) {nodes : List Node}
      → Sealed g.constraints
      → All (λ c. Sealed c.constraints) g.delegates
      → build_tree f g i now ≡ ok nodes
      → All (Declared g.principal (audience_for f g)) nodes
  unfolding build_tree new_root_grant root_delegator
  build_tree-Declared f g i now shut closed h =
      let (ttl, timed, h1) = >>=-eq-ok (ttl_for f g) _ h in
      let (k, built, h2) = >>=-eq-ok (constraints_for g.constraints) _ h1 in
      let top = new_root_grant g.principal g.agent g.scopes k ttl now in
      let base = sanitize (label g i) in
      let (others, rest, h3) =
        >>=-eq-ok (build_children top base (audience_for f g) ttl now g.delegates) _ h2 in
      subst (All (Declared g.principal (audience_for f g))) (ok-injective h3) (
        (shut k built, refl, refl),
        build_children-Declared top base (audience_for f g) g.principal ttl now g.delegates
            (shut k built) refl closed rest,
      )

  same_label :
      (g h : GrantSpec) (i j : ℕ)
      → g.name ≡ ""
      → h.name ≡ ""
      → g.principal ≡ h.principal
      → g.agent ≡ h.agent
      → g.principal ≢ ""
      → g.agent ≢ ""
      → label g i ≡ label h j
  unfolding label
  same_label g h i j n m p a u v = ground (
    arith,
    eq_iff g.name "",
    eq_iff h.name "",
    eq_iff g.principal "",
    eq_iff g.agent "",
    eq_iff h.principal "",
    eq_iff h.agent "",
    n,
    m,
    p,
    a,
    u,
    v,
  )

  abbrev pub first_file : List Node → Option String
  first_file [] = none
  first_file (n ∷ nodes) = some n.file

  build_tree-file :
      (f : File) (g : GrantSpec) (i now : ℕ) {nodes : List Node}
      → build_tree f g i now ≡ ok nodes
      → first_file nodes ≡ some (join "" (sanitize (label g i) ∷ ".jwt" ∷ []))
  unfolding build_tree
  build_tree-file f g i now h =
      let (ttl, timed, h1) = >>=-eq-ok (ttl_for f g) _ h in
      let (k, built, h2) = >>=-eq-ok (constraints_for g.constraints) _ h1 in
      let (others, rest, h3) = >>=-eq-ok (build_children _ _ _ _ _ _) _ h2 in
      ap first_file (sym (ok-injective h3))

  -- Two grants without a name, of one principal to one agent, are written to one file, whatever their
  -- audiences are.
  pub build_tree-same_file :
      (f : File) (g h : GrantSpec) (i j now : ℕ) {nodes nodes' : List Node}
      → g.name ≡ ""
      → h.name ≡ ""
      → g.principal ≡ h.principal
      → g.agent ≡ h.agent
      → g.principal ≢ ""
      → g.agent ≢ ""
      → build_tree f g i now ≡ ok nodes
      → build_tree f h j now ≡ ok nodes'
      → first_file nodes ≡ first_file nodes'
  build_tree-same_file f g h i j now n m p a u v bg bh =
      build_tree-file f g i now bg
      ∙ ap (λ s. some (join "" (sanitize s ∷ ".jwt" ∷ []))) (same_label g h i j n m p a u v)
      ∙ sym (build_tree-file f h j now bh)
