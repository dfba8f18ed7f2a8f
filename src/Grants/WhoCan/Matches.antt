-- ===== src/Grants/WhoCan/Matches.antt =====
-- What who-can answers is justified by a grant of the file.
use mathlib.Core.Path.{subst}
use legant.Base.{
  ℕ, zero, suc, ◌+◌, ◌∙◌, ◌⊎◌, inl, inr, String, ◌≡◌, refl, ap, Bool, true, false, List, [], ◌∷◌,
  Option, none, some, arith, All, All-append, if◌then◌else◌,
}
use legant.Base.Result.{Result, ok, err, ◌>>=◌, >>=-eq-ok, ok-injective}
use legant.World.{World}
use legant.Delegation.AllowList.{Denial}
use legant.Delegation.Constraints.{Action}
use legant.Delegation.Grant.{link}
use legant.Delegation.Jwt.{DelegationClaims, Jwt}
use legant.Database.{is_some}
use legant.Sdk.{authorize_claims, render_provenance}
use legant.Sdk.Verify.{VerifyError, verify}
use legant.Grants.{
  GrantError, mint_failed, Formats, GrantSpec, File, Node, as_error, label, build_tree,
}
use legant.Grants.WhoCan.{
  Match, Setup, without_window, if_dropped, mint_grant, verifier_for, passed, authorize_node,
  matched, retried, match_node, match_nodes, who_can_from, who_can,
}

module _ ⦃W : World⦄ ⦃J : Jwt⦄ ⦃F : Formats⦄ where
  abbrev pub nth : List GrantSpec → ℕ → Option GrantSpec
  nth [] i = none
  nth (g ∷ gs) zero = some g
  nth (g ∷ gs) (suc i) = nth gs i

  abbrev pub Among : Node → List Node → Type 0
  Among n [] = ⊥
  Among n (m ∷ nodes) = (n ≡ m) ⊎ Among n nodes

  zero-add : (i : ℕ) → i ≡ 0 + i
  zero-add i = omega arith

  add-zero : (j : ℕ) → j + 0 ≡ j
  add-zero j = omega arith

  shifted : (i j : ℕ) → j + suc i ≡ suc j + i
  shifted i j = omega arith

  -- The node stands in the tree of the grant of the file that goes by the name.
  pub record Declares (f : File) (now : ℕ) (name : String) (n : Node) : Type 0 where
    pub index : ℕ
    pub spec : GrantSpec
    pub listed : nth f.grants index ≡ some spec
    pub named : name ≡ label spec index
    pub nodes : List Node
    pub built : build_tree f spec index now ≡ ok nodes
    pub among : Among n nodes

  -- A token minted for a node of the named grant of the file, verified as a resource server of the
  -- node's audience would, authorizes the action; with its window dropped, and at the present, where the
  -- match is marked.
  pub record Justified (f : File) (s : Setup) (a : Action) (now : ℕ) (m : Match) : Type 0 where
    pub node : Node
    pub declared : Declares f now m.name node
    pub audience_same : m.audience ≡ node.audience
    pub token : J.Token
    pub random_hex : Option String
    pub minted :
        mint_grant s.signer
          (if_dropped m.time_boxed (without_window node.grant) node.grant)
          m.audience
          now
          random_hex
        ≡ ok token
    pub claims : DelegationClaims
    pub verified : verify (verifier_for s m.audience) now token ≡ ok claims
    pub authorized :
        authorize_claims now claims (if_dropped m.time_boxed (record a { at = 0 }) a) ≡ none
    pub rendered : m.provenance ≡ render_provenance claims

  as_error-inv :
      {E A : Type 0} (e : GrantError) (r : Result E A) {x : A} → as_error e r ≡ ok x → r ≡ ok x
  as_error-inv e (ok b) h = ap ok (ok-injective h)
  as_error-inv e (err y) h = cc

  passed-inv :
      (now : ℕ) (a : Action) (r : Result VerifyError DelegationClaims) {p : String}
      → passed now a r ≡ some p
      → (c : DelegationClaims) × (r ≡ ok c)
        × (authorize_claims now c a ≡ none)
        × (p ≡ render_provenance c)
  passed-inv now a (err e) h = absurd (ground arith)
  passed-inv now a (ok c) {p} h = from (authorize_claims now c a) refl h
    where
      from :
          (o : Option Denial)
          → authorize_claims now c a ≡ o
          → (if is_some o then none else some (render_provenance c)) ≡ some p
          → (c' : DelegationClaims) × (◌≡◌ {A = Result VerifyError DelegationClaims} (ok c) (ok c'))
            × (authorize_claims now c' a ≡ none)
            × (p ≡ render_provenance c')
      from none e k = (c, refl, e, ground (arith, k))
      from (some d) e k = absurd (ground arith)

  matched-Justified :
      (f : File) (s : Setup) (name : String) (n : Node) (a : Action) (now : ℕ)
      (random_hex : Option String) (drop : Bool) (o : Option String)
      → Declares f now name n
      → authorize_node s n.grant n.audience a now drop random_hex ≡ ok o
      → All (Justified f s a now) (matched name n drop o)
  unfolding authorize_node
  matched-Justified f s name n a now random_hex drop none d h = tt
  matched-Justified f s name n a now random_hex drop (some p) d h =
      let (t, minted, h1) = >>=-eq-ok (as_error mint_failed _) _ h in
      let (c, verified, authorized, rendered) = passed-inv now _ _ (ok-injective h1) in
      (
        record {
          node = n;
          declared = d;
          audience_same = refl;
          token = t;
          random_hex = random_hex;
          minted = as_error-inv _ _ minted;
          claims = c;
          verified = verified;
          authorized = authorized;
          rendered = rendered;
        },
        tt,
      )

  match_node-Justified :
      (f : File) (s : Setup) (name : String) (n : Node) (a : Action) (now : ℕ)
      (random_hex : Option String) {ms : List Match}
      → Declares f now name n
      → match_node s name n a now random_hex ≡ ok ms
      → All (Justified f s a now) ms
  unfolding match_node
  match_node-Justified f s name n a now random_hex {ms} d h =
      let (o, first, h1) =
        >>=-eq-ok (authorize_node s n.grant n.audience a now false random_hex) _ h in
      from o first h1
    where
      window :
          (b : Bool)
          → (if b
              then authorize_node s n.grant n.audience a now true random_hex
                >>= (λ q. ok (matched name n true q))
              else ok [])
            ≡ ok ms
          → All (Justified f s a now) ms
      window true k =
          let (q, second, k1) =
            >>=-eq-ok (authorize_node s n.grant n.audience a now true random_hex) _ k in
          subst (All (Justified f s a now)) (ok-injective k1)
            (matched-Justified f s name n a now random_hex true q d second)
      window false k = subst (All (Justified f s a now)) (ok-injective k) tt

      from :
          (o : Option String)
          → authorize_node s n.grant n.audience a now false random_hex ≡ ok o
          → retried s name n a now random_hex o ≡ ok ms
          → All (Justified f s a now) ms
      from (some p) e k =
          subst (All (Justified f s a now)) (ok-injective k)
            (matched-Justified f s name n a now random_hex false (some p) d e)
      from none e k = window (is_some (link n.grant).constraints.time_window) k

  match_nodes-Justified :
      (f : File) (s : Setup) (name : String) (nodes : List Node) (a : Action) (now : ℕ)
      (random_hex : Option String) {ms : List Match}
      → ((n : Node) → Among n nodes → Declares f now name n)
      → match_nodes s name nodes a now random_hex ≡ ok ms
      → All (Justified f s a now) ms
  unfolding match_nodes
  match_nodes-Justified f s name [] a now random_hex ds h =
      subst (All (Justified f s a now)) (ok-injective h) tt
  match_nodes-Justified f s name (n ∷ nodes) a now random_hex ds h =
      let (here, first, h1) = >>=-eq-ok (match_node s name n a now random_hex) _ h in
      let (rest, later, h2) = >>=-eq-ok (match_nodes s name nodes a now random_hex) _ h1 in
      subst (All (Justified f s a now)) (ok-injective h2) (
        All-append (Justified f s a now) here rest
          (match_node-Justified f s name n a now random_hex (ds n (inl refl)) first)
          (match_nodes-Justified f s name nodes a now random_hex (λ k m. ds k (inr m)) later))

  who_can_from-Justified :
      (f : File) (gs : List GrantSpec) (i : ℕ) (s : Setup) (a : Action) (now : ℕ)
      (random_hex : Option String) {ms : List Match}
      → ((j : ℕ) (g : GrantSpec) → nth gs j ≡ some g → nth f.grants (j + i) ≡ some g)
      → who_can_from f gs i s a now random_hex ≡ ok ms
      → All (Justified f s a now) ms
  unfolding who_can_from
  who_can_from-Justified f [] i s a now random_hex at h =
      subst (All (Justified f s a now)) (ok-injective h) tt
  who_can_from-Justified f (g ∷ gs) i s a now random_hex at h =
      let (nodes, built, h1) = >>=-eq-ok (build_tree f g i now) _ h in
      let (here, first, h2) = >>=-eq-ok (match_nodes s (label g i) nodes a now random_hex) _ h1 in
      let (rest, later, h3) = >>=-eq-ok (who_can_from f gs (suc i) s a now random_hex) _ h2 in
      subst (All (Justified f s a now)) (ok-injective h3) (
        All-append (Justified f s a now) here rest
          (match_nodes-Justified f s (label g i) nodes a now random_hex
            (λ n m. record {
              index = i;
              spec = g;
              listed = ap (nth f.grants) (zero-add i) ∙ at 0 g refl;
              named = refl;
              nodes = nodes;
              built = built;
              among = m;
            })
            first)
          (who_can_from-Justified f gs (suc i) s a now random_hex
            (λ j k e. ap (nth f.grants) (shifted i j) ∙ at (suc j) k e) later))

  pub who_can-Justified :
      (f : File) (s : Setup) (a : Action) (now : ℕ) (random_hex : Option String) {ms : List Match}
      → who_can f s a now random_hex ≡ ok ms
      → All (Justified f s a now) ms
  unfolding who_can
  who_can-Justified f s a now random_hex h =
      who_can_from-Justified f f.grants 0 s a now random_hex
        (λ j g e. ap (nth f.grants) (add-zero j) ∙ e) h
