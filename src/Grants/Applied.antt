-- ===== src/Grants/Applied.antt =====
-- What is applied once is left alone when it is applied again.
use mathlib.Core.Path.{subst}
use mathlib.Core.Option.{some-injective}
use legant.Base.{
  map, ℕ, String, ◌≡◌, ◌≢◌, refl, sym, ap, ◌∙◌, Bool, true, false, not, ◌&&◌, List, [], ◌∷◌, Option,
  none, some, ◌==◌, string_eq, eq_iff, arith, All, Bool-cases, inl, inr, if◌then◌else◌,
}
use legant.Base.Text.{join, IsWord, fields-join}
use legant.Base.Result.{Result, ok, err, >>=-eq-ok, ok-injective}
use legant.World.{World}
use legant.Delegation.Grant.{Grant, link, root_delegator, actor_chain_root_to_leaf}
use legant.Delegation.Jwt.{DelegationClaims, Jwt}
use legant.Delegation.Token.{Signer, act_of, issue_claims}
use legant.Delegation.Token.Actors.{actor_chain-grant}
use legant.Grants.{GrantError, mint_failed, Formats, Node, as_error}
use legant.Grants.WhoCan.{Setup, mint_grant}
use legant.Grants.Apply.{
  HasDays, FileAction, update, unchanged, Rendering, aud_string, fingerprint_grant, shape_of,
  rendered, fingerprint_token, find_file, write_file, action_for, is_unchanged, change, Applied,
  written, apply_node, apply_nodes,
}

module _ ⦃W : World⦄ ⦃J : Jwt⦄ ⦃R : Rendering⦄ ⦃F : Formats⦄ where
  -- The file of a node holds a token of the node's fingerprint.
  abbrev pub Current : List (String × J.Token) → Node → Type 0
  Current dir n =
      (t : J.Token) × (find_file dir n.file ≡ some t)
      × (fingerprint_token t ≡ fingerprint_grant n.grant n.audience)

  find-write :
      (name : String) (t : J.Token) (dir : List (String × J.Token))
      → find_file (write_file name t dir) name ≡ some t
  unfolding find_file write_file
  find-write name t [] = ground (arith, eq_iff name name)
  find-write name t (e ∷ dir) = elim (Bool-cases (e.0 == name)) [
    | inl same ↦ rw same (ground (arith, eq_iff name name))
    | inr other ↦ rw other (rw other (find-write name t dir))
  ]

  find-write_other :
      (name other : String) (t : J.Token) (dir : List (String × J.Token))
      → name ≢ other
      → find_file (write_file name t dir) other ≡ find_file dir other
  unfolding find_file write_file
  find-write_other name other t [] ne = ground (arith, eq_iff name other, ne)
  find-write_other name other t (e ∷ dir) ne = ground (
    arith,
    find-write_other name other t dir ne,
    eq_iff e.0 name,
    eq_iff e.0 other,
    eq_iff name other,
    ne,
  )

  abbrev granted : Signer → Grant → String → ℕ → String → DelegationClaims
  granted s g audience now jti = record {
    issuer = s.issuer;
    subject = root_delegator g;
    audience = audience ∷ [];
    expires_at = some (J.numeric_date (link g).expires_at);
    issued_at = some (J.numeric_date now);
    id = jti;
    scope = join " " (link g).scopes;
    act = act_of (actor_chain_root_to_leaf g);
    constraints = some (link g).constraints;
  }

  granted-shape :
      (s : Signer) (g : Grant) (audience : String) (now : ℕ) (jti : String)
      → All IsWord (link g).scopes
      → R.canonical (shape_of (granted s g audience now jti)) ≡ fingerprint_grant g audience
  unfolding fingerprint_grant aud_string join actor_chain_root_to_leaf
  granted-shape s g audience now jti words =
      rw (fields-join (link g).scopes words, actor_chain-grant g, R.sort_one audience) refl

  mint-signed :
      (s : Signer) (g : Grant) (audience : String) (now : ℕ) (random_hex : Option String)
      {t : J.Token}
      → mint_grant s g audience now random_hex ≡ ok t
      → (jti : String) × (J.sign s.kid s.key (granted s g audience now jti) ≡ some t)
  unfolding mint_grant issue_claims
  mint-signed s g audience now none h = absurd (ground arith)
  mint-signed s g audience now (some jti) h = (jti, ground arith)

  -- A token that is minted for a grant has the fingerprint of the grant.
  pub fingerprint-mint :
      (s : Signer) (g : Grant) (audience : String) (now : ℕ) (random_hex : Option String)
      {t : J.Token}
      → All IsWord (link g).scopes
      → HasDays (link g).constraints
      → mint_grant s g audience now random_hex ≡ ok t
      → fingerprint_token t ≡ fingerprint_grant g audience
  unfolding fingerprint_token
  fingerprint-mint s g audience now random_hex {t} words days h =
      let (jti, signed) = mint-signed s g audience now random_hex h in
      ap rendered (
        R.payload-sign s.kid s.key (granted s g audience now jti) t
          (λ k e. subst HasDays (some-injective _ _ e) days) signed)
      ∙ granted-shape s g audience now jti words

  as_error-inv :
      {E A : Type 0} (e : GrantError) (r : Result E A) {x : A} → as_error e r ≡ ok x → r ≡ ok x
  as_error-inv e (ok b) h = ap ok (ok-injective h)
  as_error-inv e (err y) h = cc

  action_for-unchanged :
      (dir : List (String × J.Token)) (n : Node) (o : Option J.Token)
      → find_file dir n.file ≡ o
      → is_unchanged (action_for o (fingerprint_grant n.grant n.audience)) ≡ true
      → Current dir n
  action_for-unchanged dir n none e h = absurd (ground arith)
  action_for-unchanged dir n (some t) e h =
      elim (Bool-cases (fingerprint_token t == fingerprint_grant n.grant n.audience)) [
        | inl same ↦
            (t, e, (eq_iff (fingerprint_token t) (fingerprint_grant n.grant n.audience)).0 same)
        | inr other ↦ absurd (clash (sym (rw other at h)))
      ]
    where
      clash : true ≡ false → ⊥
      clash k = cc k

  -- What a token keeps of a grant: scopes that are words, and the weekdays of a window.
  abbrev pub IsPlain : Node → Type 0
  IsPlain n = All IsWord (link n.grant).scopes × HasDays (link n.grant).constraints

  -- One node leaves its own file current, and the files of others as they were.
  abbrev Leaves : List (String × J.Token) → Node → Applied → Type 0
  Leaves dir n a =
      Current a.dir n
      × ((other : String) → n.file ≢ other → find_file a.dir other ≡ find_file dir other)

  apply_node-Leaves :
      (s : Setup) (force : Bool) (now : ℕ) (draw : String → Option String) (name : String)
      (dir : List (String × J.Token)) (n : Node) {a : Applied}
      → IsPlain n
      → apply_node s force now draw name dir n ≡ ok a
      → Leaves dir n a
  unfolding apply_node
  apply_node-Leaves s force now draw name dir n {a} words h =
      elim (Bool-cases (is_unchanged action && not force)) [
        | inl kept ↦ subst (Leaves dir n) (ok-injective (rw kept at h)) (
          action_for-unchanged dir n (find_file dir n.file) refl (ground (arith, kept)),
          λ other ne. refl,
        )
        | inr again ↦
            let (t, minted, h1) =
              >>=-eq-ok
                (as_error mint_failed (mint_grant s.signer n.grant n.audience now (draw n.file))) _
                (rw again at h) in
            subst (Leaves dir n) (ok-injective h1) (
              (
                t,
                find-write n.file t dir,
                fingerprint-mint s.signer n.grant n.audience now (draw n.file) words.0 words.1
                    (as_error-inv _ _ minted),
              ),
              λ other ne. find-write_other n.file other t dir ne,
            )
      ]
    where
      action : FileAction
      action = action_for (find_file dir n.file) (fingerprint_grant n.grant n.audience)

  -- No two nodes share a file.
  abbrev pub Distinct : List Node → Type 0
  Distinct [] = Unit
  Distinct (n ∷ nodes) = All (λ m. m.file ≢ n.file) nodes × Distinct nodes

  abbrev AllLeft : List (String × J.Token) → List Node → Applied → Type 0
  AllLeft dir nodes a =
      All (Current a.dir) nodes
      × ((other : String)
          → All (λ m. m.file ≢ other) nodes
          → find_file a.dir other ≡ find_file dir other)

  apply_nodes-AllLeft :
      (s : Setup) (force : Bool) (now : ℕ) (draw : String → Option String) (name : String)
      (dir : List (String × J.Token)) (nodes : List Node) {a : Applied}
      → Distinct nodes
      → All IsPlain nodes
      → apply_nodes s force now draw name dir nodes ≡ ok a
      → AllLeft dir nodes a
  unfolding apply_nodes
  apply_nodes-AllLeft s force now draw name dir [] apart words h =
      subst (AllLeft dir []) (ok-injective h) (tt, λ other ne. refl)
  apply_nodes-AllLeft s force now draw name dir (n ∷ nodes) apart words h =
      let (here, first, h1) = >>=-eq-ok (apply_node s force now draw name dir n) _ h in
      let (rest, later, h2) = >>=-eq-ok (apply_nodes s force now draw name here.dir nodes) _ h1 in
      let ((t, found, same), keeps) = apply_node-Leaves s force now draw name dir n words.0 first in
      let (currents, keeps') =
        apply_nodes-AllLeft s force now draw name here.dir nodes apart.1 words.1 later in
      subst (AllLeft dir (n ∷ nodes)) (ok-injective h2) (
        ((t, keeps' n.file apart.0 ∙ found, same), currents),
        λ other ne. keeps' other ne.1 ∙ keeps other ne.0,
      )

  -- The outcome where every file is current.
  abbrev pub untouched : String → List (String × J.Token) → List Node → Applied
  untouched name dir nodes = record {
    dir = dir;
    changes = map (λ n. change name n unchanged) nodes;
    minted = 0;
  }

  apply_node-Current :
      (s : Setup) (now : ℕ) (draw : String → Option String) (name : String)
      (dir : List (String × J.Token)) (n : Node)
      → Current dir n
      → apply_node s false now draw name dir n ≡ ok (untouched name dir (n ∷ []))
  unfolding apply_node
  apply_node-Current s now draw name dir n (t, found, same) =
      ap
        (λ o.
          written s false now draw name dir n (action_for o (fingerprint_grant n.grant n.audience)))
        found
      ∙ ap (λ b. written s false now draw name dir n (if b then unchanged else update))
          ((eq_iff (fingerprint_token t) (fingerprint_grant n.grant n.audience)).1 same)

  apply_nodes-Current :
      (s : Setup) (now : ℕ) (draw : String → Option String) (name : String)
      (dir : List (String × J.Token)) (nodes : List Node)
      → All (Current dir) nodes
      → apply_nodes s false now draw name dir nodes ≡ ok (untouched name dir nodes)
  unfolding apply_nodes
  apply_nodes-Current s now draw name dir [] h = refl
  apply_nodes-Current s now draw name dir (n ∷ nodes) h =
      rw (apply_node-Current s now draw name dir n h.0)
        (rw (apply_nodes-Current s now draw name dir nodes h.1) refl)

  pub apply_nodes_idem :
      (s : Setup) (force : Bool) (now later : ℕ) (draw draw' : String → Option String)
      (name : String) (dir : List (String × J.Token)) (nodes : List Node) {a : Applied}
      → Distinct nodes
      → All IsPlain nodes
      → apply_nodes s force now draw name dir nodes ≡ ok a
      → apply_nodes s false later draw' name a.dir nodes ≡ ok (untouched name a.dir nodes)
  apply_nodes_idem s force now later draw draw' name dir nodes {a} apart words h =
      apply_nodes-Current s later draw' name a.dir nodes
        (apply_nodes-AllLeft s force now draw name dir nodes apart words h).0
