-- ===== src/Delegation/Token/RoundTrip.antt =====
-- A token minted for a grant, verified at a resource server, says what the grant says.
use mathlib.Core.Option.{some-injective}
use legant.Base.{
  ap, ◌∙◌, ℕ, ◌<◌, String, ◌≡◌, ◌≢◌, refl, ◌↔◌, true, List, [], ◌∷◌, Option, none, some, arith,
  eq_iff, string_eq, contains, All, All-imp, All-keep,
}
use legant.Base.Text.{join, IsWord, fields-join}
use legant.Base.Result.{ok, ok-injective}
use legant.World.{World}
use legant.Delegation.AllowList.{attenuate}
use legant.Delegation.AllowList.Laws.{contains-attenuate, is_subset_sound}
use legant.Delegation.Constraints.{Action, permit}
use legant.Delegation.Grant.{
  Grant, link, root_delegator, actor_chain_root_to_leaf, effective_scopes,
}
use legant.Delegation.Grant.Chain.{IsChain, links, chain-Narrows}
use legant.Delegation.Jwt.{DelegationClaims, Jwt, Accepted, ParseOptions}
use legant.Delegation.Token.{
  Signer, Verifier, act_of, has_scope, authorize, issue_for_grant, key_func, verify, or_fail,
  rejected,
}

module _ ⦃W : World⦄ where
  attenuate-IsWord :
      (parent requested : List String)
      → All IsWord requested
      → All IsWord (attenuate parent requested)
  unfolding attenuate
  attenuate-IsWord parent requested h = All-keep IsWord (contains parent) requested h

  has_scope-join :
      (scopes : List String) (s : String)
      → All IsWord scopes
      → has_scope (join " " scopes) s ≡ contains scopes s
  unfolding has_scope
  has_scope-join scopes s h = rw (fields-join scopes h)

  module _ ⦃J : Jwt⦄ (s : Signer) (g : Grant) (requested : List String) (audience : String)
      (now : ℕ) (jti : String) where
    -- The claims that `IssueForGrant` signs.
    abbrev pub minted : DelegationClaims
    minted = record {
      issuer = s.issuer;
      subject = root_delegator g;
      audience = audience ∷ [];
      expires_at = some (J.numeric_date (link g).expires_at);
      issued_at = some (J.numeric_date now);
      id = jti;
      scope = join " " (effective_scopes g requested);
      act = act_of (actor_chain_root_to_leaf g);
      constraints = some (link g).constraints;
    }

    issue-inv :
        {t : J.Token}
        → issue_for_grant s g requested audience now (some jti) ≡ ok t
        → J.sign s.kid s.key minted ≡ some t
    unfolding issue_for_grant
    issue-inv h = ground arith

    minted-Accepted :
        (later : ℕ)
        → later < J.numeric_date (link g).expires_at
        → Accepted (record { issuer = s.issuer; audience = some audience }) later minted
    minted-Accepted later h = record {
      issuer_matches = λ _. refl;
      audience_listed = λ a e ne. unfold contains in ground (arith, eq_iff audience a);
      unexpired = (J.numeric_date (link g).expires_at, refl, h);
    }

    -- Until its expiry a minted token for a non-empty audience verifies for that audience, at a
    -- verifier of the same issuer that holds the signer's key under a non-empty kid, and gives back
    -- the grant's claims: its user, its agents, the requested scopes that it holds, its constraints
    -- and its expiry.
    pub verify-issue_for_grant :
        (v : Verifier) (later : ℕ) {t : J.Token}
        → v.issuer ≡ s.issuer
        → s.kid ≢ ""
        → audience ≢ ""
        → v.keys s.kid ≡ some (J.public_key s.key)
        → later < J.numeric_date (link g).expires_at
        → issue_for_grant s g requested audience now (some jti) ≡ ok t
        → verify v later t audience ≡ ok minted
    unfolding verify key_func
    verify-issue_for_grant v later {t} same named asked held live issued = rw same (
        rw (
          J.parse-sign (key_func v) (record { issuer = s.issuer; audience = some audience }) later
            s.kid s.key minted t (issue-inv issued) (ground (arith, eq_iff s.kid "", held, named))
            (λ e. asked (some-injective _ _ e)) (minted-Accepted later live)))

    -- The minted claims authorize exactly the actions whose scope was requested and is the grant's,
    -- and which the grant's constraints permit.
    pub authorize-minted :
        (at : ℕ) (a : Action)
        → All IsWord requested
        → (authorize at minted a ≡ none) ↔ (
            (contains requested a.scope ≡ true)
            × (contains (link g).scopes a.scope ≡ true)
            × (permit at (link g).constraints a ≡ none))
    unfolding authorize effective_scopes
    authorize-minted at a words = ground (
      arith,
      has_scope-join (attenuate (link g).scopes requested) a.scope
          (attenuate-IsWord (link g).scopes requested words),
      contains-attenuate (link g).scopes requested a.scope,
    )

    authorize-minted_chain :
        (at : ℕ) (a : Action)
        → All IsWord requested
        → IsChain g
        → authorize at minted a ≡ none
        → All
            (λ l. (contains l.scopes a.scope ≡ true) × (permit at l.constraints a ≡ none))
            (links g)
    authorize-minted_chain at a words chain h =
        let (asked, held, fits) = (authorize-minted at a words).0 h in
        All-imp (links g)
          (λ l n.
            (is_subset_sound (link g).scopes l.scopes a.scope n.scopes held, n.permits at a fits))
          (chain-Narrows g chain)

  -- Minting succeeds only with randomness, and signs the claims above.
  pub issue-signed :
      ⦃J : Jwt⦄ (s : Signer) (g : Grant) (requested : List String) (audience : String) (now : ℕ)
      (random_hex : Option String) {t : J.Token}
      → issue_for_grant s g requested audience now random_hex ≡ ok t
      → (jti : String) × (random_hex ≡ some jti)
        × (J.sign s.kid s.key (minted s g requested audience now jti) ≡ some t)
  unfolding issue_for_grant
  issue-signed s g requested audience now none h = absurd (ground arith)
  issue-signed s g requested audience now (some jti) h = (jti, refl, ground arith)

  module _ ⦃J : Jwt⦄ (s : Signer) (g : Grant) (requested : List String) (audience : String)
      (now : ℕ) (random_hex : Option String) where
    -- Whoever verifies it, a token that was issued reads as the claims that were signed.
    verify-issued :
        (v : Verifier) (later : ℕ) (expected : String) {t : J.Token} {c : DelegationClaims}
        → issue_for_grant s g requested audience now random_hex ≡ ok t
        → verify v later t expected ≡ ok c
        → (jti : String) × (minted s g requested audience now jti ≡ c)
    unfolding verify
    verify-issued v later expected {t} {c} issued h =
        let (jti, _, signed) = issue-signed s g requested audience now random_hex issued in
        let o : ParseOptions = record { issuer = v.issuer; audience = some expected } in
        (
          jti,
          J.parse-sign_same (key_func v) o later s.kid s.key (minted s g requested audience now jti)
              c t signed (or_fail-inv (J.parse (key_func v) o later t) h),
        )
      where
        or_fail-inv : (p : Option DelegationClaims) → or_fail p rejected ≡ ok c → p ≡ some c
        or_fail-inv none k = absurd (ground arith)
        or_fail-inv (some d) k = ap some (ok-injective k)

    -- Whatever a token issued for the leaf of a chain authorizes, where the requested scopes are words
    -- and some verifier accepts it, was asked for, and every link of the chain up to the user's own
    -- grant holds its scope and permits it.
    pub authorize-issue_for_grant :
        (v : Verifier) (later : ℕ) (expected : String) (at : ℕ) (a : Action) {t : J.Token}
        {c : DelegationClaims}
        → All IsWord requested
        → IsChain g
        → issue_for_grant s g requested audience now random_hex ≡ ok t
        → verify v later t expected ≡ ok c
        → authorize at c a ≡ none
        → (contains requested a.scope ≡ true)
          × All
              (λ l. (contains l.scopes a.scope ≡ true) × (permit at l.constraints a ≡ none))
              (links g)
    authorize-issue_for_grant v later expected at a {t} {c} words chain issued h allowed =
        let (jti, same) = verify-issued v later expected issued h in
        let granted = ap (λ k. authorize at k a) same ∙ allowed in
        (
          ((authorize-minted s g requested audience now jti at a words).0 granted).0,
          authorize-minted_chain s g requested audience now jti at a words chain granted,
        )
