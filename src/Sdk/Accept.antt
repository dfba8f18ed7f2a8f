-- ===== src/Sdk/Accept.antt =====
-- What `Verifier.Verify` of sdk/verifier.go accepts.
use mathlib.Core.Path.{subst}
use legant.Base.{
  ℕ, ◌<◌, String, ◌≡◌, ◌≢◌, refl, sym, ap, ◌∙◌, true, false, not, List, [], ◌∷◌, Option, none, some,
  arith, eq_iff, ◌==◌, string_eq, any, ltb_ℤ, Bool-cases, inl, inr,
}
use legant.Base.Result.{ok, >>=-eq-ok, reject_if-eq-ok, ok-injective}
use legant.World.{World}
use legant.Delegation.Grant.{
  Grant, root, child, link, actors_leaf_to_root, actor_chain_root_to_leaf,
}
use legant.Delegation.Jwt.{ActClaim, nobody, actor, DelegationClaims, ParseOptions, Jwt}
use legant.Delegation.Token.{Signer, issue_for_grant, act_of, actor_chain}
use legant.Delegation.Token.Actors.{actor_chain-grant}
use legant.Delegation.Token.RoundTrip.{minted, issue-signed}
use legant.Sdk.{audience_matches, canonicalize_audience}
use legant.Sdk.Feed.{RevocationFeed, is_revoked, staleness}
use legant.Sdk.Verify.{
  no_act, wrong_audience, stale_feed, revoked_token, has_no_act, parsed_or, Verifier, trusted_key,
  feed_stale, feed_lists, verify,
}

module _ ⦃W : World⦄ ⦃J : Jwt⦄ where
  -- A token that a resource server took: who vouches for it, and what was checked.
  pub record Taken (v : Verifier) (now : ℕ) (token : J.Token) (c : DelegationClaims) : Type 0 where
    pub key : J.PublicKey
    pub key_known : v.keys (J.kid_of token) ≡ some key
    pub from_issuer : v.issuer ≢ "" → c.issuer ≡ v.issuer
    pub unexpired : (e : ℕ) × (c.expires_at ≡ some e) × (now < e)
    pub delegated : has_no_act c.act ≡ false
    pub for_us : audience_matches c.audience v.audience ≡ true
    pub not_revoked : (f : RevocationFeed) → v.feed ≡ some f → c.id ≢ "" → is_revoked f c.id ≡ false
    pub feed_fresh :
        (f : RevocationFeed)
        → v.feed ≡ some f
        → v.feed_fail_closed ≡ true
        → ltb_ℤ v.feed_max_staleness (staleness f now) ≡ false

  parsed_or-inv : {A : Type 0} (o : Option A) (a : A) → parsed_or o ≡ ok a → o ≡ some a
  parsed_or-inv none a h = cc
  parsed_or-inv (some b) a h = ap some (ok-injective h)

  trusted-known :
      (v : Verifier) (kid : String) (k : J.PublicKey)
      → trusted_key v kid ≡ some k
      → v.keys kid ≡ some k
  unfolding trusted_key
  trusted-known v kid k h = elim (Bool-cases (kid == "")) [
    | inl blank ↦ absurd (none_key (rw blank at h))
    | inr named ↦ rw named at h
  ]
    where
      none_key : none ≡ some k → ⊥
      none_key e = cc e

  pub verify-Taken :
      (v : Verifier) (now : ℕ) (token : J.Token) {c : DelegationClaims}
      → verify v now token ≡ ok c
      → Taken v now token c
  unfolding verify
  verify-Taken v now token {c} h =
      let o : ParseOptions = record { issuer = v.issuer; audience = none } in
      let (d, parsed, h1) = >>=-eq-ok (parsed_or (J.parse (trusted_key v) o now token)) _ h in
      let (acted, h2) = reject_if-eq-ok (has_no_act d.act) no_act _ h1 in
      let (ours, h3) =
        reject_if-eq-ok (not (audience_matches d.audience v.audience)) wrong_audience _ h2 in
      let (fresh, h4) = reject_if-eq-ok (feed_stale v now v.feed) stale_feed _ h3 in
      let (free, h5) = reject_if-eq-ok (feed_lists v.feed d.id) revoked_token _ h4 in
      let p = parsed_or-inv (J.parse (trusted_key v) o now token) d parsed in
      let (k, known) = J.parse_key (trusted_key v) o now token d p in
      let accepted = J.parse_accepted (trusted_key v) o now token d p in
      subst (Taken v now token) (ok-injective h5) (record {
        key = k;
        key_known = trusted-known v (J.kid_of token) k known;
        from_issuer = accepted.issuer_matches;
        unexpired = accepted.unexpired;
        delegated = acted;
        for_us = ground (arith, ours);
        not_revoked =
            λ f e ne. ground (arith, eq_iff d.id "", subst (λ k. feed_lists k d.id ≡ false) e free);
        feed_fresh = λ f e closed. ground (arith, subst (λ k. feed_stale v now k ≡ false) e fresh);
      })

  nothing : (g : Grant) → actors_leaf_to_root g ≡ [] → ⊥
  unfolding actors_leaf_to_root
  nothing (root l) k = absurd (ground arith)
  nothing (child l p) k = absurd (ground arith)

  known :
      (v : Verifier) (kid : String) (k : J.PublicKey)
      → kid ≢ ""
      → v.keys kid ≡ some k
      → trusted_key v kid ≡ some k
  unfolding trusted_key
  known v kid k named held = ground (arith, eq_iff kid "", held, named)

  matches :
      (a want : String)
      → canonicalize_audience a ≡ canonicalize_audience want
      → audience_matches (a ∷ []) want ≡ true
  unfolding audience_matches any
  matches a want h = ground (arith, eq_iff (canonicalize_audience a) (canonicalize_audience want))

  names_an_actor : (g : Grant) → has_no_act (act_of (actor_chain_root_to_leaf g)) ≡ false
  names_an_actor g = from (act_of (actor_chain_root_to_leaf g)) refl
    where
      from : (a : ActClaim) → act_of (actor_chain_root_to_leaf g) ≡ a → has_no_act a ≡ false
      from (actor sub act) e = refl
      from nobody e = absurd (empty g (sym (actor_chain-grant g) ∙ ap actor_chain e))
        where
          empty : (g : Grant) → actors_leaf_to_root g ≡ actor_chain nobody → ⊥
          empty g k = nothing g (unfold actor_chain in k)

  -- A token that the issuer minted is taken, until it expires, by a resource server of that issuer with
  -- the signing key, an audience of the same canonical form, and no feed.
  pub verify-minted :
      (s : Signer) (g : Grant) (requested : List String) (audience : String) (now : ℕ)
      (random_hex : Option String) (v : Verifier) (later : ℕ) {t : J.Token}
      → v.issuer ≡ s.issuer
      → s.kid ≢ ""
      → v.keys s.kid ≡ some (J.public_key s.key)
      → canonicalize_audience audience ≡ canonicalize_audience v.audience
      → v.feed ≡ none
      → later < J.numeric_date (link g).expires_at
      → issue_for_grant s g requested audience now random_hex ≡ ok t
      → (jti : String) × (random_hex ≡ some jti)
        × (verify v later t ≡ ok (minted s g requested audience now jti))
  unfolding verify
  verify-minted s g requested audience now random_hex v later {t} same named held heard quiet live
        issued =
      let (jti, drawn, signed) = issue-signed s g requested audience now random_hex issued in
      let c = minted s g requested audience now jti in
      let o : ParseOptions = record { issuer = v.issuer; audience = none } in
      let parsed : J.parse (trusted_key v) o later t ≡ some c =
        J.parse-sign (trusted_key v) o later s.kid s.key c t signed
          (known v s.kid (J.public_key s.key) named held) (unasked "")
          (record {
            issuer_matches = λ _. sym same;
            audience_listed = λ a e ne. absurd (unasked a e);
            unexpired = (J.numeric_date (link g).expires_at, refl, live);
          }) in
      (jti, drawn, rw (parsed, names_an_actor g, matches audience v.audience heard, quiet) refl)
    where
      unasked : (a : String) → none ≡ some a → ⊥
      unasked a e = cc e
