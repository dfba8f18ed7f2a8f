-- ===== src/Chains/Validate.antt =====
-- What `validateAndCanonicalize` keeps of a constraint set.
use mathlib.Core.Path.{subst}
use legant.Base.{
  String, ◌≡◌, ◌≢◌, refl, ap, false, List, [], ◌∷◌, arith, eq_iff, ◌==◌, string_eq, contains,
}
use legant.Base.Result.{ok, >>=-eq-ok, reject_if-eq-ok, ok-injective}
use legant.World.{World, Url}
use legant.Delegation.AllowList.{deny_all}
use legant.Delegation.AllowList.Laws.{IsSealed}
use legant.Delegation.Constraints.{Constraints}
use legant.Delegation.Constraints.Laws.{IsWellFormed}
use legant.Mcpauth.{
  Canonical, canonical, invalid, canonicalize_resource, canonicalize_resource-text,
}
use legant.Chains.{
  bad_window, bad_rate, bad_amount, window_error, rate_error, amount_error, canonical_or_error,
  canonicalize_all, validate_and_canonicalize,
}

module _ ⦃W : World⦄ where
  -- `URL.String` never writes the sentinel, which begins with a NUL byte.
  pub record IsTextual : Type 0 where
    pub no_sentinel : (u : Url) → W.url_string u ≢ deny_all

  canonical-inv : (r : Canonical) (c : String) → canonical_or_error r ≡ ok c → r ≡ canonical c
  canonical-inv (canonical x) c h = ap canonical (ok-injective h)
  canonical-inv (invalid e) c h = cc

  not_sentinel :
      IsTextual → (r c : String) → canonicalize_resource r ≡ canonical c → (c == deny_all) ≡ false
  not_sentinel t r c h =
      let (u, e) = canonicalize_resource-text r c h in
      ground (arith, t.no_sentinel u, e, eq_iff c deny_all)

  canonicalize_all-clean :
      IsTextual
      → (rs out : List String) → canonicalize_all rs ≡ ok out
      → contains out deny_all ≡ false
  unfolding canonicalize_all contains
  canonicalize_all-clean t [] out h = subst (λ o. contains o deny_all ≡ false) (ok-injective h) refl
  canonicalize_all-clean t (r ∷ rs) out h =
      let (c, hc, h1) = >>=-eq-ok (canonical_or_error (canonicalize_resource r)) _ h in
      let (rest, hr, h2) = >>=-eq-ok (canonicalize_all rs) _ h1 in
      let clean = canonicalize_all-clean t rs rest hr in
      let fresh = not_sentinel t r c (canonical-inv (canonicalize_resource r) c hc) in
      subst (λ o. contains o deny_all ≡ false) (ok-injective h2) (ground (arith, clean, fresh))

  -- A set that passes validation is well formed, if the lists that are not resources are.
  pub validate-IsWellFormed :
      IsTextual
      → (c c' : Constraints) → IsSealed c.categories
      → IsSealed c.tools
      → validate_and_canonicalize c ≡ ok c'
      → IsWellFormed c'
  unfolding validate_and_canonicalize
  validate-IsWellFormed t c c' sealed sealed' h =
      let (_, h1) = reject_if-eq-ok (window_error c.time_window) bad_window _ h in
      let (_, h2) = reject_if-eq-ok (rate_error c.rate) bad_rate _ h1 in
      let (_, h3) = reject_if-eq-ok (amount_error c.max_amount) bad_amount _ h2 in
      let (out, made, h4) = >>=-eq-ok (canonicalize_all c.resources) _ h3 in
      let clean = canonicalize_all-clean t c.resources out made in
      subst IsWellFormed (ok-injective h4)
        (record { categories = sealed; tools = sealed'; resources = λ m. cc (m, clean) })
