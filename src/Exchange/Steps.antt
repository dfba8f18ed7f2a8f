-- ===== src/Exchange/Steps.antt =====
-- What each step of an exchange has checked where it succeeds.
use mathlib.Core.Path.{subst}
use legant.Base.{
  ℕ, ◌≤◌, ◌<◌, shift, ltb, leb, String, ◌≡◌, refl, ap, ◌∙◌, true, false, not, List, Option, none,
  some, arith, string_eq, is_empty, any, if◌then◌else◌,
}
use legant.Base.Text.{fields}
use legant.Base.Result.{Result, ok, err, >>=-eq-ok, reject_if-eq-ok, ok-injective}
use legant.World.{World}
use legant.Delegation.AllowList.{attenuate}
use legant.Delegation.Constraints.{RateLimit}
use legant.Delegation.Grant.{Grant, link}
use legant.Delegation.Jwt.{DelegationClaims, Jwt}
use legant.Delegation.Token.{actor_chain}
use legant.Mcpauth.{Canonical, canonical, invalid, canonicalize_resource, resource_matches}
use legant.Database.{TokenRow, Database}
use legant.Revocation.{record_tx}
use legant.Exchange.{
  ExchangeError, Form, no_scope, resource_denied, expired, rate_limited, record_failed, over_rate,
  count_recent, or_refuse, as_refusal, canonical_or, lifetime, TokenExchanger, shape_grant,
  record_mint,
}

pub or_refuse-inv :
    {A : Type 0} (o : Option A) (e : ExchangeError) (a : A) → or_refuse o e ≡ ok a → o ≡ some a
or_refuse-inv none e a h = cc
or_refuse-inv (some b) e a h = ap some (ok-injective h)

pub as_refusal-inv :
    {E A : Type 0} (r : Result E A) (e : ExchangeError) (a : A) → as_refusal e r ≡ ok a → r ≡ ok a
as_refusal-inv (ok b) e a h = ap ok (ok-injective h)
as_refusal-inv (err x) e a h = cc

canonical_or-inv : (r : Canonical) (c : String) → canonical_or r ≡ ok c → r ≡ canonical c
canonical_or-inv (canonical x) c h = ap canonical (ok-injective h)
canonical_or-inv (invalid e) c h = cc

lifetime-le : (limit exp : ℕ) → (if ltb limit exp then limit else exp) ≤ limit
lifetime-le limit exp = ground arith

lifetime-le_ttl : (limit exp : ℕ) → (if ltb limit exp then limit else exp) ≤ exp
lifetime-le_ttl limit exp = ground arith

module _ ⦃W : World⦄ ⦃J : Jwt⦄ where
  -- The shape of a mint: what is minted is attenuated, its audience is permitted, and it outlives
  -- neither the grant nor the exchanger's own bound.
  pub record Shaped (x : TokenExchanger) (now : ℕ) (f : Form) (resource : String)
      (subject_scopes : List String) (g : Grant) (effective : List String) (canon : String)
      (exp : ℕ) : Type 0 where
    pub attenuated :
        attenuate subject_scopes (attenuate (link g).scopes (fields f.scope)) ≡ effective
    pub some_scope : is_empty effective ≡ false
    pub is_canonical : canonicalize_resource resource ≡ canonical canon
    pub permitted : any (resource_matches canon) (link g).constraints.resources ≡ true
    pub within_grant : exp ≤ (link g).expires_at
    pub within_ttl : exp ≤ shift now x.ttl
    pub alive : now < exp

  pub shape_grant-Shaped :
      (x : TokenExchanger) (now : ℕ) (f : Form) (resource : String) (subject_scopes : List String)
      (g : Grant) (s : List String × String × ℕ)
      → shape_grant x now f resource subject_scopes g ≡ ok s
      → Shaped x now f resource subject_scopes g s.0 s.1 s.2
  unfolding shape_grant
  shape_grant-Shaped x now f resource subject_scopes g s h =
      let effective = attenuate subject_scopes (attenuate (link g).scopes (fields f.scope)) in
      let (full, h1) = reject_if-eq-ok (is_empty effective) no_scope _ h in
      let (c, made, h2) = >>=-eq-ok (canonical_or (canonicalize_resource resource)) _ h1 in
      let (fits, h3) =
        reject_if-eq-ok (not (any (resource_matches c) (link g).constraints.resources))
          resource_denied _ h2 in
      let (live, h4) = reject_if-eq-ok (leb (lifetime g now x.ttl) now) expired _ h3 in
      subst (λ (t : List String × String × ℕ). Shaped x now f resource subject_scopes g t.0 t.1 t.2)
        (ok-injective h4)
        (record {
          attenuated = refl;
          some_scope = full;
          is_canonical = canonical_or-inv (canonicalize_resource resource) c made;
          permitted = ground (arith, fits);
          within_grant = lifetime-le (link g).expires_at (shift now x.ttl);
          within_ttl = lifetime-le_ttl (link g).expires_at (shift now x.ttl);
          alive = ground (arith, live);
        })

  -- The row that the transaction writes.
  abbrev pub minted_row :
      ℕ → String → String → DelegationClaims → String → List String → ℕ → TokenRow
  minted_row now agent id claims canon effective exp = record {
    jti = claims.id;
    delegation_id = some id;
    subject = claims.subject;
    agent_id = some agent;
    actor_chain = actor_chain claims.act;
    audience = canon;
    scopes = effective;
    issued_at = now;
    expires_at = exp;
    revoked_at = none;
  }

  pub record_mint-inv :
      (db db' : Database) (now : ℕ) (agent id : String) (rate : Option RateLimit)
      (claims : DelegationClaims) (canon : String) (effective : List String) (exp : ℕ)
      → record_mint db now agent id rate claims canon effective exp ≡ ok db'
      → (over_rate rate (count_recent db.tokens now id) ≡ false)
        × (record_tx db.tokens (minted_row now agent id claims canon effective exp)
            ≡ some db'.tokens)
        × (db.chains ≡ db'.chains)
  unfolding record_mint
  record_mint-inv db db' now agent id rate claims canon effective exp h =
      let (free, h1) =
        reject_if-eq-ok (over_rate rate (count_recent db.tokens now id)) rate_limited _ h in
      let row = minted_row now agent id claims canon effective exp in
      let (tokens, put, h2) = >>=-eq-ok (or_refuse (record_tx db.tokens row) record_failed) _ h1 in
      let same = ok-injective h2 in
      (
        free,
        or_refuse-inv (record_tx db.tokens row) record_failed tokens put
            ∙ ap (λ (d : Database). some d.tokens) same,
        ap (λ (d : Database). d.chains) same,
      )
