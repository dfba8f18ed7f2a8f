-- ===== src/Exchange/Limits.antt =====
-- The rate cap of the exchange, the record that it leaves, and who an introspection answers for.
use mathlib.Core.Path.{subst}
use legant.Base.{
  ℕ, suc, ◌≤◌, ◌<◌, pos, ltb, String, ◌≡◌, ◌≢◌, refl, sym, ap, ◌∙◌, Bool-cases, inl, inr, Bool,
  false, not, List, Option, none, some, arith, eq_iff, ◌==◌, string_eq, if◌then◌else◌,
}
use legant.Base.Result.{Result, ok, err, ok-injective}
use legant.World.{World}
use legant.Delegation.Grant.{Grant, root, child, link}
use legant.Delegation.Jwt.{ActClaim, nobody, actor, DelegationClaims, Jwt}
use legant.Delegation.Token.{TokenError, verify, verify_any}
use legant.Database.{TokenRow, Database}
use legant.Revocation.{record_tx, row_active, is_active, revoke}
use legant.Revocation.Laws.{is_active-record_tx, is_active-revoke}
use legant.Exchange.{
  Form, count_recent, over_rate, clamp_leaf, TokenExchanger, TokenResponse, verifier_of, handle,
  Introspection, introspect_claims, introspect_verified, introspect_delegation,
}
use legant.Exchange.Steps.{minted_row, record_mint-inv}
use legant.Exchange.Handle.{Exchanged, handle-Exchanged}

recorded_count :
    (tokens tokens' : List TokenRow) (t : TokenRow) (now : ℕ) (id : String)
    → record_tx tokens t ≡ some tokens'
    → count_recent tokens' now id ≤ suc (count_recent tokens now id)
unfolding record_tx count_recent
recorded_count tokens tokens' t now id h = ground arith

cap_not_reached :
    (cap : ℕ) (minted : ℕ)
    → over_rate (some (record { max_per_hour = pos (suc cap) })) minted ≡ false
    → minted < suc cap
cap_not_reached cap minted h = ground arith

recorded_new :
    (tokens tokens' : List TokenRow) (t : TokenRow) (now : ℕ)
    → record_tx tokens t ≡ some tokens'
    → is_active tokens now t.jti ≡ false
unfolding record_tx is_active
recorded_new tokens tokens' t now h = ground arith

recorded_active :
    (id : String) (exp e later : ℕ)
    → exp ≡ e
    → (fresh old : Bool) → fresh ≡ not (ltb exp later)
    → (if id == id then fresh else old) ≡ not (ltb e later)
recorded_active id exp e later same fresh old h = ground (arith, eq_iff id id)

recorded_other :
    (id jti : String) (fresh old : Bool) → id ≢ jti → (if id == jti then fresh else old) ≡ old
recorded_other id jti fresh old h = ground (arith, eq_iff id jti)

module _ ⦃W : World⦄ where
  rate-clamp_leaf :
      (g : Grant) (scopes : List String) (exp : ℕ)
      → (link (clamp_leaf g scopes exp)).constraints.rate ≡ (link g).constraints.rate
  rate-clamp_leaf (root l) scopes exp = refl
  rate-clamp_leaf (child l p) scopes exp = refl

  module _ ⦃J : Jwt⦄ where
    -- What a successful exchange writes for the delegation that it resolved.
    pub record TokenWritten (x : TokenExchanger) (db : Database) (now : ℕ)
        (random_hex : Option String) (f : Form) (db' : Database) (answer : TokenResponse)
        : Type 0 where
      pub steps : Exchanged x db now random_hex f db' answer
      pub row : TokenRow
      pub written : record_tx db.tokens row ≡ some db'.tokens
      pub of_delegation : row.delegation_id ≡ some steps.id
      pub of_agent : row.agent_id ≡ some steps.agent
      pub of_user : row.subject ≡ steps.claims.subject
      pub by_id : row.jti ≡ steps.claims.id
      pub counted : count_recent db'.tokens now steps.id ≤ suc (count_recent db.tokens now steps.id)
      pub capped :
          (cap : ℕ)
          → (link steps.grant).constraints.rate ≡ some (record { max_per_hour = pos (suc cap) })
          → count_recent db'.tokens now steps.id ≤ suc cap

    pub handle-capped :
        (x : TokenExchanger) (db : Database) (now : ℕ) (random_hex : Option String) (f : Form)
        {db' : Database} {answer : TokenResponse}
        → handle x db now random_hex f ≡ ok (db', answer)
        → TokenWritten x db now random_hex f db' answer
    handle-capped x db now random_hex f {db'} h =
        let e = handle-Exchanged x db now random_hex f h in
        let g = clamp_leaf e.grant e.effective e.exp in
        let (free, put, _) =
          record_mint-inv db db' now e.agent e.id (link g).constraints.rate e.claims e.canon
            e.effective e.exp e.recorded in
        let row = minted_row now e.agent e.id e.claims e.canon e.effective e.exp in
        record {
          steps = e;
          row = row;
          written = put;
          of_delegation = refl;
          of_agent = refl;
          of_user = refl;
          by_id = refl;
          counted = recorded_count db.tokens db'.tokens row now e.id put;
          capped = λ cap rated. le_of_lt (recorded_count db.tokens db'.tokens row now e.id put) (
              cap_not_reached cap (count_recent db.tokens now e.id) (
                subst (λ r. over_rate r (count_recent db.tokens now e.id) ≡ false)
                  (rate-clamp_leaf e.grant e.effective e.exp ∙ rated) free));
        }
      where
        le_of_lt : {a b c : ℕ} → a ≤ suc b → b < c → a ≤ c
        le_of_lt p q = omega arith

    -- The token of an exchange that succeeds is new, is active up to the expiry of the answer, and
    -- changes nothing about any other token.
    pub handle-recorded :
        (x : TokenExchanger) (db : Database) (now : ℕ) (random_hex : Option String) (f : Form)
        {db' : Database} {answer : TokenResponse}
        → handle x db now random_hex f ≡ ok (db', answer)
        → (claims : DelegationClaims) × (audience : String) × (verify
              (verifier_of x)
              now
              answer.access_token
              audience
            ≡ ok claims)
          × ((later : ℕ) → is_active db.tokens later claims.id ≡ false)
          × ((later : ℕ) → is_active db'.tokens later claims.id ≡ not (ltb answer.expires_at later))
          × ((later : ℕ) (jti : String)
              → claims.id ≢ jti
              → is_active db'.tokens later jti ≡ is_active db.tokens later jti)
    handle-recorded x db now random_hex f {db'} {answer} h =
        let e = handle-Exchanged x db now random_hex f h in
        let g = clamp_leaf e.grant e.effective e.exp in
        let (_, put, _) =
          record_mint-inv db db' now e.agent e.id (link g).constraints.rate e.claims e.canon
            e.effective e.exp e.recorded in
        let row = minted_row now e.agent e.id e.claims e.canon e.effective e.exp in
        (
          e.claims,
          e.canon,
          e.verified,
          λ later. recorded_new db.tokens db'.tokens row later put,
          λ later.
              is_active-record_tx db.tokens db'.tokens row later e.claims.id put
              ∙ recorded_active e.claims.id e.exp answer.expires_at later e.answered
                  (row_active later (some row)) (is_active db.tokens later e.claims.id) refl,
          λ later jti other.
              is_active-record_tx db.tokens db'.tokens row later jti put
              ∙ recorded_other e.claims.id jti (row_active later (some row))
                  (is_active db.tokens later jti) other,
        )

    claims_lem :
        (db : Database) (now : ℕ) (c : DelegationClaims) (act : ActClaim) (i : Introspection)
        → introspect_claims db now c act ≡ some i
        → (act ≢ nobody)
          × (i.active ≡ is_active db.tokens now c.id)
          × (i.body ≡ (if is_active db.tokens now c.id then some c else none))
    claims_lem db now c nobody i h = absurd (ground arith)
    claims_lem db now c (actor sub act) i h = elim (Bool-cases (is_active db.tokens now c.id)) [
      | inl on ↦ (λ e. ground (arith, e), ground (arith, on), ground (arith, on))
      | inr off ↦ (λ e. ground (arith, e), ground (arith, off), ground (arith, off))
    ]

    verified_lem :
        (db : Database) (now : ℕ) (v : Result TokenError DelegationClaims) (i : Introspection)
        → introspect_verified db now v ≡ some i
        → (c : DelegationClaims) × (v ≡ ok c)
          × (c.act ≢ nobody)
          × (i.active ≡ is_active db.tokens now c.id)
          × (i.body ≡ (if is_active db.tokens now c.id then some c else none))
    verified_lem db now (err e) i h = absurd (ground arith)
    verified_lem db now (ok c) i h =
        let (act, on, body) = claims_lem db now c c.act i h in (c, refl, act, on, body)

    -- Introspection gives the claims only of a token that verifies and is active on record; for any
    -- other token of this issuer it says no more than that it is not active.
    pub introspect_delegation_sound :
        (x : TokenExchanger) (db : Database) (now : ℕ) (token : J.Token) (i : Introspection)
        → introspect_delegation x db now token ≡ some i
        → (c : DelegationClaims) × (verify_any (verifier_of x) now token ≡ ok c)
          × (c.act ≢ nobody)
          × (i.active ≡ is_active db.tokens now c.id)
          × (i.body ≡ (if is_active db.tokens now c.id then some c else none))
    unfolding introspect_delegation
    introspect_delegation_sound x db now token i h =
        verified_lem db now (verify_any (verifier_of x) now token) i h

    -- A token whose id was revoked is introspected as not active, at any later instant.
    pub introspect_delegation-revoke :
        (x : TokenExchanger) (db : Database) (now later : ℕ) (token : J.Token) (jti : String)
        (i : Introspection) {c : DelegationClaims}
        → verify_any (verifier_of x) later token ≡ ok c
        → c.id ≡ jti
        → introspect_delegation x (record db { tokens = (revoke db.tokens now jti).0 }) later token
          ≡ some i
        → (i.active ≡ false) × (i.body ≡ none)
    introspect_delegation-revoke x db now later token jti i {c} verified same h =
        let after = record db { tokens = (revoke db.tokens now jti).0 } in
        let (d, v, _, active, body) = introspect_delegation_sound x after later token i h in
        let is_c : c ≡ d = ok-injective (sym verified ∙ v) in
        let dead : is_active after.tokens later d.id ≡ false =
          is_active-revoke db.tokens now later jti d.id
          ∙ ground (arith, eq_iff jti d.id, sym same ∙ ap (λ (k : DelegationClaims). k.id) is_c) in
        (active ∙ dead, body ∙ rw dead refl)
