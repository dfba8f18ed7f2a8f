-- ===== src/Mcpgw/Guarded.antt =====
-- What a request has passed when the gateway forwards it.
use mathlib.Core.Path.{subst}
use legant.Base.{
  ℕ, ltb, String, ◌≡◌, refl, sym, ap, ◌∙◌, Bool, true, false, not, ◌&&◌, List, [], ◌∷◌, Option,
  none, some, arith, eq_iff, ◌==◌, string_eq, Bool-cases, ◌⊎◌, inl, inr,
}
use legant.Base.Text.{fields}
use legant.Base.Result.{Result, ok, err, >>=-eq-ok, reject_if-eq-ok, ok-injective}
use legant.World.{World}
use legant.Delegation.Jwt.{DelegationClaims, Jwt}
use legant.Delegation.Token.{verify, authorize}
use legant.Database.{TokenRow, is_some}
use legant.Mcpgw.{Upstream, find_upstream, Gateway, token_active}
use legant.Mcpgw.Json.{Json, has_duplicate_keys, unique_keys, numbers_fit}
use legant.Mcpgw.Json.Scanned.{has_duplicate_keys_lem}
use legant.Mcpgw.Decode.{JsonLib, RpcRequest, request_of, then_some}
use legant.Mcpgw.Narrowed.{downstream, mint-signed}
use legant.Mcpgw.Call.{
  Refusal, Event, or_refuse, as_refusal, is_ok_true, bearer, is_passthrough, scope_for, tool_action,
  downstream_constraints, discovery_constraints, Request, Prepared, verifier_of, mint,
  prepare_tool_call, handle_non_tool_call, dispatch, prepare, request_event,
}

or_refuse-inv :
    {A : Type 0} (o : Option A) (e : Refusal) {a : A} → or_refuse o e ≡ ok a → o ≡ some a
or_refuse-inv none e h = cc
or_refuse-inv (some b) e h = ap some (ok-injective h)

as_refusal-inv :
    {E A : Type 0} (e : Refusal) (m : Result E A) {a : A} → as_refusal e m ≡ ok a → m ≡ ok a
as_refusal-inv e (ok b) h = ap ok (ok-injective h)
as_refusal-inv e (err x) h = cc

is_ok_true-inv : {E : Type 0} (m : Result E Bool) → is_ok_true m ≡ true → m ≡ ok true
is_ok_true-inv (ok b) h = ap ok h
is_ok_true-inv (err e) h = absurd (ground arith)

is_some-none : {A : Type 0} (o : Option A) → is_some o ≡ false → o ≡ none
is_some-none none h = refl
is_some-none (some a) h = absurd (ground arith)

then_some-inv :
    {A B : Type 0} (o : Option A) (next : A → Option B) {b : B}
    → then_some o next ≡ some b
    → (a : A) × (o ≡ some a) × (next a ≡ some b)
then_some-inv none next h = absurd (ground arith)
then_some-inv (some a) next h = (a, refl, h)

module _ ⦃W : World⦄ ⦃L : JsonLib⦄ ⦃J : Jwt⦄ where
  -- A tool call: the tool has a scope, the claims authorize it, and the token is signed for it alone.
  pub record ToolCall (g : Gateway) (now : ℕ) (p : Prepared) : Type 0 where
    pub scope : String
    pub mapped : scope_for p.upstream.tool_scopes p.tool ≡ some scope
    pub authorized : authorize now p.claims (tool_action scope p.tool) ≡ none
    pub jti : String
    pub signed :
        J.sign g.active_kid g.active_signer (
          downstream g p.claims
            (scope ∷ [])
            p.upstream.resource_id
            (downstream_constraints p.claims.constraints p.tool)
            now
            jti)
        ≡ some p.request.token

  -- Any other method: one of those let through.
  pub record OtherMethod (g : Gateway) (now : ℕ) (p : Prepared) : Type 0 where
    pub known : (p.method ≡ "tools/list") ⊎ (is_passthrough p.method ≡ true)
    pub jti : String
    pub signed :
        J.sign g.active_kid g.active_signer (
          downstream g p.claims
            (fields p.claims.scope)
            p.upstream.resource_id
            (discovery_constraints p.claims.constraints)
            now
            jti)
        ≡ some p.request.token

  pub record Sent (g : Gateway) (now : ℕ) (up : Upstream) (c : DelegationClaims) (rpc : RpcRequest)
      (r : Request) (p : Prepared) : Type 0 where
    pub upstream_same : p.upstream ≡ up
    pub claims_same : p.claims ≡ c
    pub method_same : p.method ≡ rpc.method
    pub body_same : p.request.body ≡ r.body
    pub url_same : p.request.url ≡ up.url
    pub kind :
        ((p.method ≡ "tools/call") × (p.tool ≡ rpc.tool) × ToolCall g now p) ⊎ OtherMethod g now p

  ToolCall-Sent :
      (g : Gateway) (up : Upstream) (c : DelegationClaims) (rpc : RpcRequest) (r : Request)
      (e : Event) (now : ℕ) (random_hex : Option String) {p : Prepared}
      → rpc.method ≡ "tools/call"
      → prepare_tool_call g up c rpc.tool r e now random_hex ≡ ok p
      → Sent g now up c rpc r p
  unfolding prepare_tool_call
  ToolCall-Sent g up c rpc r e now random_hex called h =
      let (scope, found, h1) = >>=-eq-ok (or_refuse (scope_for up.tool_scopes rpc.tool) _) _ h in
      let (free, h2) =
        reject_if-eq-ok (is_some (authorize now c (tool_action scope rpc.tool))) _ _ h1 in
      let k = downstream_constraints c.constraints rpc.tool in
      let (token, minted, h3) =
        >>=-eq-ok (as_refusal _ (mint g c (scope ∷ []) up.resource_id k now random_hex)) _ h2 in
      let (jti, drawn, signed) =
        mint-signed g c (scope ∷ []) up.resource_id k now random_hex (as_refusal-inv _ _ minted) in
      subst (Sent g now up c rpc r) (ok-injective h3) (record {
        upstream_same = refl;
        claims_same = refl;
        method_same = sym called;
        body_same = refl;
        url_same = refl;
        kind = inl (
          refl,
          refl,
          record {
            scope = scope;
            mapped = or_refuse-inv _ _ found;
            authorized = is_some-none _ free;
            jti = jti;
            signed = signed;
          },
        );
      })

  let_through :
      (m : String)
      → (not (m == "tools/list") && not (is_passthrough m)) ≡ false
      → (m ≡ "tools/list") ⊎ (is_passthrough m ≡ true)
  let_through m h = elim (Bool-cases (is_passthrough m)) [
    | inl listed ↦ inr listed
    | inr other ↦ inl (ground (arith, h, other, eq_iff m "tools/list"))
  ]

  other-Sent :
      (g : Gateway) (up : Upstream) (c : DelegationClaims) (rpc : RpcRequest) (r : Request)
      (e : Event) (now : ℕ) (random_hex : Option String) {p : Prepared}
      → handle_non_tool_call g up c rpc.method r e now random_hex ≡ ok p
      → Sent g now up c rpc r p
  unfolding handle_non_tool_call
  other-Sent g up c rpc r e now random_hex h =
      let (known, h1) =
        reject_if-eq-ok (not (rpc.method == "tools/list") && not (is_passthrough rpc.method)) _ _
          h in
      let k = discovery_constraints c.constraints in
      let (token, minted, h2) =
        >>=-eq-ok (as_refusal _ (mint g c (fields c.scope) up.resource_id k now random_hex)) _ h1 in
      let (jti, drawn, signed) =
        mint-signed g c (fields c.scope) up.resource_id k now random_hex
          (as_refusal-inv _ _ minted) in
      subst (Sent g now up c rpc r) (ok-injective h2) (record {
        upstream_same = refl;
        claims_same = refl;
        method_same = refl;
        body_same = refl;
        url_same = refl;
        kind = inr (record { known = let_through rpc.method known; jti = jti; signed = signed });
      })

  dispatch-Sent :
      (g : Gateway) (up : Upstream) (c : DelegationClaims) (rpc : RpcRequest) (r : Request)
      (e : Event) (now : ℕ) (random_hex : Option String) {p : Prepared}
      → dispatch g up c rpc r e now random_hex ≡ ok p
      → Sent g now up c rpc r p
  dispatch-Sent g up c rpc r e now random_hex h = elim (Bool-cases (rpc.method == "tools/call")) [
    | inl call ↦
        ToolCall-Sent g up c rpc r e now random_hex ((eq_iff rpc.method "tools/call").0 call)
          (rw call at h)
    | inr other ↦ other-Sent g up c rpc r e now random_hex (rw other at h)
  ]

  module _ (read_token : String → J.Token) where
    pub record Guarded (g : Gateway) (db : Option (List TokenRow)) (now : ℕ) (r : Request)
        (p : Prepared) : Type 0 where
      pub up : Upstream
      pub c : DelegationClaims
      pub found : find_upstream g.upstreams r.slug ≡ some up
      pub verified :
          verify (verifier_of g) now (read_token (bearer r.authorization)) up.inbound_audience
          ≡ ok c
      pub active : token_active g db now c.id ≡ ok true
      pub document : Json
      pub decoded : L.decode r.body ≡ some document
      pub unique : numbers_fit L.fits document ≡ true → unique_keys document ≡ true
      pub rpc : RpcRequest
      pub read : request_of document ≡ some rpc
      pub sent : Sent g now up c rpc r p

    unique-of :
        (b : L.Body) (j : Json)
        → L.decode b ≡ some j
        → has_duplicate_keys (L.tokens b) ≡ false
        → numbers_fit L.fits j ≡ true
        → unique_keys j ≡ true
    unique-of b j d h fit = negated (unique_keys j) (
        sym (has_duplicate_keys_lem L.fits j fit)
        ∙ ap has_duplicate_keys (sym (L.tokens-decode b j d))
        ∙ h)
      where
        negated : (x : Bool) → not x ≡ false → x ≡ true
        negated x k = ground (arith, k)

    -- A request is forwarded only to the upstream of its slug, under a token that verified for that
    -- upstream's audience and is active, for a document with no duplicate key unless it
    -- has a number out of the range of float64, whose method the gateway lets through or whose tool the token authorizes; with a token minted for it.
    pub prepare-Guarded :
        (g : Gateway) (db : Option (List TokenRow)) (now : ℕ) (r : Request)
        (random_hex : Option String) {p : Prepared}
        → prepare read_token g db now r random_hex ≡ ok p
        → Guarded g db now r p
    unfolding prepare
    prepare-Guarded g db now r random_hex {p} h =
        let (up, at, h1) = >>=-eq-ok (or_refuse (find_upstream g.upstreams r.slug) _) _ h in
        let (_, h2) = reject_if-eq-ok (bearer r.authorization == "") _ _ h1 in
        let (c, signed, h3) =
          >>=-eq-ok
            (as_refusal _ (
              verify (verifier_of g) now (read_token (bearer r.authorization)) up.inbound_audience))
            _ h2 in
        let (live, h4) = reject_if-eq-ok (not (is_ok_true (token_active g db now c.id))) _ _ h3 in
        let (_, h5) = reject_if-eq-ok (ltb g.max_body (L.size r.body)) _ _ h4 in
        let (single, h6) = reject_if-eq-ok (has_duplicate_keys (L.tokens r.body)) _ _ h5 in
        let (rpc, asked, h7) =
          >>=-eq-ok (or_refuse (then_some (L.decode r.body) request_of) _) _ h6 in
        let (j, parsed, read) =
          then_some-inv (L.decode r.body) request_of (or_refuse-inv _ _ asked) in
        record {
          up = up;
          c = c;
          found = or_refuse-inv _ _ at;
          verified = as_refusal-inv _ _ signed;
          active = is_ok_true-inv _ (ground (arith, live));
          document = j;
          decoded = parsed;
          unique = λ fit. unique-of r.body j parsed single fit;
          rpc = rpc;
          read = read;
          sent = dispatch-Sent g up c rpc r (request_event read_token up c) now random_hex h7;
        }
