-- ===== src/Mcpgw/Contained.antt =====
-- A tool call through the gateway never carries more authority than the token it came with, and what
-- is answered passed the guards.
use mathlib.Core.Path.{subst}
use legant.Base.{
  Bool, if◌then◌else◌, ℕ, ◌≤◌, ◌+◌, ltb, String, ◌≡◌, refl, sym, ap, ◌∙◌, true, false, ◌&&◌, List,
  [], ◌∷◌, Option, none, some, arith, eq_iff, ◌==◌, string_eq, contains, Bool-cases, ◌⊎◌, inl, inr,
}
use legant.Base.Affix.{has_prefix, cut_prefix}
use legant.Base.Result.{Result, ok, err}
use legant.World.{World}
use legant.Delegation.Constraints.{Constraints, Action}
use legant.Delegation.Jwt.{DelegationClaims, Jwt}
use legant.Delegation.Token.{verify, authorize, actor_chain}
use legant.Database.{TokenRow}
use legant.Mcpgw.{Upstream, Gateway}
use legant.Mcpgw.Json.{Json}
use legant.Mcpgw.Decode.{JsonLib}
use legant.Mcpgw.Upstreams.{verify-Accepted}
use legant.Mcpgw.Narrowed.{
  downstream, downstream-narrow, downstream_expiry-le, anywhere, ResourceListed, authorize-anywhere,
}
use legant.Mcpgw.Filtered.{lists, offered, filter_tools_list_lem}
use legant.Mcpgw.Guarded.{ToolCall, Guarded, prepare-Guarded}
use legant.Mcpgw.Call.{
  Refusal, Event, bearer, is_passthrough, scope_for, may_call, Request, Prepared, Forwarded,
  UpstreamResponse, downstream_constraints, AuditEntry, Outcome, refused, proxied, verifier_of,
  audited, filter_tools_list, prepare, finish, handle, finished, filtered,
}

not_let_through : is_passthrough "tools/call" ≡ false
unfolding is_passthrough has_prefix cut_prefix contains
not_let_through = refl

module _ ⦃W : World⦄ ⦃L : JsonLib⦄ ⦃J : Jwt⦄ (read_token : String → J.Token) where
  -- The token that goes out with a tool call, against the claims that came in.
  pub record Contained (g : Gateway) (now : ℕ) (r : Request) (p : Prepared) : Type 0 where
    pub up : Upstream
    pub c : DelegationClaims
    pub verified :
        verify (verifier_of g) now (read_token (bearer r.authorization)) up.inbound_audience ≡ ok c
    pub scope : String
    pub mapped : scope_for up.tool_scopes p.tool ≡ some scope
    pub d : DelegationClaims
    pub signed : J.sign g.active_kid g.active_signer d ≡ some p.request.token
    pub same_subject : d.subject ≡ c.subject
    pub same_actors : d.act ≡ c.act
    pub for_upstream : d.audience ≡ up.resource_id ∷ []
    pub no_longer :
        (e : ℕ) × (f : ℕ) × (c.expires_at ≡ some e)
        × (d.expires_at ≡ some f)
        × (f ≤ e)
        × (f ≤ now + g.downstream_ttl)
    pub narrow :
        (at : ℕ) (a : Action)
        → authorize at d a ≡ none
        → (a.scope ≡ scope)
          × ((k : Constraints)
              → c.constraints ≡ some k
              → (a.tool_name ≡ p.tool) ⊎ (a.tool_name ≡ ""))
          × (authorize at c (anywhere a) ≡ none)
          × (ResourceListed c a → authorize at c a ≡ none)

  ToolCall-Contained :
      (g : Gateway) (now : ℕ) (r : Request) (p : Prepared) (up : Upstream) (c : DelegationClaims)
      → verify (verifier_of g) now (read_token (bearer r.authorization)) up.inbound_audience ≡ ok c
      → p.upstream ≡ up
      → p.claims ≡ c
      → ToolCall g now p
      → Contained g now r p
  ToolCall-Contained g now r p up c v u k t =
      let (e, expires, _) =
        (verify-Accepted (verifier_of g) now (read_token (bearer r.authorization))
          up.inbound_audience v).unexpired in
      let same : p.claims.expires_at ≡ some e =
        ap (λ (x : DelegationClaims). x.expires_at) k ∙ expires in
      let shorter = downstream_expiry-le g p.claims now e same in
      record {
        up = p.upstream;
        c = p.claims;
        verified =
            subst
              (λ (w : Upstream).
                verify (verifier_of g) now (read_token (bearer r.authorization)) w.inbound_audience
                ≡ ok p.claims)
              (sym u) (v ∙ ap ok (sym k));
        scope = t.scope;
        mapped = t.mapped;
        d =
            downstream g p.claims (t.scope ∷ []) p.upstream.resource_id
              (downstream_constraints p.claims.constraints p.tool) now t.jti;
        signed = t.signed;
        same_subject = refl;
        same_actors = refl;
        for_upstream = refl;
        no_longer = (e, _, same, refl, shorter.0, shorter.1);
        narrow = λ at a h.
            let (scoped, one, inner) =
              downstream-narrow g p.claims t.scope p.tool p.upstream.resource_id now at t.jti a
                t.authorized h in
            (scoped, one, inner, authorize-anywhere at p.claims a inner);
      }

  pub prepare-Contained :
      (g : Gateway) (db : Option (List TokenRow)) (now : ℕ) (r : Request)
      (random_hex : Option String) {p : Prepared}
      → prepare read_token g db now r random_hex ≡ ok p
      → p.method ≡ "tools/call"
      → Contained g now r p
  prepare-Contained g db now r random_hex {p} h called =
      let guarded = prepare-Guarded read_token g db now r random_hex h in
      let s = guarded.sent in
      elim s.kind [
        | inl call ↦
            ToolCall-Contained g now r p guarded.up guarded.c guarded.verified s.upstream_same
              s.claims_same call.2
        | inr other ↦ absurd (elim other.known [
          | inl listing ↦ differ (sym called ∙ listing)
          | inr through ↦ unlike (sym through ∙ ap is_passthrough called ∙ not_let_through)
        ])
      ]
    where
      differ : ◌≡◌ {A = String} "tools/call" "tools/list" → ⊥
      differ e = ground (arith, (eq_iff "tools/call" "tools/list").1 e)

      unlike : true ≡ false → ⊥
      unlike e = cc e

  -- What a client is answered with.
  pub record Answered (writes : AuditEntry → Bool) (g : Gateway) (db : Option (List TokenRow))
      (now : ℕ) (r : Request) (upstream : Forwarded → Option UpstreamResponse)
      (entry : Option AuditEntry) (resp : UpstreamResponse) : Type 0 where
    pub p : Prepared
    pub guarded : Guarded read_token g db now r p
    pub original : UpstreamResponse
    pub called : upstream p.request ≡ some original
    pub attempted : AuditEntry
    pub attributed :
        (attempted.on_behalf_of_sub ≡ p.claims.subject)
        × (attempted.actor_chain ≡ actor_chain p.claims.act)
        × (attempted.grant_jti ≡ p.claims.id)
    pub logged_if_written : entry ≡ (if writes attempted then some attempted else none)
    pub body_same : (p.method == "tools/list") ≡ false → resp.body ≡ original.body
    pub filtered_list :
        (p.method == "tools/list") ≡ true
        → (j : Json) → L.decode original.body ≡ some j
        → (j' : Json) × (L.decode resp.body ≡ some j')
          × ((n : String)
              → lists n (offered j') ≡ (lists n (offered j) && may_call now p.upstream p.claims n))

  same_entry :
      {e e' : Option AuditEntry} {x x' : UpstreamResponse} {v v' : Option Event}
      → ◌≡◌ {A = Outcome} (proxied e x v) (proxied e' x' v')
      → (e ≡ e') × (x ≡ x')
  same_entry h = (cc h, cc h)

  not_proxied :
      {A : Type 0} {f : Refusal} {e : Option AuditEntry} {x : UpstreamResponse} {v : Option Event}
      → ◌≡◌ {A = Outcome} (refused f) (proxied e x v)
      → A
  not_proxied h = absurd (cc h)

  finish-Answered :
      (writes : AuditEntry → Bool) (g : Gateway) (db : Option (List TokenRow)) (now : ℕ)
      (r : Request) (upstream : Forwarded → Option UpstreamResponse) (p : Prepared)
      (o : Option UpstreamResponse) {entry : Option AuditEntry} {resp : UpstreamResponse}
      {event : Option Event}
      → Guarded read_token g db now r p
      → upstream p.request ≡ o
      → finish read_token writes g now p o ≡ proxied entry resp event
      → Answered writes g db now r upstream entry resp
  unfolding finish
  finish-Answered writes g db now r upstream p none gd e h = not_proxied h
  finish-Answered writes g db now r upstream p (some x) {entry} {resp} {event} gd e h =
      elim (Bool-cases (p.method == "tools/list")) [
        | inl listing ↦ elim (Bool-cases (ltb g.max_body (L.size x.body))) [
          | inl big ↦ not_proxied (rw (listing, big) at h)
          | inr fits ↦
              from_list listing (filter_tools_list now p.upstream p.claims x.body) refl
                (rw (listing, fits) at h)
        ]
        | inr other ↦
            let (same, answer) = same_entry (rw other at h) in
            record {
              p = p;
              guarded = gd;
              original = x;
              called = e;
              attempted = audited read_token p x.status;
              attributed = (refl, refl, refl);
              logged_if_written = rw other (sym same);
              body_same = λ _. ap (λ (y : UpstreamResponse). y.body) (sym answer);
              filtered_list = λ k. absurd (clash (sym k ∙ other));
            }
      ]
    where
      clash : true ≡ false → ⊥
      clash k = cc k

      from_list :
          (p.method == "tools/list") ≡ true
          → (f : Option L.Body) → filter_tools_list now p.upstream p.claims x.body ≡ f
          → filtered read_token writes p x f ≡ proxied entry resp event
          → Answered writes g db now r upstream entry resp
      from_list listing none q k = not_proxied k
      from_list listing (some out) q k =
          let (same, answer) = same_entry k in
          let body : out ≡ resp.body = ap (λ (y : UpstreamResponse). y.body) answer in
          record {
            p = p;
            guarded = gd;
            original = x;
            called = e;
            attempted = audited read_token p x.status;
            attributed = (refl, refl, refl);
            logged_if_written = sym same;
            body_same = λ n. absurd (clash (sym listing ∙ n));
            filtered_list = λ _ j d.
                filter_tools_list_lem now p.upstream p.claims x.body resp.body j d
                  (q ∙ ap some body);
          }

  pub handle-Answered :
      (writes : AuditEntry → Bool) (g : Gateway) (db : Option (List TokenRow)) (now : ℕ)
      (r : Request) (random_hex : Option String) (upstream : Forwarded → Option UpstreamResponse)
      {entry : Option AuditEntry} {resp : UpstreamResponse} {event : Option Event}
      → handle read_token writes g db now r random_hex upstream ≡ proxied entry resp event
      → Answered writes g db now r upstream entry resp
  unfolding handle
  handle-Answered writes g db now r random_hex upstream {entry} {resp} {event} h =
      from (prepare read_token g db now r random_hex) refl h
    where
      from :
          (m : Result Refusal Prepared)
          → prepare read_token g db now r random_hex ≡ m
          → finished read_token writes g now upstream m ≡ proxied entry resp event
          → Answered writes g db now r upstream entry resp
      from (err x) e k = not_proxied k
      from (ok p) e k =
          finish-Answered writes g db now r upstream p (upstream p.request)
            (prepare-Guarded read_token g db now r random_hex e) refl k
