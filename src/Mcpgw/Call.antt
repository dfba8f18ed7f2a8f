-- ===== src/Mcpgw/Call.antt =====
-- internal/mcpgw/gateway.go: `handle` and `handleNonToolCall`, up to the request that the upstream is
-- sent (`prepare`) and from its response on (`finish`). The `time.Now()` of a request is one instant,
-- and a time to live is a duration that is not negative. The metrics are left out; an event is
-- what the deferred function publishes.
use legant.Base.{
  ℕ, ◌+◌, ltb, String, Bool, true, false, not, ◌&&◌, ◌||◌, List, [], ◌∷◌, Option, none, some, ◌==◌,
  string_eq, contains, if◌then◌else◌,
}
use legant.Base.Affix.{has_prefix, cut_prefix}
use legant.Base.Text.{fields, join}
use legant.Base.Result.{Result, ok, err, ◌>>=◌, ◌>>◌, reject_if}
use legant.World.{World}
use legant.Delegation.Constraints.{Constraints, Action}
use legant.Delegation.Jwt.{DelegationClaims, Jwt}
use legant.Delegation.Token.{
  Signer, Verifier, TokenError, verify, authorize, issue_claims, actor_chain, provenance,
}
use legant.Database.{TokenRow, is_some}
use legant.Mcpgw.{Upstream, find_upstream, Gateway, token_active}
use legant.Mcpgw.Json.{
  Json, null, array, object, Items, no_items, item, Members, has_duplicate_keys,
}
use legant.Mcpgw.Decode.{
  JsonLib, RpcRequest, request_of, name_value, then_some, get, to_map, put_member,
}

pub data Decision : Type 0 where
  allow deny unauthorized failed : Decision

-- A decision on the live console; a refusal is not `allowed`.
pub record Event : Type 0 where
  pub allowed : Bool
  pub tool : String
  pub upstream : String
  pub actor : String
  pub provenance : String
  pub reason : String

pub record Refusal : Type 0 where
  pub status : ℕ
  pub decision : Decision
  pub event : Option Event

-- The guards of the deferred function.
unfoldable pub published : Decision → Event → Option Event
published failed e = none
published allow e =
    if e.provenance == "" || e.tool == "" then none else some (record e { allowed = true })
published _ e = if e.provenance == "" then none else some (record e { allowed = false })

abbrev pub refuse : ℕ → Decision → Event → Refusal
refuse status decision e = record {
  status = status;
  decision = decision;
  event = published decision e;
}

abbrev pub nothing_known : Upstream → Event
nothing_known up = record {
  allowed = false;
  tool = "";
  upstream = up.slug;
  actor = "";
  provenance = "";
  reason = "";
}

abbrev pub head_or_blank : List String → String
head_or_blank [] = ""
head_or_blank (a ∷ l) = a

abbrev pub or_refuse : {A : Type 0} → Option A → Refusal → Result Refusal A
or_refuse none e = err e
or_refuse (some a) e = ok a

abbrev pub as_refusal : {E A : Type 0} → Refusal → Result E A → Result Refusal A
as_refusal e (ok a) = ok a
as_refusal e (err x) = err e

abbrev pub is_ok_true : {E : Type 0} → Result E Bool → Bool
is_ok_true (ok b) = b
is_ok_true (err e) = false

-- What is behind "Bearer ", "" where there is nothing.
unfoldable pub bearer : String → String
bearer header = elim (cut_prefix "Bearer " header) [ none ↦ "" | some token ↦ token ]

unfoldable pub is_passthrough : String → Bool
is_passthrough method =
    if has_prefix method "notifications/"
    then true
    else contains
        ("initialize" ∷ "ping" ∷ "prompts/list" ∷ "resources/list" ∷ "resources/templates/list"
          ∷ "logging/setLevel" ∷ [])
        method

-- A Go map from a tool's name to its scope.
unfoldable pub scope_for : List (String × String) → String → Option String
scope_for [] tool = none
scope_for (s ∷ scopes) tool = if s.0 == tool then some s.1 else scope_for scopes tool

-- The Accept header that the upstream is sent.
unfoldable pub accept_for : String → String → String
accept_for override client =
    if not (override == "")
    then override
    else if not (client == "")
    then client
    else "application/json, text/event-stream"

unfoldable pub hop_by_hop : List String
hop_by_hop =
    "connection" ∷ "proxy-connection" ∷ "keep-alive" ∷ "transfer-encoding" ∷ "te" ∷ "trailer"
    ∷ "upgrade" ∷ "content-length" ∷ []

module _ ⦃W : World⦄ where
  unfoldable pub copy_response_headers : List (String × String) → List (String × String)
  copy_response_headers [] = []
  copy_response_headers (h ∷ headers) =
      let others = copy_response_headers headers in
      if contains hop_by_hop (W.to_lower h.0) then others else h ∷ others

  unfoldable pub downstream_constraints : Option Constraints → String → Option Constraints
  downstream_constraints none tool = none
  downstream_constraints (some k) tool = some (record k { tools = tool ∷ []; resources = [] })

  unfoldable pub discovery_constraints : Option Constraints → Option Constraints
  discovery_constraints none = none
  discovery_constraints (some k) = some (record k { resources = [] })

  abbrev pub tool_action : String → String → Action
  tool_action scope tool = record {
    scope = scope;
    amount = W.float_zero;
    category_of = "";
    tool_name = tool;
    resource_of = "";
    at = 0;
  }

  -- The tool has a scope at the upstream, and the claims authorize it.
  unfoldable pub may_call : ℕ → Upstream → DelegationClaims → String → Bool
  may_call now up c tool = elim (scope_for up.tool_scopes tool) [
    | none ↦ false
    | some scope ↦ not (is_some (authorize now c (tool_action scope tool)))
  ]

  abbrev pub no_later : ℕ → Option ℕ → ℕ
  no_later exp none = exp
  no_later exp (some e) = if ltb e exp then e else exp

  module _ ⦃L : JsonLib⦄ where
    -- The loop of `filterToolsList`.
    abbrev pub listed_tool : ℕ → Upstream → DelegationClaims → Option String → Bool
    listed_tool now up c none = false
    listed_tool now up c (some tool) = may_call now up c tool

    unfoldable pub keep_tools : ℕ → Upstream → DelegationClaims → Items → Items
    keep_tools now up c no_items = no_items
    keep_tools now up c (item t ts) =
        let kept = keep_tools now up c ts in
        if listed_tool now up c (name_value "" t) then item t kept else kept

    -- A `map[string]json.RawMessage`; `null` is the empty map.
    abbrev pub map_value : Json → Option Members
    map_value null = some Members.no_members
    map_value (object ms) = some ms
    map_value _ = none

    abbrev pub list_value : Json → Option Items
    list_value null = some no_items
    list_value (array ts) = some ts
    list_value _ = none

    abbrev pub filter_tools :
        ℕ → Upstream → DelegationClaims → L.Body → Members → Members → Option Json → Option L.Body
    filter_tools now up c body env result none = some body
    filter_tools now up c body env result (some j) = then_some (list_value j) (λ ts. some (
        L.encode (
          object (
            put_member "result"
              (object (put_member "tools" (array (keep_tools now up c ts)) (to_map result)))
              (to_map env)))))

    abbrev pub filter_result :
        ℕ → Upstream → DelegationClaims → L.Body → Members → Option Json → Option L.Body
    filter_result now up c body env none = some body
    filter_result now up c body env (some j) =
        then_some (map_value j)
          (λ result. filter_tools now up c body env result (get result "tools"))

    -- `none` is `ok == false`.
    unfoldable pub filter_tools_list : ℕ → Upstream → DelegationClaims → L.Body → Option L.Body
    filter_tools_list now up c body =
        then_some (L.decode body)
          (λ j. then_some (map_value j) (λ env. filter_result now up c body env (get env "result")))

    pub record Request : Type 0 where
      pub slug : String
      pub authorization : String
      pub accept : String
      pub session_id : String
      pub body : L.Body

    pub record UpstreamResponse : Type 0 where
      pub status : ℕ
      pub headers : List (String × String)
      pub body : L.Body

    module _ ⦃J : Jwt⦄ where
      -- What the upstream is sent.
      pub record Forwarded : Type 0 where
        pub url : String
        pub accept : String
        pub session_id : String
        pub token : J.Token
        pub body : L.Body

      -- What the guards found out, with the request to forward; `tool` is "" unless a tool is called.
      pub record Prepared : Type 0 where
        pub upstream : Upstream
        pub claims : DelegationClaims
        pub method : String
        pub tool : String
        pub event : Event
        pub request : Forwarded

      pub record AuditEntry : Type 0 where
        pub resource_id : String
        pub on_behalf_of_sub : String
        pub actor_chain : List String
        pub grant_jti : String
        pub upstream_status : ℕ

      -- The entry of a proxied call is the one that the audit log took, if it took it.
      pub data Outcome : Type 0 where
        refused : Refusal → Outcome
        proxied : Option AuditEntry → UpstreamResponse → Option Event → Outcome

      abbrev pub verifier_of : Gateway → Verifier
      verifier_of g = record { issuer = g.issuer; keys = g.verifier_keys }

      abbrev pub signer_of : Gateway → Signer
      signer_of g = record { issuer = g.issuer; kid = g.active_kid; key = g.active_signer }

      -- `now + ttl`, clamped to the expiry of the inbound token.
      abbrev pub downstream_expiry : Gateway → DelegationClaims → ℕ → ℕ
      downstream_expiry g c now = no_later (now + g.downstream_ttl) c.expires_at

      abbrev pub forward : Upstream → Request → J.Token → String → Forwarded
      forward up r token override = record {
        url = up.url;
        accept = accept_for override r.accept;
        session_id = r.session_id;
        token = token;
        body = r.body;
      }

      unfoldable pub mint :
          Gateway
          → DelegationClaims
          → List String
          → String
          → Option Constraints
          → ℕ
          → Option String
          → Result TokenError J.Token
      mint g c scopes aud k now random_hex =
          issue_claims (signer_of g) c.subject c.act scopes aud k (downstream_expiry g c now) now
            random_hex

      unfoldable pub prepare_tool_call :
          Gateway
          → Upstream
          → DelegationClaims
          → String
          → Request
          → Event
          → ℕ
          → Option String
          → Result Refusal Prepared
      prepare_tool_call g up c tool r e now random_hex = do
        let seen = record e { tool = tool }
        scope ←
            or_refuse (scope_for up.tool_scopes tool)
              (refuse 403 deny (record seen { reason = "tool not delegated" }))
        reject_if (is_some (authorize now c (tool_action scope tool)))
            (refuse 403 deny (record seen { reason = "forbidden (scope/constraint)" }))
        token ← as_refusal (refuse 500 failed seen) (
            mint g c (scope ∷ []) up.resource_id (downstream_constraints c.constraints tool) now
              random_hex)
        ok (record {
          upstream = up;
          claims = c;
          method = "tools/call";
          tool = tool;
          event = seen;
          request = forward up r token "";
        })

      unfoldable pub handle_non_tool_call :
          Gateway
          → Upstream
          → DelegationClaims
          → String
          → Request
          → Event
          → ℕ
          → Option String
          → Result Refusal Prepared
      handle_non_tool_call g up c method r e now random_hex = do
        reject_if (not (method == "tools/list") && not (is_passthrough method)) (refuse 403 deny e)
        token ← as_refusal (refuse 500 failed e) (
            mint g c (fields c.scope) up.resource_id (discovery_constraints c.constraints) now
              random_hex)
        ok (record {
          upstream = up;
          claims = c;
          method = method;
          tool = "";
          event = e;
          request = forward up r token (if method == "tools/list" then "application/json" else "");
        })

      abbrev pub dispatch :
          Gateway
          → Upstream
          → DelegationClaims
          → RpcRequest
          → Request
          → Event
          → ℕ
          → Option String
          → Result Refusal Prepared
      dispatch g up c rpc r e now random_hex =
          if rpc.method == "tools/call"
          then prepare_tool_call g up c rpc.tool r e now random_hex
          else handle_non_tool_call g up c rpc.method r e now random_hex

      -- The text of a bearer token is a token.
      module _ (read_token : String → J.Token) where
        abbrev pub request_event : Upstream → DelegationClaims → Event
        request_event up c = record (nothing_known up) {
          actor = head_or_blank (actor_chain c.act);
          provenance = provenance c;
        }

        unfoldable pub prepare :
            Gateway → Option (List TokenRow) → ℕ → Request → Option String → Result Refusal Prepared
        prepare g db now r random_hex = do
          up ←
              or_refuse (find_upstream g.upstreams r.slug)
                (record { status = 404; decision = failed; event = none })
          reject_if (bearer r.authorization == "") (refuse 401 unauthorized (nothing_known up))
          c ←
              as_refusal (refuse 401 unauthorized (nothing_known up)) (
                verify (verifier_of g) now (read_token (bearer r.authorization))
                  up.inbound_audience)
          let seen = request_event up c
          reject_if (not (is_ok_true (token_active g db now c.id)))
              (refuse 401 unauthorized (record seen { reason = "token revoked or unknown" }))
          reject_if (ltb g.max_body (L.size r.body)) (refuse 413 failed seen)
          reject_if (has_duplicate_keys (L.tokens r.body))
              (refuse 400 deny (record seen { reason = "duplicate JSON keys" }))
          rpc ← or_refuse (then_some (L.decode r.body) request_of) (refuse 400 failed seen)
          dispatch g up c rpc r seen now random_hex

        abbrev pub audited : Prepared → ℕ → AuditEntry
        audited p status = record {
          resource_id = join "/" (
              p.upstream.slug
              ∷ (if p.method == "tools/call"
                  then p.tool
                  else if p.method == "tools/list"
                  then p.method
                  else join ":" ("mcp" ∷ p.method ∷ []))
              ∷ []);
          on_behalf_of_sub = p.claims.subject;
          actor_chain = actor_chain p.claims.act;
          grant_jti = p.claims.id;
          upstream_status = status;
        }

        -- A write to the audit log that fails is only reported; `writes` says which succeed.
        module _ (writes : AuditEntry → Bool) where
          abbrev pub logged : AuditEntry → Option AuditEntry
          logged e = if writes e then some e else none

          abbrev pub streamed : Prepared → UpstreamResponse → L.Body → Outcome
          streamed p resp body =
              proxied (logged (audited p resp.status))
                (record resp { headers = copy_response_headers resp.headers; body = body })
                (published allow p.event)

          abbrev pub filtered : Prepared → UpstreamResponse → Option L.Body → Outcome
          filtered p resp none = refused (refuse 502 failed p.event)
          filtered p resp (some body) = streamed p resp body

          -- Nothing is known of a response that did not come.
          unfoldable pub finish : Gateway → ℕ → Prepared → Option UpstreamResponse → Outcome
          finish g now p none = refused (refuse 502 failed p.event)
          finish g now p (some resp) =
              if p.method == "tools/list"
              then (if ltb g.max_body (L.size resp.body)
                  then refused (refuse 502 failed p.event)
                  else filtered p resp (filter_tools_list now p.upstream p.claims resp.body))
              else streamed p resp resp.body

          abbrev pub finished :
              Gateway
              → ℕ
              → (Forwarded → Option UpstreamResponse)
              → Result Refusal Prepared
              → Outcome
          finished g now upstream (err e) = refused e
          finished g now upstream (ok p) = finish g now p (upstream p.request)

          -- `upstream` is the HTTP client.
          unfoldable pub handle :
              Gateway
              → Option (List TokenRow)
              → ℕ
              → Request
              → Option String
              → (Forwarded → Option UpstreamResponse)
              → Outcome
          handle g db now r random_hex upstream =
              finished g now upstream (prepare g db now r random_hex)
