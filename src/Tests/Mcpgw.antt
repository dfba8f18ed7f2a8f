-- ===== src/Tests/Mcpgw.antt =====
-- Tests and instances for internal/mcpgw: the OCR agent calls a tool behind the gateway.
use mathlib.Core.Path.{ap}
use mathlib.Core.Option.{some-injective}
use legant.Base.{
  String, Bool, ◌≡◌, refl, ◌&&◌, true, false, not, [], ◌∷◌, Option, none, some, arith, eq_iff, ◌==◌,
  string_eq, if◌then◌else◌,
}
use legant.Base.Affix.{has_prefix, cut_prefix}
use legant.Base.Result.{ok}
use legant.Delegation.Jwt.{DelegationClaims}
use legant.Delegation.Token.{Verifier, provenance, issue_claims, verify}
use legant.Delegation.Token.RoundTrip.{minted}
use legant.Mcpgw.{
  Upstream, find_upstream, put, build_from, build_upstream_map, collides, merge, Gateway,
  refresh_upstreams, token_active,
}
use legant.Mcpgw.Json.{
  Json, text, object, array, no_members, member, no_items, item, tokens_of, numbers_fit, number,
  Members, names, unique_keys, scan_duplicate_keys, has_duplicate_keys,
}
use legant.Mcpgw.Json.Scanned.{has_duplicate_keys_lem, has_duplicate_keys-number}
use legant.Mcpgw.Decode.{
  JsonLib, set_name, name_value, set_request, request_of, get, to_map, remove,
}
use legant.Mcpgw.Upstreams.{IsIsolated, refresh_upstreams-IsIsolated, one_upstream}
use legant.Mcpgw.Call.{
  Request, Forwarded, Prepared, Event, UpstreamResponse, AuditEntry, proxied, published, bearer,
  is_passthrough, scope_for, accept_for, hop_by_hop, copy_response_headers, downstream_constraints,
  discovery_constraints, may_call, keep_tools, filter_tools_list, mint, prepare_tool_call,
  handle_non_tool_call, prepare, finish, handle,
}
use legant.Mcpgw.Filtered.{lists, offered, filter_tools_list_lem}
use legant.Mcpgw.Narrowed.{downstream}
use legant.Mcpgw.Contained.{Contained, Answered, prepare-Contained, handle-Answered}
use legant.Mcpgw.Alias.{aliased, exact_method, exact_tool, request_of-aliased}
use legant.Tests.Sample.{sample, sample_jwt, SampleToken}
use legant.Tests.Delegation.{issuer_key, api_verifier, passed_on, ocr_grant, ocr_token, engine}

-- A body is its document; NAME is the one other spelling of a key.
abbrev fold_case : String → String
fold_case k = if k == "NAME" then "name" else k

-- The one number of the samples that is out of range.
abbrev in_range : String → Bool
in_range s = not (s == "1e999")

instance abbrev sample_json : JsonLib
sample_json = record {
  Body = Json;
  size = λ j. 1;
  tokens = tokens_of in_range;
  decode = λ j. some j;
  encode = λ j. j;
  fold = fold_case;
  fits = in_range;
  tokens-decode = λ b j h. ap (tokens_of in_range) (some-injective _ _ h);
  decode-encode = λ j. refl;
}

unfoldable pub gateway_runs : Unit {0}
unfolding find_upstream put build_from build_upstream_map collides merge refresh_upstreams
    token_active tokens_of numbers_fit names unique_keys scan_duplicate_keys has_duplicate_keys
    set_name name_value set_request request_of get to_map remove published bearer is_passthrough
    scope_for accept_for hop_by_hop copy_response_headers downstream_constraints
    discovery_constraints may_call keep_tools filter_tools_list mint prepare_tool_call
    handle_non_tool_call prepare finish handle engine provenance issue_claims has_prefix cut_prefix
    lists offered exact_method exact_tool
gateway_runs = tt

abbrev expenses : Upstream
expenses = record {
  slug = "expenses";
  inbound_audience = "https://api/";
  url = "http://expenses:8080/mcp";
  resource_id = "https://expenses/";
  tool_scopes = ("submit", "expenses:submit") ∷ ("approve", "expenses:approve") ∷ [];
}

abbrev files : Upstream
files = record expenses { slug = "files"; inbound_audience = "https://files/"; tool_scopes = [] }

abbrev gateway : Gateway
gateway = record {
  issuer = "https://legant";
  active_kid = "k1";
  active_signer = 77;
  verifier_keys = api_verifier.keys;
  upstreams = expenses ∷ files ∷ [];
  static_upstreams = expenses ∷ [];
  downstream_ttl = 60;
  max_body = 1000;
  revoked = some (record { set = "j7" ∷ []; loaded = true });
}

abbrev read_token : String → SampleToken
read_token s = ocr_token

abbrev call_submit : Json
call_submit = object (
    member "method" (text "tools/call")
      (member "params" (object (member "name" (text "submit") no_members)) no_members))

abbrev request : Json → Request
request body = record {
  slug = "expenses";
  authorization = "Bearer t";
  accept = "";
  session_id = "";
  body = body;
}

abbrev ocr_claims : DelegationClaims
ocr_claims = minted issuer_key ocr_grant passed_on "https://api/" 10 "j1"

abbrev ocr_event : Event
ocr_event = record {
  allowed = false;
  tool = "submit";
  upstream = "expenses";
  actor = "agent:ocr";
  provenance = "user:alice -> agent:assistant -> agent:ocr";
  reason = "";
}

abbrev submit_prepared : Prepared
submit_prepared = record {
  upstream = expenses;
  claims = ocr_claims;
  method = "tools/call";
  tool = "submit";
  event = ocr_event;
  request = record {
    url = "http://expenses:8080/mcp";
    accept = "application/json, text/event-stream";
    session_id = "";
    token = record {
      kid = "k1";
      key = 77;
      claims =
          downstream gateway ocr_claims ("expenses:submit" ∷ []) "https://expenses/"
            (downstream_constraints ocr_claims.constraints "submit") 20 "g1";
    };
    body = call_submit;
  };
}

submit_is_prepared :
    prepare read_token gateway none 20 (request call_submit) (some "g1") ≡ ok submit_prepared
unfolding gateway_runs
submit_is_prepared = refl

prepare-Contained_example : Contained read_token gateway 20 (request call_submit) submit_prepared
prepare-Contained_example =
    prepare-Contained read_token gateway none 20 (request call_submit) (some "g1")
      submit_is_prepared refl

abbrev tool_named : String → Json
tool_named name = object (member "name" (text name) no_members)

abbrev catalog : Json
catalog = object (
    member "result"
      (object (
        member "tools" (array (item (tool_named "submit") (item (tool_named "approve") no_items)))
          no_members))
      no_members)

abbrev cut_down : Json
cut_down = object (
    member "result"
      (object (member "tools" (array (item (tool_named "submit") no_items)) no_members)) no_members)

filtered_catalog : filter_tools_list 20 expenses ocr_claims catalog ≡ some cut_down
unfolding gateway_runs
filtered_catalog = refl

filter_tools_list_lem_example :
    (j : Json) × (some cut_down ≡ some j)
    × ((n : String)
        → lists n (offered j) ≡ (lists n (offered catalog) && may_call 20 expenses ocr_claims n))
filter_tools_list_lem_example =
    filter_tools_list_lem 20 expenses ocr_claims catalog cut_down catalog refl filtered_catalog

abbrev list_tools : Json
list_tools = object (member "method" (text "tools/list") no_members)

abbrev serve_catalog : Forwarded → Option UpstreamResponse
serve_catalog f =
    some (record { status = 200; headers = ("Te", "x") ∷ ("X", "y") ∷ []; body = catalog })

abbrev served : UpstreamResponse
served = record { status = 200; headers = ("Te", "x") ∷ ("X", "y") ∷ []; body = cut_down }

abbrev listing_entry : AuditEntry
listing_entry = record {
  resource_id = "expenses/tools/list";
  on_behalf_of_sub = "user:alice";
  actor_chain = "agent:ocr" ∷ "agent:assistant" ∷ [];
  grant_jti = "j1";
  upstream_status = 200;
}

list_is_proxied :
    handle read_token (λ e. true) gateway none 20 (request list_tools) (some "g1") serve_catalog
    ≡ proxied (some listing_entry) served none
unfolding gateway_runs
list_is_proxied = refl

handle-Answered_example :
    Answered read_token
      (λ e. true)
      gateway
      none
      20
      (request list_tools)
      serve_catalog
      (some listing_entry)
      served
handle-Answered_example =
    handle-Answered read_token (λ e. true) gateway none 20 (request list_tools) (some "g1")
      serve_catalog list_is_proxied

-- The second registered upstream has the audience of the configured one, and is passed over.
refreshed :
    refresh_upstreams gateway (some (files ∷ record expenses { slug = "copy" } ∷ [])) ≡ ok gateway
unfolding gateway_runs
refreshed = refl

refresh_upstreams-IsIsolated_example : IsIsolated (expenses ∷ files ∷ [])
refresh_upstreams-IsIsolated_example =
    refresh_upstreams-IsIsolated gateway (some (files ∷ record expenses { slug = "copy" } ∷ []))
      refreshed

abbrev gateway_verifier : Verifier
gateway_verifier = record { issuer = "https://legant"; keys = api_verifier.keys }

expenses_verifies : verify gateway_verifier 20 ocr_token "https://api/" ≡ ok ocr_claims
unfolding gateway_runs
expenses_verifies = refl

two_apart : IsIsolated (expenses ∷ files ∷ [])
two_apart = (
  (
    λ e. ground (arith, e, eq_iff "https://api/" ""),
    (λ e. ground (arith, e, eq_iff "https://files/" ""), tt),
  ),
  ((λ e. ground (arith, e, eq_iff "https://files/" "https://api/"), tt), (tt, tt)),
)

one_upstream_example : expenses ≡ expenses
unfolding gateway_runs
one_upstream_example =
    one_upstream gateway gateway_verifier 20 ocr_token "expenses" "expenses" "https://api/"
      two_apart refl refl expenses_verifies expenses_verifies refl refl

has_duplicate_keys_lem_example :
    has_duplicate_keys (tokens_of in_range call_submit) ≡ not (unique_keys call_submit)
unfolding gateway_runs
has_duplicate_keys_lem_example = has_duplicate_keys_lem in_range call_submit refl

abbrev two_tools : Members
two_tools = member "name" (text "submit") (member "name" (text "approve") no_members)

has_duplicate_keys-number_example :
    has_duplicate_keys (tokens_of in_range (object (member "id" (number "1e999") two_tools)))
    ≡ false
has_duplicate_keys-number_example = has_duplicate_keys-number in_range "id" "1e999" two_tools refl

two_tools_repeat : unique_keys (object (member "id" (number "1e999") two_tools)) ≡ false
unfolding gateway_runs
two_tools_repeat = refl

request_of-aliased_example :
    (has_duplicate_keys (tokens_of in_range (aliased "NAME" "submit" "approve")) ≡ false)
    × (request_of (aliased "NAME" "submit" "approve")
        ≡ some (record { method = "tools/call"; tool = "submit" }))
    × (exact_tool (aliased "NAME" "submit" "approve") ≡ "approve")
request_of-aliased_example =
    request_of-aliased in_range "NAME" "submit" "approve"
      (λ e. ground (arith, e, eq_iff "NAME" "name")) refl
      (λ e. ground (arith, e, eq_iff "params" "method"))
