-- ===== src/Mcpgw/Decode.antt =====
-- How `json.Unmarshal` of encoding/json reads the request and a tool of internal/mcpgw/gateway.go:
-- `jsonRPCRequest` and the `name` of a tool. A key stands for a field if it is the field's name, up
-- to letter case; the last such key wins, `null` leaves the field as it is, and another kind of value
-- is an error.
use legant.Base.{
  ℕ, String, ◌≡◌, Bool, true, false, ◌||◌, List, Option, none, some, ◌==◌, string_eq, if◌then◌else◌,
}
use legant.Mcpgw.Json.{
  Json, null, text, object, Members, no_members, member, JsonToken, tokens_of, names,
}

-- encoding/json: the bytes of a document, its token stream, the whole document, its marshalling, and
-- the folding of letter case.
pub record JsonLib : Type 1 where
  pub Body : Type 0
  pub size : Body → ℕ
  pub tokens : Body → List JsonToken
  pub decode : Body → Option Json
  pub encode : Json → Body
  pub fold : String → String
  -- Which numbers are in the range of float64.
  pub fits : String → Bool
  -- Both readers read one document; only `Decoder.Token` reads its numbers.
  pub tokens-decode : (b : Body) (j : Json) → decode b ≡ some j → tokens b ≡ tokens_of fits j
  pub decode-encode : (j : Json) → decode (encode j) ≡ some j

pub record RpcRequest : Type 0 where
  pub method : String
  pub tool : String

abbrev pub no_request : RpcRequest
no_request = record { method = ""; tool = "" }

abbrev pub then_some : {A B : Type 0} → Option A → (A → Option B) → Option B
then_some none next = none
then_some (some a) next = next a

abbrev pub text_value : String → Json → Option String
text_value old null = some old
text_value old (text s) = some s
text_value old _ = none

abbrev pub with_method : RpcRequest → String → Option RpcRequest
with_method r m = some (record r { method = m })

abbrev pub with_tool : RpcRequest → String → Option RpcRequest
with_tool r t = some (record r { tool = t })

module _ ⦃L : JsonLib⦄ where
  abbrev pub is_field : String → String → Bool
  is_field k field = k == field || L.fold k == L.fold field

  -- The `name` of a struct that has no other field.
  unfoldable pub set_name : String → Members → Option String
  set_name old no_members = some old
  set_name old (member k j ms) =
      then_some (if is_field k "name" then text_value old j else some old) (λ s. set_name s ms)

  unfoldable pub name_value : String → Json → Option String
  name_value old null = some old
  name_value old (object ms) = set_name old ms
  name_value old _ = none

  unfoldable pub set_request : RpcRequest → Members → Option RpcRequest
  set_request r no_members = some r
  set_request r (member k j ms) =
      then_some
        (if is_field k "method"
          then then_some (text_value r.method j) (with_method r)
          else if is_field k "params"
          then then_some (name_value r.tool j) (with_tool r)
          else some r)
        (λ q. set_request q ms)

  unfoldable pub request_of : Json → Option RpcRequest
  request_of null = some no_request
  request_of (object ms) = set_request no_request ms
  request_of _ = none

-- A `map[string]json.RawMessage`: the last of the members with a key.
abbrev pub or_here : Option Json → Bool → Json → Option Json
or_here (some later) here j = some later
or_here none true j = some j
or_here none false j = none

unfoldable pub get : Members → String → Option Json
get no_members k = none
get (member k' j ms) k = or_here (get ms k) (k' == k) j

-- The members of that map, each key once.
unfoldable pub to_map : Members → Members
to_map no_members = no_members
to_map (member k j ms) = let others = to_map ms in if names ms k then others else member k j others

unfoldable pub remove : String → Members → Members
remove k no_members = no_members
remove k (member k' j ms) =
    let others = remove k ms in if k' == k then others else member k' j others

-- `m[k] = j`; a map has no order.
abbrev pub put_member : String → Json → Members → Members
put_member k j ms = member k j (remove k ms)
