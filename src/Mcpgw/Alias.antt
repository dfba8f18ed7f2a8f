-- ===== src/Mcpgw/Alias.antt =====
-- Whether the gateway and an upstream that reads keys exactly take a request for the same call.
use legant.Base.{
  Bool, String, ◌≡◌, ◌≢◌, refl, ◌∙◌, true, false, Option, none, some, arith, eq_iff, ◌==◌,
  string_eq,
}
use legant.Mcpgw.Json.{
  Json, text, object, Members, no_members, member, names, unique_keys, has_duplicate_keys,
  tokens_of, numbers_fit,
}
use legant.Mcpgw.Json.Scanned.{has_duplicate_keys_lem}
use legant.Mcpgw.Decode.{JsonLib, request_of, set_request, set_name, name_value, is_field, get}

-- What a reader finds that takes a key only as it is written.
abbrev pub text_of : Option Json → String
text_of none = ""
text_of (some (text s)) = s
text_of (some _) = ""

abbrev pub members_of : Option Json → Members
members_of (some (object ms)) = ms
members_of _ = no_members

unfoldable pub exact_method : Json → String
exact_method j = text_of (get (members_of (some j)) "method")

unfoldable pub exact_tool : Json → String
exact_tool j = text_of (get (members_of (get (members_of (some j)) "params")) "name")

module _ ⦃L : JsonLib⦄ where
  -- The key of a tool's name, `k`, is another spelling of "name".
  abbrev pub aliased : String → String → String → Json
  aliased k delegated other = object (
      member "method" (text "tools/call") (
        member "params" (object (member "name" (text other) (member k (text delegated) no_members)))
          no_members))

  is_field-alias : (k f : String) → L.fold k ≡ L.fold f → is_field k f ≡ true
  is_field-alias k f e = ground (arith, (eq_iff (L.fold k) (L.fold f)).1 e)

  not_field : (k f : String) → (k == f) ≡ false → L.fold k ≢ L.fold f → is_field k f ≡ false
  not_field k f h ne = ground (arith, h, eq_iff (L.fold k) (L.fold f), ne)

  unlike : (k f : String) → k ≢ f → (k == f) ≡ false
  unlike k f ne = ground (arith, eq_iff k f, ne)

  set_name-aliased :
      (k delegated other : String)
      → L.fold k ≡ L.fold "name"
      → set_name "" (member "name" (text other) (member k (text delegated) no_members))
        ≡ some delegated
  unfolding set_name
  set_name-aliased k delegated other e = ground (arith, is_field-alias k "name" e)

  -- A request that spells the key of the tool's name in two ways passes the scan for duplicate keys;
  -- the gateway authorizes the tool under the last spelling, and a reader that takes keys as they are
  -- written finds the other tool.
  pub request_of-aliased :
      (fits : String → Bool) (k delegated other : String)
      → k ≢ "name"
      → L.fold k ≡ L.fold "name"
      → L.fold "params" ≢ L.fold "method"
      → (has_duplicate_keys (tokens_of fits (aliased k delegated other)) ≡ false)
        × (request_of (aliased k delegated other)
            ≡ some (record { method = "tools/call"; tool = delegated }))
        × (exact_tool (aliased k delegated other) ≡ other)
  unfolding request_of set_request exact_tool get name_value unique_keys names numbers_fit
  request_of-aliased fits k delegated other ne e apart = (
    has_duplicate_keys_lem fits (aliased k delegated other) refl
        ∙ ground (arith, unlike k "name" ne),
    ground (arith, not_field "params" "method" refl apart, set_name-aliased k delegated other e),
    rw (unlike k "name" ne) refl,
  )
