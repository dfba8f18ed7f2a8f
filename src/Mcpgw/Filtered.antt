-- ===== src/Mcpgw/Filtered.antt =====
-- What `filterToolsList` leaves of a tools/list response.
use mathlib.Core.Path.{subst}
use mathlib.Core.Option.{some-injective}
use legant.Base.{
  ℕ, String, ◌≡◌, refl, sym, ap, ◌∙◌, Bool, true, false, ◌&&◌, ◌||◌, Option, none, some, arith,
  eq_iff, ◌==◌, string_eq, Bool-cases, inl, inr, if◌then◌else◌,
}
use legant.World.{World}
use legant.Delegation.Jwt.{DelegationClaims}
use legant.Mcpgw.{Upstream}
use legant.Mcpgw.Json.{Json, array, object, Items, no_items, item, Members, no_members, member}
use legant.Mcpgw.Decode.{JsonLib, name_value, then_some, get, to_map, remove, put_member}
use legant.Mcpgw.Call.{
  may_call, keep_tools, map_value, list_value, filter_tools_list, filter_tools, filter_result,
  listed_tool,
}

key_refl : (k : String) → (k == k) ≡ true
key_refl k = (eq_iff k k).1 refl

get-remove_self : (k : String) (ms : Members) → get (remove k ms) k ≡ none
unfolding get remove
get-remove_self k no_members = refl
get-remove_self k (member x j ms) = elim (Bool-cases (x == k)) [
  | inl same ↦ rw same (get-remove_self k ms)
  | inr other ↦ rw other (rw (get-remove_self k ms, other) refl)
]

get-put : (k : String) (j : Json) (ms : Members) → get (put_member k j ms) k ≡ some j
unfolding get
get-put k j ms = rw (get-remove_self k ms, key_refl k) refl

module _ ⦃W : World⦄ ⦃L : JsonLib⦄ where
  abbrev is_named : String → Option String → Bool
  is_named n none = false
  is_named n (some m) = m == n

  -- Some tool of the list has the name.
  unfoldable pub lists : String → Items → Bool
  lists n no_items = false
  lists n (item t ts) = is_named n (name_value "" t) || lists n ts

  abbrev tools_in : Option Json → Items
  tools_in none = no_items
  tools_in (some j) = elim (list_value j) [ none ↦ no_items | some ts ↦ ts ]

  abbrev result_in : Option Json → Items
  result_in none = no_items
  result_in (some j) = elim (map_value j) [ none ↦ no_items | some ms ↦ tools_in (get ms "tools") ]

  abbrev whole_in : Option Members → Items
  whole_in none = no_items
  whole_in (some ms) = result_in (get ms "result")

  -- The tools under `result` and `tools`.
  unfoldable pub offered : Json → Items
  offered j = whole_in (map_value j)

  lists-if :
      (n : String) (b : Bool) (t : Json) (ts : Items)
      → lists n (if b then item t ts else ts)
        ≡ (if b then is_named n (name_value "" t) || lists n ts else lists n ts)
  unfolding lists
  lists-if n true t ts = refl
  lists-if n false t ts = refl

  keep_step :
      (now : ℕ) (up : Upstream) (c : DelegationClaims) (n : String) (o : Option String)
      (kept all : Bool)
      → kept ≡ (all && may_call now up c n)
      → (if listed_tool now up c o then is_named n o || kept else kept)
        ≡ ((is_named n o || all) && may_call now up c n)
  keep_step now up c n none kept all h = h
  keep_step now up c n (some m) kept all h = ground (arith, h, eq_iff m n, same)
    where
      same : m ≡ n → may_call now up c m ≡ may_call now up c n
      same e = ap (may_call now up c) e

  lists-keep_tools :
      (now : ℕ) (up : Upstream) (c : DelegationClaims) (n : String) (ts : Items)
      → lists n (keep_tools now up c ts) ≡ (lists n ts && may_call now up c n)
  unfolding lists keep_tools
  lists-keep_tools now up c n no_items = refl
  lists-keep_tools now up c n (item t ts) =
      lists-if n (listed_tool now up c (name_value "" t)) t (keep_tools now up c ts)
      ∙ keep_step now up c n (name_value "" t) (lists n (keep_tools now up c ts)) (lists n ts)
          (lists-keep_tools now up c n ts)

  abbrev Filters : ℕ → Upstream → DelegationClaims → Items → L.Body → Type 0
  Filters now up c ts out =
      (j : Json) × (L.decode out ≡ some j)
      × ((n : String) → lists n (offered j) ≡ (lists n ts && may_call now up c n))

  nothing_listed :
      (now : ℕ) (up : Upstream) (c : DelegationClaims) (j : Json) (b out : L.Body)
      → L.decode b ≡ some j
      → offered j ≡ no_items
      → some b ≡ some out
      → Filters now up c no_items out
  unfolding lists
  nothing_listed now up c j b out d e h =
      subst (Filters now up c no_items) (some-injective _ _ h) (j, d, λ n. ap (lists n) e)

  encoded :
      (now : ℕ) (up : Upstream) (c : DelegationClaims) (ts : Items) (env result : Members)
      (out : L.Body)
      → some (
          L.encode (
            object (
              put_member "result"
                (object (put_member "tools" (array (keep_tools now up c ts)) (to_map result)))
                (to_map env))))
        ≡ some out
      → Filters now up c ts out
  unfolding offered
  encoded now up c ts env result out h =
      let tools : Members = put_member "tools" (array (keep_tools now up c ts)) (to_map result) in
      let whole : Members = put_member "result" (object tools) (to_map env) in
      let here : offered (object whole) ≡ keep_tools now up c ts =
        ap result_in (get-put "result" (object tools) (to_map env))
        ∙ ap tools_in (get-put "tools" (array (keep_tools now up c ts)) (to_map result)) in
      subst (Filters now up c ts) (some-injective _ _ h) (
        object whole,
        L.decode-encode (object whole),
        λ n. ap (lists n) here ∙ lists-keep_tools now up c n ts,
      )

  filter_tools-Filters :
      (now : ℕ) (up : Upstream) (c : DelegationClaims) (b : L.Body) (j : Json)
      (env result : Members) (o : Option Json) (out : L.Body)
      → L.decode b ≡ some j
      → offered j ≡ tools_in o
      → filter_tools now up c b env result o ≡ some out
      → Filters now up c (tools_in o) out
  filter_tools-Filters now up c b j env result none out d e h =
      nothing_listed now up c j b out d e h
  filter_tools-Filters now up c b j env result (some v) out d e h = from (list_value v) h
    where
      from :
          (l : Option Items)
          → then_some l (λ ts. some (
              L.encode (
                object (
                  put_member "result"
                    (object (put_member "tools" (array (keep_tools now up c ts)) (to_map result)))
                    (to_map env)))))
            ≡ some out
          → Filters now up c (elim l [ none ↦ no_items | some ts ↦ ts ]) out
      from none k = absurd (ground arith)
      from (some ts) k = encoded now up c ts env result out k

  filter_result-Filters :
      (now : ℕ) (up : Upstream) (c : DelegationClaims) (b : L.Body) (j : Json) (env : Members)
      (o : Option Json) (out : L.Body)
      → L.decode b ≡ some j
      → offered j ≡ result_in o
      → filter_result now up c b env o ≡ some out
      → Filters now up c (result_in o) out
  filter_result-Filters now up c b j env none out d e h = nothing_listed now up c j b out d e h
  filter_result-Filters now up c b j env (some v) out d e h = from (map_value v) refl e h
    where
      from :
          (l : Option Members)
          → map_value v ≡ l
          → offered j ≡ elim l [ none ↦ no_items | some ms ↦ tools_in (get ms "tools") ]
          → then_some l (λ result. filter_tools now up c b env result (get result "tools"))
            ≡ some out
          → Filters now up c (elim l [ none ↦ no_items | some ms ↦ tools_in (get ms "tools") ]) out
      from none m f k = absurd (ground arith)
      from (some ms) m f k = filter_tools-Filters now up c b j env ms (get ms "tools") out d f k

  pub filter_tools_list_lem :
      (now : ℕ) (up : Upstream) (c : DelegationClaims) (b out : L.Body) (j : Json)
      → L.decode b ≡ some j
      → filter_tools_list now up c b ≡ some out
      → (j' : Json) × (L.decode out ≡ some j')
        × ((n : String) → lists n (offered j') ≡ (lists n (offered j) && may_call now up c n))
  unfolding filter_tools_list
  filter_tools_list_lem now up c b out j d h = from (map_value j) refl (rw d at h)
    where
      from :
          (l : Option Members)
          → map_value j ≡ l
          → then_some l (λ env. filter_result now up c b env (get env "result")) ≡ some out
          → (j' : Json) × (L.decode out ≡ some j')
            × ((n : String) → lists n (offered j') ≡ (lists n (offered j) && may_call now up c n))
      from none m k = absurd (ground arith)
      from (some env) m k =
          let here : offered j ≡ result_in (get env "result") = unfold offered in ap whole_in m in
          subst (λ (ts : Items). Filters now up c ts out) (sym here)
            (filter_result-Filters now up c b j env (get env "result") out d here k)
