-- ===== src/Mcpgw.antt =====
-- internal/mcpgw: the registered upstreams of gateway.go and store.go, the set of revoked tokens that
-- a gateway keeps in memory, and the gateway itself. A Go map from slugs is a list of upstreams, whose
-- order is not used; a lock makes each operation one step.
pub mod Json
pub mod Decode
pub mod Upstreams
pub mod Call
pub mod Filtered
pub mod Narrowed
pub mod Guarded
pub mod Contained
pub mod Alias
use legant.Base.{
  ℕ, String, Bool, true, false, not, ◌&&◌, ◌||◌, List, [], ◌∷◌, Option, none, some, ◌==◌, string_eq,
  nat_eq, contains, keep, map, if◌then◌else◌,
}
use legant.Base.Result.{Result, ok, err, ◌>>=◌, ◌>>◌, reject_if}
use legant.World.{World}
use legant.Delegation.Jwt.{Jwt}
use legant.Database.{TokenRow, is_some}
use legant.Mcpauth.{ProtectedResourceMetadata, protected_resource_metadata}
use legant.Revocation.{is_active, feed_jtis}

pub record Upstream : Type 0 where
  pub slug : String
  pub inbound_audience : String
  pub url : String
  pub resource_id : String
  pub tool_scopes : List (String × String)

pub data GatewayError : Type 0 where
  no_inbound_audience duplicate_audience store_failed cache_not_loaded : GatewayError

unfoldable pub find_upstream : List Upstream → String → Option Upstream
find_upstream [] slug = none
find_upstream (u ∷ ups) slug = if u.slug == slug then some u else find_upstream ups slug

-- `m[u.Slug] = u`
unfoldable pub put : Upstream → List Upstream → List Upstream
put u [] = u ∷ []
put u (v ∷ ups) = let others = put u ups in if v.slug == u.slug then u ∷ ups else v ∷ others

abbrev pub audience_of : Upstream → String
audience_of u = u.inbound_audience

-- The loop of `buildUpstreamMap`.
unfoldable pub build_from :
    List Upstream → List String → List Upstream → Result GatewayError (List Upstream)
build_from [] seen m = ok m
build_from (u ∷ ups) seen m = do
  reject_if (u.inbound_audience == "") no_inbound_audience
  reject_if (contains seen u.inbound_audience) duplicate_audience
  build_from ups (u.inbound_audience ∷ seen) (put u m)

unfoldable pub build_upstream_map : List Upstream → Result GatewayError (List Upstream)
build_upstream_map ups = build_from ups [] []

unfoldable pub collides : Upstream → List String → List Upstream → Bool
collides u seen m =
    u.inbound_audience == "" || is_some (find_upstream m u.slug) || contains seen u.inbound_audience

-- The loop of `RefreshUpstreams` over the registered upstreams.
unfoldable pub merge : List Upstream → List String → List Upstream → List Upstream
merge [] seen m = m
merge (u ∷ ups) seen m = elim (collides u seen m) [
  | true ↦ merge ups seen m
  | false ↦ merge ups (u.inbound_audience ∷ seen) (put u m)
]

-- internal/mcpgw/store.go: the table gateway_upstreams in the order of its slugs, which is the
-- database's collation.
module _ (precedes : String → String → Bool) where
  unfoldable pub upsert : Upstream → List Upstream → List Upstream
  upsert u [] = u ∷ []
  upsert u (v ∷ rows) =
      let others = upsert u rows in
      if v.slug == u.slug
      then u ∷ rows
      else if precedes u.slug v.slug
      then u ∷ v ∷ rows
      else v ∷ others

abbrev pub other_slug : String → Upstream → Bool
other_slug slug u = not (u.slug == slug)

unfoldable pub delete : String → List Upstream → List Upstream × Bool
delete slug rows = (keep (other_slug slug) rows, is_some (find_upstream rows slug))

-- `revokedCache`
pub record RevokedCache : Type 0 where
  pub set : List String
  pub loaded : Bool

module _ ⦃W : World⦄ ⦃J : Jwt⦄ where
  -- `revoked` is `none` unless the gateway is in feed mode.
  pub record Gateway : Type 0 where
    pub issuer : String
    pub active_kid : String
    pub active_signer : J.PrivateKey
    pub verifier_keys : String → Option J.PublicKey
    pub upstreams : List Upstream
    pub static_upstreams : List Upstream
    pub downstream_ttl : ℕ
    pub max_body : ℕ
    pub revoked : Option RevokedCache

  abbrev cache_for : ℕ → Option RevokedCache
  cache_for refresh = if refresh == 0 then none else some (record { set = []; loaded = false })

  -- `NewGateway` with its options: durations that are not positive count as 0. A time to live of 0 keeps the minute, in nanoseconds, and an
  -- interval of 0 consults the store.
  unfoldable pub new_gateway :
      String
      → String
      → J.PrivateKey
      → (String → Option J.PublicKey)
      → List Upstream
      → ℕ
      → ℕ
      → Result GatewayError Gateway
  new_gateway issuer kid key keys ups ttl refresh = do
    m ← build_upstream_map ups
    ok (record {
      issuer = issuer;
      active_kid = kid;
      active_signer = key;
      verifier_keys = keys;
      upstreams = m;
      static_upstreams = ups;
      downstream_ttl = if ttl == 0 then 60000000000 else ttl;
      max_body = 1048576;
      revoked = cache_for refresh;
    })

  abbrev listed : Option (List Upstream) → Result GatewayError (List Upstream)
  listed none = err store_failed
  listed (some rows) = ok rows

  -- The registered upstreams are `none` where the store cannot be read.
  unfoldable pub refresh_upstreams : Gateway → Option (List Upstream) → Result GatewayError Gateway
  refresh_upstreams g registered = do
    rows ← listed registered
    merged ← build_upstream_map g.static_upstreams
    ok (record g { upstreams = merge rows (map audience_of merged) merged })

  -- The table of minted tokens is `none` where the store cannot be read.
  abbrev stored : Option (List TokenRow) → ℕ → String → Result GatewayError Bool
  stored none now jti = err store_failed
  stored (some tokens) now jti = ok (is_active tokens now jti)

  abbrev cached :
      Option RevokedCache → Option (List TokenRow) → ℕ → String → Result GatewayError Bool
  cached none db now jti = stored db now jti
  cached (some c) db now jti =
      if not c.loaded then err cache_not_loaded else ok (not (contains c.set jti))

  unfoldable pub token_active :
      Gateway → Option (List TokenRow) → ℕ → String → Result GatewayError Bool
  token_active g db now jti = cached g.revoked db now jti

  abbrev swapped : Option RevokedCache → List String → Option RevokedCache
  swapped none set = none
  swapped (some c) set = some (record { set = set; loaded = true })

  unfoldable pub refresh_revoked :
      Gateway → Option (List TokenRow) → ℕ → Result GatewayError Gateway
  refresh_revoked g none now = err store_failed
  refresh_revoked g (some tokens) now =
      ok (record g { revoked = swapped g.revoked (feed_jtis tokens now) })

  -- `none` is 404.
  unfoldable pub metadata : Gateway → String → Option ProtectedResourceMetadata
  metadata g slug = elim (find_upstream g.upstreams slug) [
    | none ↦ none
    | some up ↦ some (protected_resource_metadata up.resource_id g.issuer)
  ]
