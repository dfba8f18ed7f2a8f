-- ===== src/Mcpauth.antt =====
-- Resource indicators of internal/mcpauth/resource.go. `url.Parse`, `URL.String`, `URL.Hostname` and
-- `strings.ToLower` come from the interface of the platform.
use legant.Base.{
  String, ◌≡◌, refl, ◌↔◌, ◌≢◌, ◌⊎◌, Bool, true, false, not, ◌&&◌, ◌||◌, List, [], ◌∷◌, Option, none,
  some, arith, eq_iff, ◌==◌, string_eq, if◌then◌else◌,
}
use legant.Base.Affix.{has_suffix, trim_suffix}
use legant.World.{World, Url}

pub data ResourceError : Type 0 where
  required invalid_uri not_absolute has_fragment has_userinfo not_https : ResourceError

pub data Canonical : Type 0 where
  canonical : String → Canonical
  invalid : ResourceError → Canonical

unfoldable pub is_loopback : String → Bool
is_loopback host = host == "localhost" || host == "127.0.0.1" || host == "::1"

unfoldable pub strip_default_port : String → String → String
strip_default_port scheme host =
    if scheme == "https" && has_suffix host ":443"
    then trim_suffix host ":443"
    else if scheme == "http" && has_suffix host ":80"
    then trim_suffix host ":80"
    else host

abbrev given {ℓ} : {A : Type ℓ} → Option A → Bool
given none = false
given (some a) = true

module _ ⦃W : World⦄ where
  -- The URL that `CanonicalizeResource` writes back.
  abbrev canonical_url : Url → Url
  canonical_url u =
      let scheme = W.to_lower u.scheme in
      record u {
        scheme = scheme;
        host = strip_default_port scheme (W.to_lower u.host);
        path = if u.path == "" then "/" else u.path;
      }

  -- The checks and rewrites behind `url.Parse`.
  unfoldable pub canonicalize_url : Url → Canonical
  canonicalize_url u =
      let scheme = W.to_lower u.scheme in
      if u.scheme == "" || u.host == ""
      then invalid not_absolute
      else if not (u.fragment == "")
      then invalid has_fragment
      else if given u.user
      then invalid has_userinfo
      else if not (scheme == "https") && not (scheme == "http" && is_loopback (W.hostname u))
      then invalid not_https
      else canonical (W.url_string (canonical_url u))

  abbrev canonicalize_parsed : Option Url → Canonical
  canonicalize_parsed none = invalid invalid_uri
  canonicalize_parsed (some u) = canonicalize_url u

  unfoldable pub canonicalize_resource : String → Canonical
  canonicalize_resource raw =
      if raw == "" then invalid required else canonicalize_parsed (W.url_parse raw)

  abbrev same_canonical : Canonical → Canonical → Bool
  same_canonical (canonical r) (canonical a) = r == a
  same_canonical _ _ = false

  unfoldable pub resource_matches : String → String → Bool
  resource_matches requested allowed =
      same_canonical (canonicalize_resource requested) (canonicalize_resource allowed)

  same_canonical-inv :
      (r a : Canonical)
      → same_canonical r a ≡ true
      → (c : String) × (r ≡ canonical c) × (a ≡ canonical c)
  same_canonical-inv (canonical r) (canonical a) h = (r, refl, ground (arith, eq_iff r a))
  same_canonical-inv (canonical r) (invalid e) h = absurd (ground arith)
  same_canonical-inv (invalid e) (canonical a) h = absurd (ground arith)
  same_canonical-inv (invalid e) (invalid e') h = absurd (ground arith)

  -- Two resources match exactly when both canonicalize, and to one text: a resource that does not
  -- canonicalize matches nothing, itself included.
  pub resource_matches_iff :
      (requested allowed : String)
      → (resource_matches requested allowed ≡ true) ↔ (
          (c : String) × (canonicalize_resource requested ≡ canonical c)
          × (canonicalize_resource allowed ≡ canonical c))
  unfolding resource_matches
  resource_matches_iff requested allowed = (
    same_canonical-inv (canonicalize_resource requested) (canonicalize_resource allowed),
    λ r. ground (arith, r.1, r.2, eq_iff r.0 r.0),
  )

  -- What RFC 8707 and the issuer ask of a resource URI.
  pub record IsAcceptable (u : Url) : Type 0 where
    pub absolute : (u.scheme ≢ "") × (u.host ≢ "")
    pub no_fragment : u.fragment ≡ ""
    pub no_userinfo : u.user ≡ none
    pub secure :
        (W.to_lower u.scheme ≡ "https")
        ⊎ ((W.to_lower u.scheme ≡ "http") × (is_loopback (W.hostname u) ≡ true))

  canonicalize_url-IsAcceptable :
      (u : Url) (c : String) → canonicalize_url u ≡ canonical c → IsAcceptable u
  unfolding canonicalize_url
  canonicalize_url-IsAcceptable u c h = ground (
    arith,
    eq_iff u.scheme "",
    eq_iff u.host "",
    eq_iff u.fragment "",
    eq_iff (W.to_lower u.scheme) "https",
    eq_iff (W.to_lower u.scheme) "http",
  )

  parsed-IsAcceptable :
      (p : Option Url) (c : String)
      → canonicalize_parsed p ≡ canonical c
      → (u : Url) × (p ≡ some u) × IsAcceptable u
  parsed-IsAcceptable none c h = absurd (ground arith)
  parsed-IsAcceptable (some u) c h = (u, refl, canonicalize_url-IsAcceptable u c h)

  pub canonicalize_resource-IsAcceptable :
      (raw c : String)
      → canonicalize_resource raw ≡ canonical c
      → (u : Url) × (W.url_parse raw ≡ some u) × IsAcceptable u
  unfolding canonicalize_resource
  canonicalize_resource-IsAcceptable raw c h =
      parsed-IsAcceptable (W.url_parse raw) c (ground arith)

  -- A canonical resource is the text of a URL.
  pub canonicalize_resource-text :
      (raw c : String) → canonicalize_resource raw ≡ canonical c → (u : Url) × (W.url_string u ≡ c)
  unfolding canonicalize_resource
  canonicalize_resource-text raw c h = parsed-text (W.url_parse raw) (ground arith)
    where
      parsed-text :
          (p : Option Url) → canonicalize_parsed p ≡ canonical c → (u : Url) × (W.url_string u ≡ c)
      parsed-text none e = absurd (ground arith)
      parsed-text (some u) e = (canonical_url u, unfold canonicalize_url in ground arith)

-- internal/mcpauth/metadata.go: the document that a resource publishes.
pub record ProtectedResourceMetadata : Type 0 where
  pub resource : String
  pub authorization_servers : List String
  pub bearer_methods_supported : List String

unfoldable pub protected_resource_metadata : String → String → ProtectedResourceMetadata
protected_resource_metadata resource_uri issuer_url = record {
  resource = resource_uri;
  authorization_servers = issuer_url ∷ [];
  bearer_methods_supported = "header" ∷ [];
}
