-- ===== src/Sdk.antt =====
-- sdk/verifier.go: the offline verification and authorization at a resource server. Its `Claims`,
-- `Constraints`, `TimeWindow`, `Action` and `Actor` have the fields of the engine's types, which
-- stand for them; `time.Now()` is the argument `now`.
pub mod Feed
pub mod Verify
pub mod Laws
pub mod Accept
use mathlib.Core.List.{reverse}
use legant.Base.{
  ℕ, ◌+◌, ◌*◌, pos, leb_ℤ, String, Bool, true, false, not, ◌&&◌, ◌||◌, List, [], ◌∷◌, Option, none,
  some, ◌==◌, string_eq, int_eq, contains, is_empty, any, if◌then◌else◌,
}
use legant.Base.Affix.{has_suffix, trim_suffix}
use legant.Base.Text.{fields, join}
use legant.World.{World, Url}
use legant.Delegation.AllowList.{
  Dim, category, tool, resource, Denial, missing_scope, over_amount, restricted, not_allowed,
  outside_window, deny_all,
}
use legant.Delegation.Constraints.{TimeWindow, Constraints, Action, ◌orelse◌, instant_of}
use legant.Delegation.Jwt.{ActClaim, nobody, actor, DelegationClaims}

unfoldable pub scope_listed : String → String → Bool
scope_listed scope_str scope = contains (fields scope_str) scope

-- The loop that collects the actors, the most recent first.
unfoldable pub actors_of : ActClaim → List String
actors_of nobody = []
actors_of (actor sub act) = sub ∷ actors_of act

abbrev strip_port : String → String → String
strip_port scheme host =
    if scheme == "https" && has_suffix host ":443"
    then trim_suffix host ":443"
    else if scheme == "http" && has_suffix host ":80"
    then trim_suffix host ":80"
    else host

module _ ⦃W : World⦄ where
  abbrev audience_url : Url → Url
  audience_url u =
      let scheme = W.to_lower u.scheme in
      record u {
        scheme = scheme;
        host = strip_port scheme (W.to_lower u.host);
        user = none;
        fragment = "";
        path = if u.path == "" then "/" else u.path;
      }

  abbrev canonicalize_url : String → Option Url → String
  canonicalize_url raw none = raw
  canonicalize_url raw (some u) =
      if u.scheme == "" || u.host == "" then raw else W.url_string (audience_url u)

  unfoldable pub canonicalize_audience : String → String
  canonicalize_audience raw = canonicalize_url raw (W.url_parse raw)

  abbrev pub same_audience : String → String → Bool
  same_audience want a = canonicalize_audience a == want

  unfoldable pub audience_matches : List String → String → Bool
  audience_matches auds want = any (same_audience (canonicalize_audience want)) auds

  abbrev in_zone : TimeWindow → Option W.Location → ℕ → Bool
  in_zone w none at = false
  in_zone w (some loc) at =
      let m = pos (W.hour loc at * 60 + W.minute loc at) in
      if not (is_empty w.weekdays) && not (contains w.weekdays (pos (W.weekday loc at)))
      then false
      else leb_ℤ w.start_min m && leb_ℤ m w.end_min

  unfoldable pub window_allows : TimeWindow → ℕ → Bool
  window_allows w at = in_zone w (if w.tz == "" then some W.utc else W.load_location w.tz) at

  unfoldable pub permit_canonical : Dim → List String → String → Bool → Option Denial
  permit_canonical dim allowed value canonical =
      if is_empty allowed
      then none
      else if contains allowed deny_all
      then some (restricted dim)
      else if value == ""
      then none
      else if not (
          contains allowed value
          || (canonical && any (same_audience (canonicalize_audience value)) allowed))
      then some (not_allowed dim value)
      else none

  abbrev amount_denied : Option W.Float → W.Float → Option Denial
  amount_denied none a = none
  amount_denied (some m) a = if W.gt a m then some over_amount else none

  abbrev window_denied : Option TimeWindow → ℕ → Option Denial
  window_denied none at = none
  window_denied (some w) at = if not (window_allows w at) then some outside_window else none

  abbrev constraints_denied : ℕ → Option Constraints → Action → Option Denial
  constraints_denied now none a = none
  constraints_denied now (some k) a =
      amount_denied k.max_amount a.amount
      orelse permit_canonical category k.categories a.category_of false
      orelse permit_canonical tool k.tools a.tool_name false
      orelse permit_canonical resource k.resources a.resource_of true
      orelse window_denied k.time_window (instant_of now a.at)

  unfoldable pub authorize_claims : ℕ → DelegationClaims → Action → Option Denial
  authorize_claims now c a =
      if not (scope_listed c.scope a.scope)
      then some (missing_scope a.scope)
      else constraints_denied now c.constraints a

  unfoldable pub render_provenance : DelegationClaims → String
  render_provenance c = join " -> " (c.subject ∷ reverse (actors_of c.act))
