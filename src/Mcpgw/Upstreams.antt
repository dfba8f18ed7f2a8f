-- ===== src/Mcpgw/Upstreams.antt =====
-- The live upstreams of a gateway are isolated from one another: each has an audience of its own.
use mathlib.Core.Path.{subst}
use mathlib.Core.Option.{some-injective}
use legant.Base.{
  ℕ, String, ◌≡◌, ◌≢◌, refl, sym, ap, ◌∙◌, true, false, List, [], ◌∷◌, Option, none, some, arith,
  eq_iff, ◌==◌, string_eq, contains, map, All, All-imp, Bool-cases, inl, inr,
}
use legant.Base.Result.{ok, >>=-eq-ok, reject_if-eq-ok, ok-injective}
use legant.World.{World}
use legant.Delegation.Jwt.{DelegationClaims, ParseOptions, Accepted, Jwt}
use legant.Delegation.Token.{Verifier, verify, key_func, or_fail, rejected}
use legant.Mcpgw.{
  Upstream, no_inbound_audience, duplicate_audience, find_upstream, put, audience_of, build_from,
  build_upstream_map, collides, merge, Gateway, new_gateway, refresh_upstreams, listed,
}

-- No two of the upstreams share an audience.
abbrev pub Apart : List Upstream → Type 0
Apart [] = Unit
Apart (u ∷ ups) = All (λ v. v.inbound_audience ≢ u.inbound_audience) ups × Apart ups

-- No upstream is without an audience, and no two share one.
abbrev pub IsIsolated : List Upstream → Type 0
IsIsolated ups = All (λ u. u.inbound_audience ≢ "") ups × Apart ups

put-All :
    (P : Upstream → Type 0) (u : Upstream) (m : List Upstream) → P u → All P m → All P (put u m)
unfolding put
put-All P u [] h hm = (h, tt)
put-All P u (v ∷ m) h hm = elim (Bool-cases (v.slug == u.slug)) [
  | inl same ↦ rw same (h, hm.1)
  | inr other ↦ rw other (hm.0, put-All P u m h hm.1)
]

put-Apart :
    (u : Upstream) (m : List Upstream)
    → All (λ v. v.inbound_audience ≢ u.inbound_audience) m
    → Apart m
    → Apart (put u m)
unfolding put
put-Apart u [] new h = (tt, tt)
put-Apart u (v ∷ m) new h = elim (Bool-cases (v.slug == u.slug)) [
  | inl same ↦ rw same (new.1, h.1)
  | inr other ↦ rw other (
    put-All (λ w. w.inbound_audience ≢ v.inbound_audience) u m (λ e. new.0 (sym e)) h.0,
    put-Apart u m new.1 h.1,
  )
]

-- Every audience of the map was seen.
abbrev Seen : List String → List Upstream → Type 0
Seen seen m = All (λ v. contains seen v.inbound_audience ≡ true) m

Seen-later : (a : String) (seen : List String) (m : List Upstream) → Seen seen m → Seen (a ∷ seen) m
unfolding contains
Seen-later a seen m h = All-imp m (λ v k. ground (arith, k)) h

Seen-new :
    (u : Upstream) (seen : List String) (m : List Upstream)
    → contains seen u.inbound_audience ≡ false
    → Seen seen m
    → All (λ v. v.inbound_audience ≢ u.inbound_audience) m
Seen-new u seen m fresh h = All-imp m (λ v k e. differ (sym k ∙ ap (contains seen) e ∙ fresh)) h
  where
    differ : true ≡ false → ⊥
    differ e = cc e

put-Seen :
    (u : Upstream) (seen : List String) (m : List Upstream)
    → Seen seen m
    → Seen (u.inbound_audience ∷ seen) (put u m)
unfolding contains
put-Seen u seen m h =
    put-All (λ v. contains (u.inbound_audience ∷ seen) v.inbound_audience ≡ true) u m
      (ground (arith, eq_iff u.inbound_audience u.inbound_audience))
      (Seen-later u.inbound_audience seen m h)

not_blank : (s : String) → (s == "") ≡ false → s ≢ ""
not_blank s h e = differ (sym ((eq_iff s "").1 e) ∙ h)
  where
    differ : true ≡ false → ⊥
    differ e = cc e

put-IsIsolated :
    (u : Upstream) (seen : List String) (m : List Upstream)
    → (u.inbound_audience == "") ≡ false
    → contains seen u.inbound_audience ≡ false
    → Seen seen m
    → IsIsolated m
    → IsIsolated (put u m)
put-IsIsolated u seen m named fresh sn h = (
  put-All (λ v. v.inbound_audience ≢ "") u m (not_blank u.inbound_audience named) h.0,
  put-Apart u m (Seen-new u seen m fresh sn) h.1,
)

build_from-IsIsolated :
    (ups : List Upstream) (seen : List String) (m : List Upstream) {m' : List Upstream}
    → Seen seen m
    → IsIsolated m
    → build_from ups seen m ≡ ok m'
    → IsIsolated m'
unfolding build_from
build_from-IsIsolated [] seen m sn h e = subst IsIsolated (ok-injective e) h
build_from-IsIsolated (u ∷ ups) seen m sn h e =
    let (named, h1) = reject_if-eq-ok (u.inbound_audience == "") no_inbound_audience _ e in
    let (fresh, h2) = reject_if-eq-ok (contains seen u.inbound_audience) duplicate_audience _ h1 in
    build_from-IsIsolated ups (u.inbound_audience ∷ seen) (put u m) (put-Seen u seen m sn)
      (put-IsIsolated u seen m named fresh sn h) h2

build-IsIsolated :
    (ups : List Upstream) {m : List Upstream} → build_upstream_map ups ≡ ok m → IsIsolated m
unfolding build_upstream_map
build-IsIsolated ups e = build_from-IsIsolated ups [] [] tt (tt, tt) e

not_collides :
    (u : Upstream) (seen : List String) (m : List Upstream)
    → collides u seen m ≡ false
    → ((u.inbound_audience == "") ≡ false) × (contains seen u.inbound_audience ≡ false)
unfolding collides
not_collides u seen m h = (ground (arith, h), ground (arith, h))

merge-IsIsolated :
    (ups : List Upstream) (seen : List String) (m : List Upstream)
    → Seen seen m
    → IsIsolated m
    → IsIsolated (merge ups seen m)
unfolding merge
merge-IsIsolated [] seen m sn h = h
merge-IsIsolated (u ∷ ups) seen m sn h = elim (Bool-cases (collides u seen m)) [
  | inl taken ↦ rw (taken, merge) (merge-IsIsolated ups seen m sn h)
  | inr free ↦
      rw (free, merge)
        (merge-IsIsolated ups (u.inbound_audience ∷ seen) (put u m) (put-Seen u seen m sn) (
          put-IsIsolated u seen m (not_collides u seen m free).0 (not_collides u seen m free).1 sn
            h))
]

audiences-Seen : (m : List Upstream) → Seen (map audience_of m) m
unfolding contains
audiences-Seen [] = tt
audiences-Seen (u ∷ m) = (
  ground (arith, eq_iff u.inbound_audience u.inbound_audience),
  Seen-later u.inbound_audience (map audience_of m) m (audiences-Seen m),
)

find-All :
    (P : Upstream → Type 0) (m : List Upstream) (a : String) {u : Upstream}
    → All P m
    → find_upstream m a ≡ some u
    → P u
unfolding find_upstream
find-All P [] a h e = absurd (ground arith)
find-All P (v ∷ m) a {u} h e = elim (Bool-cases (v.slug == a)) [
  | inl here ↦ subst P (some-injective _ _ (rw here at e)) h.0
  | inr there ↦ find-All P m a h.1 (rw there at e)
]

find-same :
    (m : List Upstream) (a b : String) {u w : Upstream}
    → Apart m
    → find_upstream m a ≡ some u
    → find_upstream m b ≡ some w
    → u.inbound_audience ≡ w.inbound_audience
    → u ≡ w
unfolding find_upstream
find-same [] a b h e k same = absurd (ground arith)
find-same (v ∷ m) a b {u} {w} h e k same = elim (Bool-cases (v.slug == a)) [
  | inl at_a ↦ elim (Bool-cases (v.slug == b)) [
    | inl at_b ↦ sym (some-injective _ _ (rw at_a at e)) ∙ some-injective _ _ (rw at_b at k)
    | inr off_b ↦ absurd (
        find-All (λ x. x.inbound_audience ≢ v.inbound_audience) m b h.0 (rw off_b at k)
          (sym same ∙ ap audience_of (sym (some-injective _ _ (rw at_a at e)))))
  ]
  | inr off_a ↦ elim (Bool-cases (v.slug == b)) [
    | inl at_b ↦ absurd (
        find-All (λ x. x.inbound_audience ≢ v.inbound_audience) m a h.0 (rw off_a at e)
          (same ∙ ap audience_of (sym (some-injective _ _ (rw at_b at k)))))
    | inr off_b ↦ find-same m a b h.1 (rw off_a at e) (rw off_b at k) same
  ]
]

module _ ⦃W : World⦄ ⦃J : Jwt⦄ where
  -- A gateway is made with isolated upstreams, or not at all.
  pub new_gateway-IsIsolated :
      (issuer kid : String) (key : J.PrivateKey) (keys : String → Option J.PublicKey)
      (ups : List Upstream) (ttl interval : ℕ) {g : Gateway}
      → new_gateway issuer kid key keys ups ttl interval ≡ ok g
      → IsIsolated g.upstreams
  unfolding new_gateway
  new_gateway-IsIsolated issuer kid key keys ups ttl interval h =
      let (m, built, e) = >>=-eq-ok (build_upstream_map ups) _ h in
      subst (λ (g : Gateway). IsIsolated g.upstreams) (ok-injective e) (build-IsIsolated ups built)

  -- Whatever is registered, the upstreams behind a refresh are isolated.
  pub refresh_upstreams-IsIsolated :
      (g : Gateway) (registered : Option (List Upstream)) {g' : Gateway}
      → refresh_upstreams g registered ≡ ok g'
      → IsIsolated g'.upstreams
  unfolding refresh_upstreams
  refresh_upstreams-IsIsolated g registered h =
      let (rows, found, h1) = >>=-eq-ok (listed registered) _ h in
      let (m, built, e) = >>=-eq-ok (build_upstream_map g.static_upstreams) _ h1 in
      subst (λ (k : Gateway). IsIsolated k.upstreams) (ok-injective e)
        (merge-IsIsolated rows (map audience_of m) m (audiences-Seen m)
          (build-IsIsolated g.static_upstreams built))

  -- A token that verifies meets the registered claims.
  pub verify-Accepted :
      (v : Verifier) (now : ℕ) (t : J.Token) (a : String) {c : DelegationClaims}
      → verify v now t a ≡ ok c
      → Accepted (record { issuer = v.issuer; audience = some a }) now c
  unfolding verify
  verify-Accepted v now t a {c} h = from (J.parse (key_func v) o now t) refl h
    where
      o : ParseOptions
      o = record { issuer = v.issuer; audience = some a }

      from :
          (p : Option DelegationClaims)
          → J.parse (key_func v) o now t ≡ p
          → or_fail p rejected ≡ ok c
          → Accepted o now c
      from none e k = absurd (ground arith)
      from (some d) e k = J.parse_accepted (key_func v) o now t c (e ∙ ap some (ok-injective k))

  verify-audience :
      (v : Verifier) (now : ℕ) (t : J.Token) (a : String) {c : DelegationClaims}
      → a ≢ ""
      → verify v now t a ≡ ok c
      → contains c.audience a ≡ true
  verify-audience v now t a named h = (verify-Accepted v now t a h).audience_listed a refl named

  only_audience : (l : List String) (x a : String) → l ≡ x ∷ [] → contains l a ≡ true → x ≡ a
  unfolding contains
  only_audience l x a e h = ground (arith, eq_iff x a, e, h)

  -- A token for one audience is accepted for one of the live upstreams at most: it cannot be replayed
  -- against another one.
  pub one_upstream :
      (g : Gateway) (v : Verifier) (now : ℕ) (t : J.Token) (a b x : String) {u w : Upstream}
      {c d : DelegationClaims}
      → IsIsolated g.upstreams
      → find_upstream g.upstreams a ≡ some u
      → find_upstream g.upstreams b ≡ some w
      → verify v now t u.inbound_audience ≡ ok c
      → verify v now t w.inbound_audience ≡ ok d
      → c.audience ≡ x ∷ []
      → d.audience ≡ x ∷ []
      → u ≡ w
  one_upstream g v now t a b x {u} {w} {c} {d} h e k hu hw single single' =
      find-same g.upstreams a b h.1 e k (
        sym (
          only_audience c.audience x u.inbound_audience single (
            verify-audience v now t u.inbound_audience
              (find-All (λ u. u.inbound_audience ≢ "") g.upstreams a h.0 e) hu))
        ∙ only_audience d.audience x w.inbound_audience single' (
            verify-audience v now t w.inbound_audience
              (find-All (λ u. u.inbound_audience ≢ "") g.upstreams b h.0 k) hw))
