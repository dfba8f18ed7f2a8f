-- ===== src/Sdk/Feed.antt =====
-- sdk/revocation.go: the pulled feed of revoked tokens. The JWT library's parse of a feed is the
-- argument `parse`; the lock makes each operation one step, and a poll is a list of fetched bodies.
use legant.Base.{
  ℕ, ◌-◌, suc, ℤ, pos, negsuc, ltb_ℤ, leb_ℤ, leb, String, ◌≡◌, refl, Bool, true, false, List, [],
  ◌∷◌, Option, none, some, arith, string_eq, contains, Bool-cases, ◌⊎◌, inl, inr, if◌then◌else◌,
}

pub record FeedClaims : Type 0 where
  pub version : ℤ
  pub jtis : List String

pub record RevocationFeed : Type 0 where
  pub revoked : List String
  pub version : ℤ
  pub fetched_at : ℕ

pub data FeedError : Type 0 where
  feed_rejected version_regressed : FeedError

abbrev pub no_feed_yet : RevocationFeed
no_feed_yet = record { revoked = []; version = pos 0; fetched_at = 0 }

abbrev swap : RevocationFeed → ℕ → Option FeedClaims → RevocationFeed × Option FeedError
swap f now none = (f, some feed_rejected)
swap f now (some c) =
    if ltb_ℤ c.version f.version
    then (f, some version_regressed)
    else (record { revoked = c.jtis; version = c.version; fetched_at = now }, none)

unfoldable pub is_revoked : RevocationFeed → String → Bool
is_revoked f jti = contains f.revoked jti

-- `time.Since(f.fetchedAt)`
unfoldable pub staleness : RevocationFeed → ℕ → ℤ
staleness f now =
    if leb f.fetched_at now then pos (now - f.fetched_at) else negsuc (f.fetched_at - suc now)

module _ {Body : Type 0} (parse : ℕ → Body → Option FeedClaims) where
  -- The feed behind a body that was fetched, and the error if it was refused.
  unfoldable pub apply : RevocationFeed → ℕ → Body → RevocationFeed × Option FeedError
  apply f now body = swap f now (parse now body)

  -- The feed behind a series of refreshes, whose errors leave it as it was.
  unfoldable pub poll : RevocationFeed → List (ℕ × Body) → RevocationFeed
  poll f [] = f
  poll f (b ∷ bodies) = poll (apply f b.0 b.1).0 bodies

  swap-monotone :
      (f : RevocationFeed) (now : ℕ) (c : Option FeedClaims)
      → leb_ℤ f.version (swap f now c).0.version ≡ true
  swap-monotone f now none = reflexive f.version
    where
      reflexive : (z : ℤ) → leb_ℤ z z ≡ true
      reflexive z = ground arith
  swap-monotone f now (some c) = elim (Bool-cases (ltb_ℤ c.version f.version)) [
    | inl older ↦ rw older (reflexive f.version)
    | inr newer ↦ rw newer (total f.version c.version newer)
  ]
    where
      reflexive : (z : ℤ) → leb_ℤ z z ≡ true
      reflexive z = ground arith

      total : (a b : ℤ) → ltb_ℤ b a ≡ false → leb_ℤ a b ≡ true
      total a b h = ground arith

  leb_trans : (a b c : ℤ) → leb_ℤ a b ≡ true → leb_ℤ b c ≡ true → leb_ℤ a c ≡ true
  leb_trans a b c h k = ground arith

  leb_refl : (a : ℤ) → leb_ℤ a a ≡ true
  leb_refl a = ground arith

  -- Whatever bodies are fetched, in whatever order, the version of the feed never goes back: an older
  -- feed cannot be replayed.
  pub poll-monotone :
      (f : RevocationFeed) (bodies : List (ℕ × Body))
      → leb_ℤ f.version (poll f bodies).version ≡ true
  unfolding poll apply
  poll-monotone f [] = leb_refl f.version
  poll-monotone f (b ∷ bodies) =
      let g = (swap f b.0 (parse b.0 b.1)).0 in
      leb_trans f.version g.version (poll g bodies).version (swap-monotone f b.0 (parse b.0 b.1))
        (poll-monotone g bodies)

  -- A token is reported as revoked only if it was before, or if a body that verified lists it.
  pub apply_sound :
      (f : RevocationFeed) (now : ℕ) (body : Body) (jti : String)
      → is_revoked (apply f now body).0 jti ≡ true
      → (is_revoked f jti ≡ true)
        ⊎ ((c : FeedClaims) × (parse now body ≡ some c) × (contains c.jtis jti ≡ true))
  unfolding apply is_revoked
  apply_sound f now body jti h = from (parse now body) refl h
    where
      from :
          (o : Option FeedClaims)
          → parse now body ≡ o
          → contains (swap f now o).0.revoked jti ≡ true
          → (contains f.revoked jti ≡ true)
            ⊎ ((c : FeedClaims) × (parse now body ≡ some c) × (contains c.jtis jti ≡ true))
      from none e k = inl k
      from (some c) e k = elim (Bool-cases (ltb_ℤ c.version f.version)) [
        | inl older ↦ inl (rw older at k)
        | inr newer ↦ inr (c, e, rw newer at k)
      ]

  -- A body that verifies and is no older replaces the set, whole; any other leaves the feed as it was.
  pub apply_cases :
      (f : RevocationFeed) (now : ℕ) (body : Body)
      → ((c : FeedClaims) × (parse now body ≡ some c)
          × (ltb_ℤ c.version f.version ≡ false)
          × (apply f now body
              ≡ (record { revoked = c.jtis; version = c.version; fetched_at = now }, none)))
        ⊎ ((e : FeedError) × (apply f now body ≡ (f, some e)))
  unfolding apply
  apply_cases f now body = from (parse now body) refl
    where
      from :
          (o : Option FeedClaims)
          → parse now body ≡ o
          → ((c : FeedClaims) × (parse now body ≡ some c)
              × (ltb_ℤ c.version f.version ≡ false)
              × (swap f now o
                  ≡ (record { revoked = c.jtis; version = c.version; fetched_at = now }, none)))
            ⊎ ((e : FeedError) × (swap f now o ≡ (f, some e)))
      from none e = inr (feed_rejected, refl)
      from (some c) e = elim (Bool-cases (ltb_ℤ c.version f.version)) [
        | inl older ↦ inr (version_regressed, rw older)
        | inr newer ↦ inl (c, e, newer, rw newer)
      ]
