-- ===== src/Revocation/Laws.antt =====
-- What revoking does to the tokens, and what the feed says of them.
use mathlib.Core.Path.{subst}
use legant.Base.{
  ℕ, ltb, String, ◌≡◌, refl, inl, inr, Bool, true, false, ◌&&◌, List, [], ◌∷◌, Option, none, some,
  arith, eq_iff, Option-cases, ◌==◌, string_eq, contains, if◌then◌else◌,
}
use legant.Database.{TokenRow, is_some}
use legant.Revocation.{
  find_token, record_tx, row_active, is_active, revoke_if, count_revoked, revoke_where, has_jti,
  revoke, of_delegation, revoke_by_delegation, feed_jtis,
}

abbrev map_found : (TokenRow → TokenRow) → Option TokenRow → Option TokenRow
map_found f none = none
map_found f (some t) = some (f t)

-- Revoking rows moves no id.
find-revoke_where :
    (now : ℕ) (test : TokenRow → Bool) (tokens : List TokenRow) (jti : String)
    → find_token (revoke_where now test tokens) jti
      ≡ map_found (λ t. revoke_if now (test t) t) (find_token tokens jti)
unfolding find_token revoke_where
find-revoke_where now test [] jti = refl
find-revoke_where now test (t ∷ tokens) jti = ground (arith, find-revoke_where now test tokens jti)

-- A token whose row passes the test is dead from then on, and every other token is as it was.
pub is_active-revoke_where :
    (now later : ℕ) (test : TokenRow → Bool) (tokens : List TokenRow) (jti : String)
    → is_active (revoke_where now test tokens) later jti ≡ elim (find_token tokens jti) [
      | none ↦ false
      | some t ↦ if test t then false else row_active later (some t)
    ]
unfolding is_active
is_active-revoke_where now later test tokens jti = elim (Option-cases (find_token tokens jti)) [
  | inl gone ↦ ground (arith, find-revoke_where now test tokens jti, gone)
  | inr (t, at) ↦ ground (arith, find-revoke_where now test tokens jti, at)
]

find_token-jti :
    (tokens : List TokenRow) (jti : String) (t : TokenRow)
    → find_token tokens jti ≡ some t
    → (t.jti == jti) ≡ true
unfolding find_token
find_token-jti [] jti t h = absurd (ground arith)
find_token-jti (x ∷ tokens) jti t h = ground (arith, find_token-jti tokens jti t)

-- Revoking one token kills it at every later instant, and leaves every other token's state as it is.
pub is_active-revoke :
    (tokens : List TokenRow) (now later : ℕ) (jti other : String)
    → is_active (revoke tokens now jti).0 later other
      ≡ (if jti == other then false else is_active tokens later other)
unfolding revoke is_active
is_active-revoke tokens now later jti other = elim (Option-cases (find_token tokens other)) [
  | inl gone ↦ ground (arith, find-revoke_where now (has_jti jti) tokens other, gone)
  | inr (t, at) ↦ ground (
    arith,
    find-revoke_where now (has_jti jti) tokens other,
    at,
    find_token-jti tokens other t at,
    eq_iff t.jti other,
    eq_iff t.jti jti,
    eq_iff jti other,
  )
]

-- Revoking by delegation kills each token that was minted from the delegation, and no other.
pub is_active-revoke_by_delegation :
    (tokens : List TokenRow) (now later : ℕ) (id jti : String)
    → is_active (revoke_by_delegation tokens now id).0 later jti ≡ elim (find_token tokens jti) [
      | none ↦ false
      | some t ↦ if of_delegation id t then false else row_active later (some t)
    ]
unfolding revoke_by_delegation
is_active-revoke_by_delegation tokens now later id jti =
    is_active-revoke_where now later (of_delegation id) tokens jti

revoked_twice :
    (now : ℕ) (test : TokenRow → Bool) (tokens : List TokenRow)
    → ((t : TokenRow) → test (record t { revoked_at = some now }) ≡ test t)
    → count_revoked test (revoke_where now test tokens) ≡ 0
unfolding count_revoked revoke_where
revoked_twice now test [] same = refl
revoked_twice now test (t ∷ tokens) same =
    ground (arith, same t, revoked_twice now test tokens same)

-- A second revocation of the same token, or of the same delegation, changes no row.
pub revoke_idem :
    (tokens : List TokenRow) (now later : ℕ) (id : String)
    → ((revoke (revoke tokens now id).0 later id).1 ≡ 0)
      × ((revoke_by_delegation (revoke_by_delegation tokens now id).0 later id).1 ≡ 0)
unfolding revoke revoke_by_delegation
revoke_idem tokens now later id = (
  revoked_twice now (has_jti id) tokens (λ t. refl),
  revoked_twice now (of_delegation id) tokens (λ t. refl),
)

-- A token that is recorded is active until it expires, and the insert changes no other token.
pub is_active-record_tx :
    (tokens tokens' : List TokenRow) (t : TokenRow) (now : ℕ) (jti : String)
    → record_tx tokens t ≡ some tokens'
    → is_active tokens' now jti
      ≡ (if t.jti == jti then row_active now (some t) else is_active tokens now jti)
unfolding record_tx is_active find_token
is_active-record_tx tokens tokens' t now jti h = ground arith

-- The primary key of the table.
abbrev pub HasUniqueJtis : List TokenRow → Type 0
HasUniqueJtis [] = Unit
HasUniqueJtis (t ∷ tokens) = (find_token tokens t.jti ≡ none) × HasUniqueJtis tokens

abbrev pub on_feed : ℕ → Option TokenRow → Bool
on_feed now none = false
on_feed now (some t) = is_some t.revoked_at && ltb now t.expires_at

-- The feed lists exactly the tokens that are revoked and have not expired.
pub contains-feed_jtis :
    (tokens : List TokenRow) (now : ℕ) (jti : String)
    → HasUniqueJtis tokens
    → contains (feed_jtis tokens now) jti ≡ on_feed now (find_token tokens jti)
unfolding contains feed_jtis find_token
contains-feed_jtis [] now jti u = refl
contains-feed_jtis (t ∷ tokens) now jti u =
    ground (arith, contains-feed_jtis tokens now jti u.1, eq_iff t.jti jti, absent)
  where
    absent : t.jti ≡ jti → find_token tokens jti ≡ none
    absent e = subst (λ j. find_token tokens j ≡ none) e u.0

-- The feed never lists a token that the store holds active.
pub feed_jtis_sound :
    (tokens : List TokenRow) (now : ℕ) (jti : String)
    → HasUniqueJtis tokens
    → contains (feed_jtis tokens now) jti ≡ true
    → is_active tokens now jti ≡ false
unfolding is_active
feed_jtis_sound tokens now jti u h = elim (Option-cases (find_token tokens jti)) [
  | inl gone ↦ ground (arith, gone)
  | inr (t, at) ↦ ground (arith, at, contains-feed_jtis tokens now jti u)
]
