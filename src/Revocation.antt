-- ===== src/Revocation.antt =====
-- internal/revocation/store.go, and the query of internal/revocation/feed.go: the record of minted
-- tokens. The metrics and the live console are left out, and so is the order of the feed's ids.
pub mod Laws
use legant.Base.{
  ℕ, suc, ltb, String, Bool, true, false, not, ◌&&◌, ◌||◌, List, [], ◌∷◌, Option, none, some, ◌==◌,
  string_eq, map, if◌then◌else◌,
}
use legant.World.{World}
use legant.Database.{TokenRow, is_some}

-- `WHERE jti = $1` on a primary key.
unfoldable pub find_token : List TokenRow → String → Option TokenRow
find_token [] jti = none
find_token (t ∷ tokens) jti = if t.jti == jti then some t else find_token tokens jti

-- The insert of `RecordTx`; `none` where the primary key is taken.
unfoldable pub record_tx : List TokenRow → TokenRow → Option (List TokenRow)
record_tx tokens t = if is_some (find_token tokens t.jti) then none else some (t ∷ tokens)

abbrev pub row_active : ℕ → Option TokenRow → Bool
row_active now none = false
row_active now (some t) = not (is_some t.revoked_at || ltb t.expires_at now)

unfoldable pub is_active : List TokenRow → ℕ → String → Bool
is_active tokens now jti = row_active now (find_token tokens jti)

-- `SET revoked_at = now() WHERE … AND revoked_at IS NULL`
abbrev pub revoke_if : ℕ → Bool → TokenRow → TokenRow
revoke_if now b t =
    if b && not (is_some t.revoked_at) then record t { revoked_at = some now } else t

-- `RowsAffected` of that statement.
unfoldable pub count_revoked : (TokenRow → Bool) → List TokenRow → ℕ
count_revoked test [] = 0
count_revoked test (t ∷ tokens) =
    let rest = count_revoked test tokens in
    if test t && not (is_some t.revoked_at) then suc rest else rest

unfoldable pub revoke_where : ℕ → (TokenRow → Bool) → List TokenRow → List TokenRow
revoke_where now test [] = []
revoke_where now test (t ∷ tokens) = revoke_if now (test t) t ∷ revoke_where now test tokens

abbrev pub has_jti : String → TokenRow → Bool
has_jti jti t = t.jti == jti

unfoldable pub revoke : List TokenRow → ℕ → String → List TokenRow × ℕ
revoke tokens now jti = (revoke_where now (has_jti jti) tokens, count_revoked (has_jti jti) tokens)

abbrev pub same_delegation : Option String → String → Bool
same_delegation none id = false
same_delegation (some d) id = d == id

abbrev pub of_delegation : String → TokenRow → Bool
of_delegation id t = same_delegation t.delegation_id id

unfoldable pub revoke_by_delegation : List TokenRow → ℕ → String → List TokenRow × ℕ
revoke_by_delegation tokens now id =
    (revoke_where now (of_delegation id) tokens, count_revoked (of_delegation id) tokens)

-- `WHERE revoked_at IS NOT NULL AND expires_at > now()`
unfoldable pub feed_jtis : List TokenRow → ℕ → List String
feed_jtis [] now = []
feed_jtis (t ∷ tokens) now =
    let rest = feed_jtis tokens now in
    if is_some t.revoked_at && ltb now t.expires_at then t.jti ∷ rest else rest
