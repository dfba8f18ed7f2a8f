-- ===== src/Keystore.antt =====
-- internal/keystore/keystore.go: the signing keys, their rotation and retirement. The table
-- signing_keys is a list of rows; AES-GCM with the PEM form of a key, RSA key generation and
-- `RandomHex(8)` are parameters; a transaction is one step. `now()` is the argument `now`.
pub mod Rotated
pub mod Rewrapped
use legant.Base.{
  ℕ, suc, ◌+◌, ltb, ℤ, pos, ltb_ℤ, shift, String, ◌≡◌, Bool, true, false, not, ◌&&◌, ◌||◌, List, [],
  ◌∷◌, Option, none, some, ◌==◌, string_eq, nat_eq, keep, length, map, if◌then◌else◌,
}
use legant.Base.Text.{join}
use legant.Base.Result.{Result, ok, err, ◌>>=◌, ◌>>◌, reject_if}
use legant.World.{World}
use legant.Delegation.Jwt.{Jwt}
use legant.Database.{is_some}

pub data KeyError : Type 0 where
  empty_key undecryptable no_key_material no_randomness encryption_failed duplicate_id : KeyError

-- The additional data that a private key is sealed with.
unfoldable pub aad : String → String
aad kid = join "|" ("legant-kek-v1" ∷ kid ∷ "sig" ∷ [])

module _ ⦃W : World⦄ ⦃J : Jwt⦄ where
  -- AES-256-GCM with additional data, over the PEM form of a private key, and the order of PostgreSQL's
  -- text. What was sealed opens again under the same key and data.
  pub record Envelope : Type 1 where
    pub EncKey : Type 0
    pub Cipher : Type 0
    pub is_blank : EncKey → Bool
    pub encrypt : EncKey → String → J.PrivateKey → Option Cipher
    pub decrypt : EncKey → String → Cipher → Option J.PrivateKey
    pub precedes : String → String → Bool
    pub decrypt-encrypt :
        (k : EncKey) (aad : String) (p : J.PrivateKey) (c : Cipher)
        → encrypt k aad p ≡ some c
        → decrypt k aad c ≡ some p

  module _ ⦃E : Envelope⦄ where
    pub record KeyRow : Type 0 where
      pub id : String
      pub private_key : E.Cipher
      pub for_signatures : Bool
      pub active : Bool
      pub created_at : ℕ
      pub expires_at : Option ℕ

    pub record Key : Type 0 where
      pub id : String
      pub private : J.PrivateKey
      pub created_at : ℕ
      pub expires_at : Option ℕ

    -- `keys` are all that are active, and `active` the newest of them.
    pub record Keystore : Type 0 where
      pub overlap : ℤ
      pub enc_key : E.EncKey
      pub keys : List Key
      pub active : Option Key

    -- `ORDER BY created_at DESC, id DESC`
    abbrev pub newer : KeyRow → KeyRow → Bool
    newer r s =
        ltb s.created_at r.created_at || (s.created_at == r.created_at && E.precedes s.id r.id)

    unfoldable pub insert_row : KeyRow → List KeyRow → List KeyRow
    insert_row r [] = r ∷ []
    insert_row r (s ∷ rows) =
        let others = insert_row r rows in if newer r s then r ∷ s ∷ rows else s ∷ others

    unfoldable pub sort_rows : List KeyRow → List KeyRow
    sort_rows [] = []
    sort_rows (r ∷ rows) = insert_row r (sort_rows rows)

    abbrev pub is_published : KeyRow → Bool
    is_published r = r.active && r.for_signatures

    abbrev pub key_of : KeyRow → J.PrivateKey → Key
    key_of r p = record {
      id = r.id;
      private = p;
      created_at = r.created_at;
      expires_at = r.expires_at;
    }

    abbrev pub cons_key : KeyRow → Option J.PrivateKey → Option (List Key) → Option (List Key)
    cons_key r none keys = none
    cons_key r (some p) none = none
    cons_key r (some p) (some keys) = some (key_of r p ∷ keys)

    -- `none` where some key cannot be decrypted.
    unfoldable pub load : E.EncKey → List KeyRow → Option (List Key)
    load k [] = some []
    load k (r ∷ rows) = cons_key r (E.decrypt k (aad r.id) r.private_key) (load k rows)

    abbrev pub newest : List Key → Option Key
    newest [] = none
    newest (key ∷ keys) = some key

    abbrev pub with_keys : Keystore → Option (List Key) → Result KeyError Keystore
    with_keys ks none = err undecryptable
    with_keys ks (some keys) = ok (record ks { keys = keys; active = newest keys })

    unfoldable pub reload : Keystore → List KeyRow → Result KeyError Keystore
    reload ks rows = with_keys ks (load ks.enc_key (sort_rows (keep is_published rows)))

    abbrev pub id_or_blank : Option Key → String
    id_or_blank none = ""
    id_or_blank (some key) = key.id

    unfoldable pub active_kid : Keystore → String
    active_kid ks = id_or_blank ks.active

    unfoldable pub active_signer : Keystore → Option J.PrivateKey
    active_signer ks = elim ks.active [ none ↦ none | some key ↦ some key.private ]

    unfoldable pub public_of : List Key → String → Option J.PublicKey
    public_of [] kid = none
    public_of (key ∷ keys) kid =
        if key.id == kid then some (J.public_key key.private) else public_of keys kid

    unfoldable pub verifier_keys : Keystore → String → Option J.PublicKey
    verifier_keys ks kid = public_of ks.keys kid

    abbrev pub has_id : String → KeyRow → Bool
    has_id kid r = r.id == kid

    abbrev pub or_error : {A : Type 0} → Option A → KeyError → Result KeyError A
    or_error none e = err e
    or_error (some a) e = ok a

    -- The row of a new key, and its id.
    unfoldable pub generate :
        Keystore
        → List KeyRow
        → ℕ
        → Option J.PrivateKey
        → Option String
        → Result KeyError (List KeyRow × String)
    generate ks rows now fresh random_hex = do
      priv ← or_error fresh no_key_material
      rnd ← or_error random_hex no_randomness
      let kid = join "" ("rk_" ∷ rnd ∷ [])
      enc ← or_error (E.encrypt ks.enc_key (aad kid) priv) encryption_failed
      reject_if (not (length (keep (has_id kid) rows) == 0)) duplicate_id
      ok (
        record {
          id = kid;
          private_key = enc;
          for_signatures = true;
          active = true;
          created_at = now;
          expires_at = none;
        }
            ∷ rows,
        kid,
      )

    -- Under the advisory lock.
    unfoldable pub bootstrap :
        Keystore
        → List KeyRow
        → ℕ
        → Option J.PrivateKey
        → Option String
        → Result KeyError (List KeyRow)
    bootstrap ks rows now fresh random_hex =
        if length (keep is_published rows) == 0
        then (do made ← generate ks rows now fresh random_hex; ok made.0)
        else ok rows

    abbrev with_rows :
        List KeyRow → Result KeyError Keystore → Result KeyError (Keystore × List KeyRow)
    with_rows rows m = do ks ← m; ok (ks, rows)

    -- A key store without a key makes one.
    abbrev pub with_first_key :
        Keystore
        → List KeyRow
        → ℕ
        → Option J.PrivateKey
        → Option String
        → Result KeyError (Keystore × List KeyRow)
    with_first_key ks rows now fresh random_hex =
        if active_kid ks == ""
        then bootstrap ks rows now fresh random_hex >>= (λ rows'. with_rows rows' (reload ks rows'))
        else ok (ks, rows)

    -- The key store and the table behind `Open`.
    unfoldable pub open_keystore :
        E.EncKey
        → ℤ
        → List KeyRow
        → ℕ
        → Option J.PrivateKey
        → Option String
        → Result KeyError (Keystore × List KeyRow)
    open_keystore k overlap rows now fresh random_hex = do
      reject_if (E.is_blank k) empty_key
      ks ← reload (record { overlap = overlap; enc_key = k; keys = []; active = none }) rows
      with_first_key ks rows now fresh random_hex

    -- `SET expires_at = … WHERE id = $1 AND expires_at IS NULL`
    unfoldable pub retire : String → ℕ → KeyRow → KeyRow
    retire prev at r =
        if r.id == prev && not (is_some r.expires_at) then record r { expires_at = some at } else r

    abbrev pub scheduled : Keystore → ℕ → List KeyRow → List KeyRow
    scheduled ks now rows =
        if not (active_kid ks == "") && ltb_ℤ (pos 0) ks.overlap
        then map (retire (active_kid ks) (shift now ks.overlap)) rows
        else rows

    abbrev pub or_keep :
        {A : Type 0} → Keystore → A → Result KeyError Keystore → Keystore × Result KeyError A
    or_keep ks a (err e) = (ks, err e)
    or_keep ks a (ok ks') = (ks', ok a)

    -- The new table, the key store, and the new id: an error of the last reload comes after the commit.
    abbrev pub rotated :
        Keystore
        → List KeyRow
        → ℕ
        → Result KeyError (List KeyRow × String)
        → List KeyRow × (Keystore × Result KeyError String)
    rotated ks rows now (err e) = (rows, (ks, err e))
    rotated ks rows now (ok made) =
        let rows' = scheduled ks now made.0 in (rows', or_keep ks made.1 (reload ks rows'))

    unfoldable pub rotate :
        Keystore
        → List KeyRow
        → ℕ
        → Option J.PrivateKey
        → Option String
        → List KeyRow × (Keystore × Result KeyError String)
    rotate ks rows now fresh random_hex =
        rotated ks rows now (generate ks rows now fresh random_hex)

    abbrev pub expired : ℕ → Option ℕ → Bool
    expired now none = false
    expired now (some e) = ltb e now

    abbrev pub is_pruned : String → ℕ → KeyRow → Bool
    is_pruned active now r = is_published r && expired now r.expires_at && not (r.id == active)

    unfoldable pub deactivate : String → ℕ → KeyRow → KeyRow
    deactivate active now r = if is_pruned active now r then record r { active = false } else r

    unfoldable pub prune : Keystore → List KeyRow → ℕ → List KeyRow × (Keystore × Result KeyError ℕ)
    prune ks rows now =
        let kid = active_kid ks in
        let rows' = map (deactivate kid now) rows in
        (rows', or_keep ks (length (keep (is_pruned kid now) rows)) (reload ks rows'))

    abbrev pub rewrapped :
        KeyRow
        → Result KeyError E.Cipher
        → Result KeyError (List KeyRow)
        → Result KeyError (List KeyRow)
    rewrapped r (err e) others = err e
    rewrapped r (ok c) (err e) = err e
    rewrapped r (ok c) (ok rows) = ok (record r { private_key = c } ∷ rows)

    unfoldable pub rewrap : E.EncKey → E.EncKey → KeyRow → Result KeyError E.Cipher
    rewrap k k' r = do
      plain ← or_error (E.decrypt k (aad r.id) r.private_key) undecryptable
      or_error (E.encrypt k' (aad r.id) plain) encryption_failed

    unfoldable pub rewrap_all : E.EncKey → E.EncKey → List KeyRow → Result KeyError (List KeyRow)
    rewrap_all k k' [] = ok []
    rewrap_all k k' (r ∷ rows) =
        rewrapped r (if r.for_signatures then rewrap k k' r else ok r.private_key)
          (rewrap_all k k' rows)

    abbrev pub reencrypted :
        Keystore
        → List KeyRow
        → E.EncKey
        → Result KeyError (List KeyRow)
        → List KeyRow × (Keystore × Result KeyError (Unit {0}))
    reencrypted ks rows k' (err e) = (rows, (ks, err e))
    reencrypted ks rows k' (ok rows') =
        let ks' = record ks { enc_key = k' } in (rows', or_keep ks' tt (reload ks' rows'))

    unfoldable pub reencrypt :
        Keystore → List KeyRow → E.EncKey → List KeyRow × (Keystore × Result KeyError (Unit {0}))
    reencrypt ks rows k' =
        if E.is_blank k'
        then (rows, (ks, err empty_key))
        else reencrypted ks rows k' (rewrap_all ks.enc_key k' rows)

    pub record KeyInfo : Type 0 where
      pub id : String
      pub active : Bool
      pub created_at : ℕ
      pub expires_at : Option ℕ

    abbrev info_of : KeyRow → KeyInfo
    info_of r = record {
      id = r.id;
      active = r.active;
      created_at = r.created_at;
      expires_at = r.expires_at;
    }

    abbrev for_signing : KeyRow → Bool
    for_signing r = r.for_signatures

    unfoldable pub list_keys : List KeyRow → List KeyInfo
    list_keys rows = map info_of (sort_rows (keep for_signing rows))
