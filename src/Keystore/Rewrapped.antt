-- ===== src/Keystore/Rewrapped.antt =====
-- The change of the key-encryption key.
use mathlib.Core.Path.{subst}
use mathlib.Core.Option.{some-injective}
use legant.Base.{
  ◌≡◌, refl, sym, ap, ◌∙◌, Bool, true, false, List, [], ◌∷◌, Option, none, some, string_eq, arith,
  keep, All, Bool-cases, inl, inr, if◌then◌else◌,
}
use legant.Base.Result.{Result, ok, err, >>=-eq-ok, ok-injective}
use legant.World.{World}
use legant.Delegation.Jwt.{Jwt}
use legant.Keystore.{
  KeyError, aad, Envelope, KeyRow, Key, Keystore, newer, insert_row, sort_rows, is_published,
  cons_key, load, with_keys, reload, or_error, or_keep, rewrapped, rewrap, rewrap_all, reencrypted,
  reencrypt,
}
use legant.Keystore.Rotated.{All-sort}

module _ ⦃W : World⦄ ⦃J : Jwt⦄ ⦃E : Envelope⦄ where
  -- The row `r'` is the row `r` with its private key sealed anew.
  abbrev Resealed : E.EncKey → E.EncKey → KeyRow → KeyRow → Type 0
  Resealed k k' r r' =
      (c : E.Cipher) × (r' ≡ record r { private_key = c })
      × (r.for_signatures ≡ true → E.decrypt k' (aad r.id) c ≡ E.decrypt k (aad r.id) r.private_key)

  abbrev AllResealed : E.EncKey → E.EncKey → List KeyRow → List KeyRow → Type 0
  AllResealed k k' [] [] = Unit
  AllResealed k k' [] (s ∷ rows') = ⊥
  AllResealed k k' (r ∷ rows) [] = ⊥
  AllResealed k k' (r ∷ rows) (s ∷ rows') = Resealed k k' r s × AllResealed k k' rows rows'

  same_order :
      (k k' : E.EncKey) (r r' s s' : KeyRow)
      → Resealed k k' r r'
      → Resealed k k' s s'
      → newer r' s' ≡ newer r s
  same_order k k' r r' s s' (c, e, _) (d, f, _) =
      ap (newer r') f ∙ ap (λ (x : KeyRow). newer x (record s { private_key = d })) e

  insert_row-Resealed :
      (k k' : E.EncKey) (r r' : KeyRow) (rows rows' : List KeyRow)
      → Resealed k k' r r'
      → AllResealed k k' rows rows'
      → AllResealed k k' (insert_row r rows) (insert_row r' rows')
  unfolding insert_row
  insert_row-Resealed k k' r r' [] [] h hs = (h, tt)
  insert_row-Resealed k k' r r' [] (s' ∷ rows') h hs = absurd hs
  insert_row-Resealed k k' r r' (s ∷ rows) [] h hs = absurd hs
  insert_row-Resealed k k' r r' (s ∷ rows) (s' ∷ rows') h hs = elim (Bool-cases (newer r s)) [
    | inl first ↦ rw first (rw (same_order k k' r r' s s' h hs.0 ∙ first) (h, hs))
    | inr later ↦ rw later (
        rw (same_order k k' r r' s s' h hs.0 ∙ later)
          (hs.0, insert_row-Resealed k k' r r' rows rows' h hs.1))
  ]

  sort_rows-Resealed :
      (k k' : E.EncKey) (rows rows' : List KeyRow)
      → AllResealed k k' rows rows'
      → AllResealed k k' (sort_rows rows) (sort_rows rows')
  unfolding sort_rows
  sort_rows-Resealed k k' [] [] h = tt
  sort_rows-Resealed k k' [] (s ∷ rows') h = absurd h
  sort_rows-Resealed k k' (r ∷ rows) [] h = absurd h
  sort_rows-Resealed k k' (r ∷ rows) (r' ∷ rows') h =
      insert_row-Resealed k k' r r' (sort_rows rows) (sort_rows rows') h.0
        (sort_rows-Resealed k k' rows rows' h.1)

  keep-Resealed :
      (k k' : E.EncKey) (rows rows' : List KeyRow)
      → AllResealed k k' rows rows'
      → AllResealed k k' (keep is_published rows) (keep is_published rows')
  unfolding keep
  keep-Resealed k k' [] [] h = tt
  keep-Resealed k k' [] (s ∷ rows') h = absurd h
  keep-Resealed k k' (r ∷ rows) [] h = absurd h
  keep-Resealed k k' (r ∷ rows) (r' ∷ rows') h =
      let same : is_published r' ≡ is_published r = ap is_published (h.0.1) in
      elim (Bool-cases (is_published r)) [
        | inl on ↦ rw on (rw (same ∙ on) (h.0, keep-Resealed k k' rows rows' h.1))
        | inr off ↦ rw off (rw (same ∙ off) (keep-Resealed k k' rows rows' h.1))
      ]

  load-Resealed :
      (k k' : E.EncKey) (rows rows' : List KeyRow)
      → All (λ r. r.for_signatures ≡ true) rows
      → AllResealed k k' rows rows'
      → load k' rows' ≡ load k rows
  unfolding load
  load-Resealed k k' [] [] sig h = refl
  load-Resealed k k' [] (s ∷ rows') sig h = absurd h
  load-Resealed k k' (r ∷ rows) [] sig h = absurd h
  load-Resealed k k' (r ∷ rows) (r' ∷ rows') sig ((c, e, opens), hs) =
      ap (λ (x : KeyRow). cons_key x (E.decrypt k' (aad x.id) x.private_key) (load k' rows')) e
      ∙ ap (λ o. cons_key (record r { private_key = c }) o (load k' rows')) (opens sig.0)
      ∙ ap (cons_key r (E.decrypt k (aad r.id) r.private_key))
          (load-Resealed k k' rows rows' sig.1 hs)

  keep-signatures :
      (rows : List KeyRow) → All (λ r. r.for_signatures ≡ true) (keep is_published rows)
  unfolding keep
  keep-signatures [] = tt
  keep-signatures (r ∷ rows) = elim (Bool-cases (is_published r)) [
    | inl on ↦ rw on (ground (arith, on), keep-signatures rows)
    | inr off ↦ rw off (keep-signatures rows)
  ]

  rewrap-opens :
      (k k' : E.EncKey) (r : KeyRow) {c : E.Cipher}
      → rewrap k k' r ≡ ok c
      → E.decrypt k' (aad r.id) c ≡ E.decrypt k (aad r.id) r.private_key
  unfolding rewrap
  rewrap-opens k k' r {c} h =
      let (plain, opened, h1) = >>=-eq-ok (or_error (E.decrypt k (aad r.id) r.private_key) _) _ h in
      E.decrypt-encrypt k' (aad r.id) plain c (or_error-inv _ _ h1) ∙ sym (or_error-inv _ _ opened)
    where
      or_error-inv :
          {A : Type 0} (o : Option A) (e : KeyError) {a : A} → or_error o e ≡ ok a → o ≡ some a
      or_error-inv none e q = cc
      or_error-inv (some b) e q = ap some (ok-injective q)

  rewrapped-inv :
      (r : KeyRow) (m : Result KeyError E.Cipher) (n : Result KeyError (List KeyRow))
      {out : List KeyRow}
      → rewrapped r m n ≡ ok out
      → (c : E.Cipher) × (rows : List KeyRow) × (m ≡ ok c)
        × (n ≡ ok rows)
        × (record r { private_key = c } ∷ rows ≡ out)
  rewrapped-inv r (err e) n h = cc
  rewrapped-inv r (ok c) (err e) h = cc
  rewrapped-inv r (ok c) (ok rows) h = (c, rows, refl, refl, ok-injective h)

  resealed_when :
      (k k' : E.EncKey) (r : KeyRow) (b : Bool) {c : E.Cipher}
      → (if b then rewrap k k' r else ok r.private_key) ≡ ok c
      → b ≡ true
      → E.decrypt k' (aad r.id) c ≡ E.decrypt k (aad r.id) r.private_key
  resealed_when k k' r true h on = rewrap-opens k k' r h
  resealed_when k k' r false h on = cc

  rewrap_all-Resealed :
      (k k' : E.EncKey) (rows : List KeyRow) {rows' : List KeyRow}
      → rewrap_all k k' rows ≡ ok rows'
      → AllResealed k k' rows rows'
  unfolding rewrap_all
  rewrap_all-Resealed k k' [] h = subst (AllResealed k k' []) (ok-injective h) tt
  rewrap_all-Resealed k k' (r ∷ rows) h =
      let (c, others, sealed, did, same) =
        rewrapped-inv r (if r.for_signatures then rewrap k k' r else ok r.private_key)
          (rewrap_all k k' rows) h in
      subst (AllResealed k k' (r ∷ rows)) same
        ((c, refl, resealed_when k k' r r.for_signatures sealed), rewrap_all-Resealed k k' rows did)

  -- Changing the key-encryption key loses no key: behind a change that succeeds, over a table that the
  -- key store has read, the store holds the keys that it held, and the table opens to the same keys
  -- under the new key.
  pub reencrypt-load :
      (ks : Keystore) (rows : List KeyRow) (k' : E.EncKey) {rows' : List KeyRow} {ks' : Keystore}
      → load ks.enc_key (sort_rows (keep is_published rows)) ≡ some ks.keys
      → reencrypt ks rows k' ≡ (rows', (ks', ok tt))
      → (ks'.enc_key ≡ k')
        × (ks'.keys ≡ ks.keys)
        × (load k' (sort_rows (keep is_published rows')) ≡ some ks.keys)
  unfolding reencrypt reload
  reencrypt-load ks rows k' {rows'} {ks'} read h = elim (Bool-cases (E.is_blank k')) [
    | inl blank ↦ absurd (refused (ap (λ (q : Out). q.1.1) (rw blank at h)))
    | inr given ↦ from (rewrap_all ks.enc_key k' rows) refl (rw given at h)
  ]
    where
      Out : Type 0
      Out = List KeyRow × (Keystore × Result KeyError (Unit {0}))

      refused : {e : KeyError} → err e ≡ ok tt → ⊥
      refused q = cc q

      from :
          (m : Result KeyError (List KeyRow))
          → rewrap_all ks.enc_key k' rows ≡ m
          → reencrypted ks rows k' m ≡ (rows', (ks', ok tt))
          → (ks'.enc_key ≡ k')
            × (ks'.keys ≡ ks.keys)
            × (load k' (sort_rows (keep is_published rows')) ≡ some ks.keys)
      from (err e) q g = absurd (refused (ap (λ (x : Out). x.1.1) g))
      from (ok made) q g =
          let opened : load k' (sort_rows (keep is_published made)) ≡ some ks.keys =
            load-Resealed ks.enc_key k' (sort_rows (keep is_published rows))
              (sort_rows (keep is_published made))
              (All-sort (λ r. r.for_signatures ≡ true) (keep is_published rows)
                (keep-signatures rows))
              (sort_rows-Resealed ks.enc_key k' (keep is_published rows) (keep is_published made)
                (keep-Resealed ks.enc_key k' rows made (rewrap_all-Resealed ks.enc_key k' rows q)))
            ∙ read in
          let store = store_of opened (ap (λ (x : Out). x.1) g) in
          (
            store.0,
            store.1,
            ap (λ l. load k' (sort_rows (keep is_published l))) (sym (ap (λ (x : Out). x.0) g))
                ∙ opened,
          )
        where
          store_of :
              {o : Option (List Key)}
              → o ≡ some ks.keys
              → or_keep (record ks { enc_key = k' }) tt (with_keys (record ks { enc_key = k' }) o)
                ≡ (ks', ok tt)
              → (ks'.enc_key ≡ k') × (ks'.keys ≡ ks.keys)
          store_of {o = none} e g' = absurd (cc e)
          store_of {o = some keys} e g' =
              let store = ap (λ (x : Keystore × Result KeyError (Unit {0})). x.0) g' in
              (
                sym (ap (λ (x : Keystore). x.enc_key) store),
                sym (ap (λ (x : Keystore). x.keys) store) ∙ some-injective _ _ e,
              )
