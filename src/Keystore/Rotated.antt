-- ===== src/Keystore/Rotated.antt =====
-- Rotation publishes a new key and keeps the old ones; retirement spares the key that signs.
use mathlib.Core.Path.{subst}
use legant.Base.{
  ℕ, suc, ◌<◌, pos, ltb_ℤ, shift, String, ◌≡◌, ◌≢◌, refl, sym, ap, ◌∙◌, Bool, true, false, not,
  ◌&&◌, List, [], ◌∷◌, Option, none, some, ◌==◌, string_eq, nat_eq, eq_iff, arith, keep, length,
  map, All, All-imp, All-keep, Bool-cases, inl, inr, if◌then◌else◌,
}
use legant.Base.Result.{Result, ok, err, >>=-eq-ok, reject_if-eq-ok, ok-injective}
use legant.World.{World}
use legant.Delegation.Jwt.{Jwt}
use legant.Database.{is_some}
use legant.Keystore.{
  KeyError, aad, Envelope, KeyRow, Key, Keystore, newer, insert_row, sort_rows, is_published,
  key_of, cons_key, load, with_keys, reload, active_kid, active_signer, public_of, verifier_keys,
  has_id, or_error, generate, retire, scheduled, or_keep, rotated, rotate,
}

module _ ⦃W : World⦄ ⦃J : Jwt⦄ ⦃E : Envelope⦄ where
  -- A change of rows that keeps what the order and the load of keys read.
  record Keeps (f : KeyRow → KeyRow) : Type 0 where
    keeps_order : (r s : KeyRow) → newer (f r) (f s) ≡ newer r s
    keeps_published : (r : KeyRow) → is_published (f r) ≡ is_published r
    keeps_id : (r : KeyRow) → (f r).id ≡ r.id
    keeps_key : (r : KeyRow) → (f r).private_key ≡ r.private_key

  map-if :
      (f : KeyRow → KeyRow) (b : Bool) (xs ys : List KeyRow)
      → map f (if b then xs else ys) ≡ (if b then map f xs else map f ys)
  map-if f true xs ys = refl
  map-if f false xs ys = refl

  insert_row-map :
      (f : KeyRow → KeyRow)
      → Keeps f
      → (r : KeyRow) (rows : List KeyRow)
      → insert_row (f r) (map f rows) ≡ map f (insert_row r rows)
  unfolding insert_row
  insert_row-map f k r [] = refl
  insert_row-map f k r (s ∷ rows) = elim (Bool-cases (newer r s)) [
    | inl first ↦ rw first (rw (k.keeps_order r s ∙ first) refl)
    | inr later ↦
        rw later (rw (k.keeps_order r s ∙ later) (ap (λ l. f s ∷ l) (insert_row-map f k r rows)))
  ]

  sort_rows-map :
      (f : KeyRow → KeyRow)
      → Keeps f
      → (rows : List KeyRow) → sort_rows (map f rows) ≡ map f (sort_rows rows)
  unfolding sort_rows
  sort_rows-map f k [] = refl
  sort_rows-map f k (r ∷ rows) =
      ap (insert_row (f r)) (sort_rows-map f k rows) ∙ insert_row-map f k r (sort_rows rows)

  keep-map :
      (f : KeyRow → KeyRow)
      → Keeps f
      → (rows : List KeyRow) → keep is_published (map f rows) ≡ map f (keep is_published rows)
  unfolding keep
  keep-map f k [] = refl
  keep-map f k (r ∷ rows) = elim (Bool-cases (is_published r)) [
    | inl on ↦ rw on (rw (k.keeps_published r ∙ on) (ap (λ l. f r ∷ l) (keep-map f k rows)))
    | inr off ↦ rw off (rw (k.keeps_published r ∙ off) (keep-map f k rows))
  ]

  -- The public keys of two loads agree.
  abbrev SameKeys : Option (List Key) → Option (List Key) → Type 0
  SameKeys none b = b ≡ none
  SameKeys (some keys) none = ⊥
  SameKeys (some keys) (some keys') = (kid : String) → public_of keys' kid ≡ public_of keys kid

  cons-SameKeys :
      (r s : KeyRow) (p : Option J.PrivateKey) (a b : Option (List Key))
      → s.id ≡ r.id
      → SameKeys a b
      → SameKeys (cons_key r p a) (cons_key s p b)
  unfolding public_of
  cons-SameKeys r s none a b e h = refl
  cons-SameKeys r s (some p) none b e h = rw h refl
  cons-SameKeys r s (some p) (some keys) none e h = absurd h
  cons-SameKeys r s (some p) (some keys) (some keys') e h = λ kid. rw (e, h kid) refl

  load-map :
      (f : KeyRow → KeyRow)
      → Keeps f
      → (k : E.EncKey) (rows : List KeyRow) → SameKeys (load k rows) (load k (map f rows))
  unfolding load
  load-map f keeps k [] = λ kid. refl
  load-map f keeps k (r ∷ rows) =
      let same : E.decrypt k (aad (f r).id) (f r).private_key
          ≡ E.decrypt k (aad r.id) r.private_key =
        ap (λ i. E.decrypt k (aad i) (f r).private_key) (keeps.keeps_id r)
        ∙ ap (E.decrypt k (aad r.id)) (keeps.keeps_key r) in
      subst (λ p. SameKeys (load k (r ∷ rows)) (cons_key (f r) p (load k (map f rows)))) (sym same)
        (cons-SameKeys r (f r) (E.decrypt k (aad r.id) r.private_key) (load k rows)
          (load k (map f rows)) (keeps.keeps_id r) (load-map f keeps k rows))

  retire-Keeps : (prev : String) (at : ℕ) → Keeps (retire prev at)
  unfolding retire
  retire-Keeps prev at = record {
    keeps_order = λ r s.
        order r s (r.id == prev && not (is_some r.expires_at))
          (s.id == prev && not (is_some s.expires_at));
    keeps_published = λ r. published r (r.id == prev && not (is_some r.expires_at));
    keeps_id = λ r. same_id r (r.id == prev && not (is_some r.expires_at));
    keeps_key = λ r. same_key r (r.id == prev && not (is_some r.expires_at));
  }
    where
      order :
          (r s : KeyRow) (b c : Bool)
          → newer
              (if b then record r { expires_at = some at } else r)
              (if c then record s { expires_at = some at } else s)
            ≡ newer r s
      order r s true true = refl
      order r s true false = refl
      order r s false true = refl
      order r s false false = refl

      published :
          (r : KeyRow) (b : Bool)
          → is_published (if b then record r { expires_at = some at } else r) ≡ is_published r
      published r true = refl
      published r false = refl

      same_id :
          (r : KeyRow) (b : Bool) → (if b then record r { expires_at = some at } else r).id ≡ r.id
      same_id r true = refl
      same_id r false = refl

      same_key :
          (r : KeyRow) (b : Bool)
          → (if b then record r { expires_at = some at } else r).private_key ≡ r.private_key
      same_key r true = refl
      same_key r false = refl

  same-Keeps : Keeps (λ r. r)
  same-Keeps = record {
    keeps_order = λ r s. refl;
    keeps_published = λ r. refl;
    keeps_id = λ r. refl;
    keeps_key = λ r. refl;
  }

  map-id : (rows : List KeyRow) → map (λ r. r) rows ≡ rows
  map-id [] = refl
  map-id (r ∷ rows) = ap (λ l. r ∷ l) (map-id rows)

  -- The rows behind the scheduling are the rows before it, each with its key, its order and its state.
  scheduled-Keeps :
      (ks : Keystore) (now : ℕ) (rows : List KeyRow)
      → (f : KeyRow → KeyRow) × Keeps f × (scheduled ks now rows ≡ map f rows)
  scheduled-Keeps ks now rows = from (not (active_kid ks == "") && ltb_ℤ (pos 0) ks.overlap)
    where
      from :
          (b : Bool)
          → (f : KeyRow → KeyRow) × Keeps f
            × ((if b then map (retire (active_kid ks) (shift now ks.overlap)) rows else rows)
                ≡ map f rows)
      from true = (
        retire (active_kid ks) (shift now ks.overlap),
        retire-Keeps (active_kid ks) (shift now ks.overlap),
        refl,
      )
      from false = ((λ r. r), same-Keeps, sym (map-id rows))

  All-insert :
      (P : KeyRow → Type 0) (r : KeyRow) (rows : List KeyRow)
      → P r
      → All P rows
      → All P (insert_row r rows)
  unfolding insert_row
  All-insert P r [] h hs = (h, tt)
  All-insert P r (s ∷ rows) h hs = elim (Bool-cases (newer r s)) [
    | inl first ↦ rw first (h, hs)
    | inr later ↦ rw later (hs.0, All-insert P r rows h hs.1)
  ]

  pub All-sort : (P : KeyRow → Type 0) (rows : List KeyRow) → All P rows → All P (sort_rows rows)
  unfolding sort_rows
  All-sort P [] h = tt
  All-sort P (r ∷ rows) h = All-insert P r (sort_rows rows) h.0 (All-sort P rows h.1)

  insert-first :
      (r : KeyRow) (rows : List KeyRow)
      → All (λ s. newer r s ≡ true) rows
      → insert_row r rows ≡ r ∷ rows
  unfolding insert_row
  insert-first r [] h = refl
  insert-first r (s ∷ rows) h = rw (h.0) refl

  -- A row that is newer than all the others is loaded first.
  sort-newest :
      (r : KeyRow) (rows : List KeyRow)
      → All (λ s. newer r s ≡ true) rows
      → sort_rows (r ∷ rows) ≡ r ∷ sort_rows rows
  unfolding sort_rows
  sort-newest r rows h = insert-first r (sort_rows rows) (All-sort (λ s. newer r s ≡ true) rows h)

  abbrev new_row : String → E.Cipher → ℕ → KeyRow
  new_row kid enc now = record {
    id = kid;
    private_key = enc;
    for_signatures = true;
    active = true;
    created_at = now;
    expires_at = none;
  }

  -- What a key that was generated is.
  record Generated (ks : Keystore) (rows : List KeyRow) (now : ℕ) (fresh : Option J.PrivateKey)
      (rows' : List KeyRow) (kid : String) : Type 0 where
    priv : J.PrivateKey
    given : fresh ≡ some priv
    enc : E.Cipher
    opens : E.decrypt ks.enc_key (aad kid) enc ≡ some priv
    new_id : All (λ r. r.id ≢ kid) rows
    added : rows' ≡ new_row kid enc now ∷ rows

  or_error-inv :
      {A : Type 0} (o : Option A) (e : KeyError) {a : A} → or_error o e ≡ ok a → o ≡ some a
  or_error-inv none e h = cc
  or_error-inv (some b) e h = ap some (ok-injective h)

  absent :
      (kid : String) (rows : List KeyRow)
      → (length (keep (has_id kid) rows) == 0) ≡ true
      → All (λ r. r.id ≢ kid) rows
  unfolding keep
  absent kid [] h = tt
  absent kid (r ∷ rows) h = elim (Bool-cases (r.id == kid)) [
    | inl same ↦ absurd (none_kept (length (keep (has_id kid) rows)) (rw same at h))
    | inr other ↦ (λ e. clash (sym other ∙ (eq_iff r.id kid).1 e), absent kid rows (rw other at h))
  ]
    where
      none_kept : (n : ℕ) → (suc n == 0) ≡ true → ⊥
      none_kept n k = ground arith

      clash : false ≡ true → ⊥
      clash k = cc k

  generate-Generated :
      (ks : Keystore) (rows : List KeyRow) (now : ℕ) (fresh : Option J.PrivateKey)
      (random_hex : Option String) {made : List KeyRow × String}
      → generate ks rows now fresh random_hex ≡ ok made
      → Generated ks rows now fresh made.0 made.1
  unfolding generate
  generate-Generated ks rows now fresh random_hex h =
      let (p, given, h1) = >>=-eq-ok (or_error fresh _) _ h in
      let (rnd, drawn, h2) = >>=-eq-ok (or_error random_hex _) _ h1 in
      let (c, sealed, h3) = >>=-eq-ok (or_error _ _) _ h2 in
      let (single, h4) = reject_if-eq-ok _ _ _ h3 in
      subst (λ (m : List KeyRow × String). Generated ks rows now fresh m.0 m.1) (ok-injective h4)
        (record {
          priv = p;
          given = or_error-inv _ _ given;
          enc = c;
          opens = E.decrypt-encrypt ks.enc_key _ p c (or_error-inv _ _ sealed);
          new_id = absent _ rows (ground (arith, single));
          added = refl;
        })

  -- The key store behind a rotation, against the one before.
  pub record Rotated (ks : Keystore) (rows : List KeyRow) (fresh : Option J.PrivateKey)
      (ks' : Keystore) (kid : String) : Type 0 where
    pub signs_with_new : active_kid ks' ≡ kid
    pub key : J.PrivateKey
    pub is_fresh : fresh ≡ some key
    pub signer_new : active_signer ks' ≡ some key
    pub published_new : verifier_keys ks' kid ≡ some (J.public_key key)
    pub published_old : (k : String) → k ≢ kid → verifier_keys ks' k ≡ verifier_keys ks k
    pub new_id : All (λ r. r.id ≢ kid) rows

  abbrev Fresh : Keystore → Key → (Result KeyError Keystore) → Type 0
  Fresh ks key (err e) = Unit
  Fresh ks key (ok ks') =
      (active_kid ks' ≡ key.id)
      × (active_signer ks' ≡ some key.private)
      × (verifier_keys ks' key.id ≡ some (J.public_key key.private))
      × ((k : String) → k ≢ key.id → verifier_keys ks' k ≡ verifier_keys ks k)

  with_keys-Fresh :
      (ks : Keystore) (r : KeyRow) (p : J.PrivateKey) (o : Option (List Key))
      → SameKeys (some ks.keys) o
      → Fresh ks (key_of r p) (with_keys ks (cons_key r (some p) o))
  unfolding active_kid active_signer verifier_keys public_of
  with_keys-Fresh ks r p none h = absurd h
  with_keys-Fresh ks r p (some keys) h =
      (refl, refl, ground (arith, eq_iff r.id r.id), λ k ne. other k ne)
    where
      differ : (k : String) → k ≢ r.id → (r.id == k) ≡ false
      differ k ne = ground (arith, eq_iff r.id k, ne)

      other : (k : String) → k ≢ r.id → public_of (key_of r p ∷ keys) k ≡ public_of ks.keys k
      other k ne = unfold public_of in rw (differ k ne) (h k)

  -- What is loaded behind the insert of a newest row, and the scheduling.
  loaded :
      (f : KeyRow → KeyRow)
      → Keeps f
      → (k : E.EncKey) (kid : String) (enc : E.Cipher) (now : ℕ) (rows : List KeyRow)
        (p : J.PrivateKey)
      → E.decrypt k (aad kid) enc ≡ some p
      → All (λ s. s.created_at < now) rows
      → load k (sort_rows (keep is_published (map f (new_row kid enc now ∷ rows))))
        ≡ cons_key
            (f (new_row kid enc now))
            (some p)
            (load k (map f (sort_rows (keep is_published rows))))
  unfolding load keep
  loaded f keeps k kid enc now rows p opens older =
      let new = new_row kid enc now in
      let first = sort-newest new (keep is_published rows) (
        All-imp (keep is_published rows) (λ s h. newest_of s h)
          (All-keep (λ s. s.created_at < now) is_published rows older)) in
      ap (λ l. load k (sort_rows l)) (keep-map f keeps (new ∷ rows))
      ∙ ap (load k) (sort_rows-map f keeps (new ∷ keep is_published rows) ∙ ap (map f) first)
      ∙ ap (λ o. cons_key (f new) o (load k (map f (sort_rows (keep is_published rows)))))
          (ap (λ i. E.decrypt k (aad i) (f new).private_key) (keeps.keeps_id new)
            ∙ ap (E.decrypt k (aad kid)) (keeps.keeps_key new)
            ∙ opens)
    where
      newest_of : (s : KeyRow) → s.created_at < now → newer (new_row kid enc now) s ≡ true
      newest_of s h = ground arith

  -- A rotation that succeeds, over a table that the key store has read and whose rows are older than
  -- the rotation, signs with the new key from then on, publishes it, and publishes every other key as
  -- before.
  pub rotate-Rotated :
      (ks : Keystore) (rows : List KeyRow) (now : ℕ) (fresh : Option J.PrivateKey)
      (random_hex : Option String) {rows' : List KeyRow} {ks' : Keystore} {kid : String}
      → load ks.enc_key (sort_rows (keep is_published rows)) ≡ some ks.keys
      → All (λ s. s.created_at < now) rows
      → rotate ks rows now fresh random_hex ≡ (rows', (ks', ok kid))
      → Rotated ks rows fresh ks' kid
  unfolding rotate reload
  rotate-Rotated ks rows now fresh random_hex {rows'} {ks'} {kid} read older h =
      from (generate ks rows now fresh random_hex) refl h
    where
      at_end :
          (made_kid : String) (m : Result KeyError Keystore) (key : Key)
          (g : fresh ≡ some key.private)
          → made_kid ≡ key.id
          → All (λ r. r.id ≢ made_kid) rows
          → Fresh ks key m
          → or_keep ks made_kid m ≡ (ks', ok kid)
          → Rotated ks rows fresh ks' kid
      at_end made_kid (err e) key g i n fr k = absurd (cc k)
      at_end made_kid (ok x) key g i n fr k =
          let same : made_kid ≡ kid =
            ok-injective (ap (λ (q : Keystore × Result KeyError String). q.1) k) in
          let store : x ≡ ks' = ap (λ (q : Keystore × Result KeyError String). q.0) k in
          let named : key.id ≡ kid = sym i ∙ same in
          let (a, b, c, d) = subst (λ (y : Keystore). Fresh ks key (ok y)) store fr in
          record {
            signs_with_new = a ∙ named;
            key = key.private;
            is_fresh = g;
            signer_new = b;
            published_new = ap (verifier_keys ks') (sym named) ∙ c;
            published_old = λ j ne. d j (λ e. ne (e ∙ named));
            new_id = subst (λ (y : String). All (λ r. r.id ≢ y) rows) same n;
          }

      from :
          (m : Result KeyError (List KeyRow × String))
          → generate ks rows now fresh random_hex ≡ m
          → rotated ks rows now m ≡ (rows', (ks', ok kid))
          → Rotated ks rows fresh ks' kid
      from (err e) q k = absurd (cc k)
      from (ok made) q k =
          let g = generate-Generated ks rows now fresh random_hex q in
          let (f, keeps, same) = scheduled-Keeps ks now made.0 in
          let new = new_row made.1 g.enc now in
          let table : load ks.enc_key (sort_rows (keep is_published (scheduled ks now made.0)))
              ≡ cons_key (f new) (some g.priv)
                  (load ks.enc_key (map f (sort_rows (keep is_published rows)))) =
            ap (λ l. load ks.enc_key (sort_rows (keep is_published l))) (same ∙ ap (map f) g.added)
            ∙ loaded f keeps ks.enc_key made.1 g.enc now rows g.priv g.opens older in
          let old =
            subst (λ o. SameKeys o (load ks.enc_key (map f (sort_rows (keep is_published rows)))))
              read (load-map f keeps ks.enc_key (sort_rows (keep is_published rows))) in
          at_end made.1
            (with_keys ks
              (load ks.enc_key (sort_rows (keep is_published (scheduled ks now made.0)))))
            (key_of (f new) g.priv) g.given (sym (keeps.keeps_id new)) g.new_id
            (subst (λ o. Fresh ks (key_of (f new) g.priv) (with_keys ks o)) (sym table)
              (with_keys-Fresh ks (f new) g.priv
                (load ks.enc_key (map f (sort_rows (keep is_published rows)))) old))
            (ap (λ (x : List KeyRow × (Keystore × Result KeyError String)). x.1) k)
