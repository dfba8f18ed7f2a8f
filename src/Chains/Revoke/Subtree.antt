-- ===== src/Chains/Revoke/Subtree.antt =====
-- What a tree revocation reaches: the root, every delegation below it, and their tokens.
use mathlib.Core.Path.{subst}
use mathlib.Core.Option.{some-injective}
use legant.Base.{
  ℕ, zero, suc, ◌≤◌, String, ◌≡◌, refl, sym, ap, ◌∙◌, Bool, true, false, not, ◌&&◌, ◌||◌, List, [],
  ◌∷◌, Option, none, some, arith, eq_iff, Bool-cases, Option-cases, inl, inr, ◌==◌, string_eq,
  contains, contains-append, any, keep, length, All, All-imp,
}
use legant.Base.Result.{ok, reject_if-eq-ok, ok-injective}
use legant.World.{World}
use legant.Database.{ChainRow, TokenRow, Database, find_chain, find_live, keep_live}
use legant.Revocation.{revoke_where, find_token, is_active, row_active}
use legant.Revocation.Laws.{is_active-revoke_where}
use legant.Chains.{not_owned}
use legant.Chains.Sound.{find_chain-id}
use legant.Chains.Latest.{HasUniqueIds}
use legant.Chains.Revoke.{
  has_parent_in, minted_from, children, tree, subtree, deactivate_if, deactivate, owned,
  revoke_delegation_tree,
}

module _ ⦃W : World⦄ where
  -- The row of an id stands in the table below the row of another, some steps down.
  pub data Below (rows : List ChainRow) (id : String) : ℕ → String → Type 0 where
    itself : Below rows id zero id
    step :
        {n : ℕ} {pid : String} (r : ChainRow)
        → Below rows id n pid
        → find_chain rows r.id ≡ some r
        → r.parent_id ≡ some pid
        → Below rows id (suc n) r.id

  contains-children :
      (rows : List ChainRow) (ids : List String) (r : ChainRow) (pid : String)
      → find_chain rows r.id ≡ some r
      → r.parent_id ≡ some pid
      → contains ids pid ≡ true
      → contains (children rows ids) r.id ≡ true
  unfolding children contains keep find_chain
  contains-children [] ids r pid at up held = absurd (ground arith)
  contains-children (x ∷ rows) ids r pid at up held = elim (Bool-cases (x.id == r.id)) [
    | inl same ↦
        let parented : has_parent_in ids x.parent_id ≡ true =
          rw (ap (λ (k : ChainRow). k.parent_id) (some-injective x r (rw same at at)) ∙ up) held in
        rw parented (ground (arith, same))
    | inr other ↦ ground (arith, contains-children rows ids r pid (rw other at at) up held)
  ]

  tree-start :
      (n : ℕ) (rows : List ChainRow) (ids : List String) (x : String)
      → contains ids x ≡ true
      → contains (tree n rows ids) x ≡ true
  unfolding tree
  tree-start zero rows ids x h = h
  tree-start (suc n) rows ids x h =
      ground (arith, contains-append ids (tree n rows (children rows ids)) x)

  -- One round more reaches the children of what was reached.
  tree_step :
      (n : ℕ) (rows : List ChainRow) (ids : List String) (r : ChainRow) (pid : String)
      → find_chain rows r.id ≡ some r
      → r.parent_id ≡ some pid
      → contains (tree n rows ids) pid ≡ true
      → contains (tree (suc n) rows ids) r.id ≡ true
  unfolding tree
  tree_step zero rows ids r pid at up h = ground (
    arith,
    contains-append ids (children rows ids) r.id,
    contains-children rows ids r pid at up h,
  )
  tree_step (suc n) rows ids r pid at up h =
      let below = children rows ids in
      let deeper = tree_step n rows below r pid at up in
      let known = contains-children rows ids r pid at up in
      ground (
        arith,
        contains-append ids (tree (suc n) rows below) r.id,
        contains-append ids (tree n rows below) pid,
        deeper,
        known,
        tree-start (suc n) rows below r.id,
      )

  tree_grow :
      (n m : ℕ) (rows : List ChainRow) (ids : List String) (x : String)
      → n ≤ m
      → contains (tree n rows ids) x ≡ true
      → contains (tree m rows ids) x ≡ true
  tree_grow zero m rows ids x le h = tree-start m rows ids x (unfold tree in h)
  tree_grow (suc n) zero rows ids x le h = absurd (omega arith)
  tree_grow (suc n) (suc m) rows ids x le h = ground (
    arith,
    tree_suc n rows ids x,
    tree_suc m rows ids x,
    tree_grow n m rows (children rows ids) x (omega arith),
    h,
  )
    where
      tree_suc :
          (k : ℕ) (rows : List ChainRow) (ids : List String) (x : String)
          → contains (tree (suc k) rows ids) x
            ≡ (contains ids x || contains (tree k rows (children rows ids)) x)
      tree_suc k rows ids x = unfold tree in contains-append ids (tree k rows (children rows ids)) x

  Below-tree :
      (rows : List ChainRow) (id : String) (n : ℕ) (x : String)
      → Below rows id n x
      → contains (tree n rows (id ∷ [])) x ≡ true
  Below-tree rows id zero x itself = unfold tree contains in ground (arith, eq_iff id id)
  Below-tree rows id (suc n) x (step {pid = pid} r b at up) =
      tree_step n rows (id ∷ []) r pid at up (Below-tree rows id n pid b)

  -- The row below, by the table alone.
  abbrev pub Descends : List ChainRow → String → String → Type 0
  Descends rows id x = (n : ℕ) × Below rows id n x

  unique-found :
      (rows : List ChainRow) → HasUniqueIds rows → All (λ r. find_chain rows r.id ≡ some r) rows
  unfolding find_chain
  unique-found [] u = tt
  unique-found (x ∷ rows) u =
      (ground (arith, eq_iff x.id x.id), All-imp rows (found x u.0) (unique-found rows u.1))
    where
      found :
          (x : ChainRow)
          → find_chain rows x.id ≡ none
          → (r : ChainRow) → find_chain rows r.id ≡ some r
          → find_chain (x ∷ rows) r.id ≡ some r
      found x free r at = elim (Bool-cases (x.id == r.id)) [
        | inl same ↦
            absurd (clash (sym free ∙ ap (find_chain rows) ((eq_iff x.id r.id).0 same) ∙ at))
        | inr other ↦ rw other at
      ]
        where
          clash : {r : ChainRow} → none ≡ some r → ⊥
          clash e = cc e

  parent_listed :
      (ids : List String) (o : Option String)
      → has_parent_in ids o ≡ true
      → (pid : String) × (o ≡ some pid) × (contains ids pid ≡ true)
  parent_listed ids none h = absurd (ground arith)
  parent_listed ids (some pid) h = (pid, refl, h)

  -- A child of ids that are all below the root is below the root.
  children-Descends :
      (all rows : List ChainRow) (id : String) (ids : List String) (x : String)
      → ((y : String) → contains ids y ≡ true → Descends all id y)
      → All (λ r. find_chain all r.id ≡ some r) rows
      → contains (children rows ids) x ≡ true
      → Descends all id x
  unfolding children contains keep
  children-Descends all [] id ids x above found h = absurd (ground arith)
  children-Descends all (r ∷ rows) id ids x above found h =
      let later = children-Descends all rows id ids x above found.1 in
      elim (Bool-cases (has_parent_in ids r.parent_id)) [
        | inr other ↦ later (rw other at h)
        | inl parented ↦ elim (Bool-cases (r.id == x)) [
          | inr elsewhere ↦ later (rw elsewhere at (rw parented at h))
          | inl same ↦
              let (pid, up, held) = parent_listed ids r.parent_id parented in
              let (n, below) = above pid held in
              subst (Descends all id) ((eq_iff r.id x).0 same) (suc n, step r below found.0 up)
        ]
      ]

  -- What the rounds collect stands below the root.
  tree-Descends :
      (n : ℕ) (rows : List ChainRow) (id : String) (ids : List String) (x : String)
      → HasUniqueIds rows
      → ((y : String) → contains ids y ≡ true → Descends rows id y)
      → contains (tree n rows ids) x ≡ true
      → Descends rows id x
  unfolding tree
  tree-Descends zero rows id ids x unique above h = above x h
  tree-Descends (suc n) rows id ids x unique above h =
      let next = children rows ids in
      let either = sym (contains-append ids (tree n rows next) x) ∙ h in
      elim (Bool-cases (contains ids x)) [
        | inl now ↦ above x now
        | inr later ↦
            tree-Descends n rows id next x unique
              (λ y m. children-Descends rows rows id ids y above (unique-found rows unique) m)
              (rw later at either)
      ]

  root-Descends :
      (rows : List ChainRow) (id y : String) → contains (id ∷ []) y ≡ true → Descends rows id y
  unfolding contains
  root-Descends rows id y h =
      subst (Descends rows id) ((eq_iff id y).0 (ground (arith, h))) (zero, itself)

  outside :
      (rows : List ChainRow) (id y : String)
      → HasUniqueIds rows
      → ¬ (Descends rows id y)
      → contains (subtree rows id) y ≡ false
  outside rows id y unique out = elim (Bool-cases (contains (subtree rows id) y)) [
    | inr no_part ↦ no_part
    | inl part ↦
        absurd (
          out (tree-Descends (length rows) rows id (id ∷ []) y unique (root-Descends rows id) part))
  ]

  deactivate-id : (b : Bool) (k : ChainRow) → (deactivate_if b k).id ≡ k.id
  deactivate-id b k = elim (Bool-cases (b && k.active)) [ inl on ↦ rw on | inr off ↦ rw off ]

  abbrev deactivate_found : List String → Option ChainRow → Option ChainRow
  deactivate_found ids none = none
  deactivate_found ids (some r) = some (deactivate_if (contains ids r.id) r)

  find-deactivate :
      (ids : List String) (rows : List ChainRow) (id : String)
      → find_chain (deactivate ids rows) id ≡ deactivate_found ids (find_chain rows id)
  unfolding find_chain deactivate
  find-deactivate ids [] id = refl
  find-deactivate ids (r ∷ rows) id = elim (Bool-cases (r.id == id)) [
    | inl same ↦ rw (deactivate-id (contains ids r.id) r, same)
    | inr other ↦ rw (deactivate-id (contains ids r.id) r, other) (find-deactivate ids rows id)
  ]

  -- A row whose id is listed is not live behind the update; any other row is as it was.
  dead :
      (ids : List String) (rows : List ChainRow) (later : ℕ) (id : String)
      → contains ids id ≡ true
      → find_live (deactivate ids rows) later id ≡ none
  unfolding find_live
  dead ids rows later id h = elim (Option-cases (find_chain rows id)) [
    | inl gone ↦ rw (find-deactivate, gone)
    | inr (r, at) ↦
        rw (find-deactivate, at)
          (inactive r (subst (λ k. contains ids k ≡ true) (sym (find_chain-id rows id r at)) h))
  ]
    where
      inactive :
          (r : ChainRow)
          → contains ids r.id ≡ true
          → keep_live later (some (deactivate_if (contains ids r.id) r)) ≡ none
      inactive r e = rw e (by_active r.active refl)
        where
          by_active :
              (b : Bool) → r.active ≡ b → keep_live later (some (deactivate_if true r)) ≡ none
          by_active true on = ground (arith, on)
          by_active false off = ground (arith, off)

  spared :
      (ids : List String) (rows : List ChainRow) (id : String)
      → contains ids id ≡ false
      → find_chain (deactivate ids rows) id ≡ find_chain rows id
  spared ids rows id h = elim (Option-cases (find_chain rows id)) [
    | inl gone ↦ rw (find-deactivate, gone)
    | inr (r, at) ↦
        rw (find-deactivate, at)
          (kept r (subst (λ k. contains ids k ≡ false) (sym (find_chain-id rows id r at)) h))
  ]
    where
      kept : (r : ChainRow) → contains ids r.id ≡ false → deactivate_found ids (some r) ≡ some r
      kept r e = rw e

  -- What `RevokeDelegationTree` leaves behind.
  pub record TreeRevoked (db db' : Database) (now : ℕ) (id user : String) : Type 0 where
    pub by_owner : any (owned id user) db.chains ≡ true
    pub delegations_dead :
        (n later : ℕ) (x : String)
        → Below db.chains id n x
        → n ≤ length db.chains
        → find_live db'.chains later x ≡ none
    pub tokens_dead :
        (n later : ℕ) (x jti : String) (t : TokenRow)
        → Below db.chains id n x
        → n ≤ length db.chains
        → find_token db.tokens jti ≡ some t
        → t.delegation_id ≡ some x
        → is_active db'.tokens later jti ≡ false
    pub others_kept :
        (y : String)
        → ¬ (Descends db.chains id y)
        → find_chain db'.chains y ≡ find_chain db.chains y
    pub tokens_kept :
        (later : ℕ) (jti : String) (t : TokenRow)
        → find_token db.tokens jti ≡ some t
        → ((y : String) → t.delegation_id ≡ some y → ¬ (Descends db.chains id y))
        → is_active db'.tokens later jti ≡ is_active db.tokens later jti

  revoked_token :
      (ids : List String) (tokens : List TokenRow) (now later : ℕ) (x jti : String) (t : TokenRow)
      → contains ids x ≡ true
      → find_token tokens jti ≡ some t
      → t.delegation_id ≡ some x
      → is_active (revoke_where now (minted_from ids) tokens) later jti ≡ false
  revoked_token ids tokens now later x jti t h at of =
      ground (arith, is_active-revoke_where now later (minted_from ids) tokens jti, at, of, h)

  active-row :
      (tokens : List TokenRow) (later : ℕ) (jti : String) (t : TokenRow)
      → find_token tokens jti ≡ some t
      → is_active tokens later jti ≡ row_active later (some t)
  unfolding is_active
  active-row tokens later jti t at = rw at

  -- A token that was minted from no listed delegation stays as it was.
  spared_token :
      (ids : List String) (tokens : List TokenRow) (now later : ℕ) (jti : String) (t : TokenRow)
      → find_token tokens jti ≡ some t
      → ((y : String) → t.delegation_id ≡ some y → contains ids y ≡ false)
      → is_active (revoke_where now (minted_from ids) tokens) later jti ≡ is_active tokens later jti
  spared_token ids tokens now later jti t at none_listed =
      let untouched = unlisted t.delegation_id none_listed in
      ground (
        arith,
        is_active-revoke_where now later (minted_from ids) tokens jti,
        at,
        untouched,
        active-row tokens later jti t at,
      )
    where
      unlisted :
          (o : Option String)
          → ((y : String) → o ≡ some y → contains ids y ≡ false)
          → has_parent_in ids o ≡ false
      unlisted none h = refl
      unlisted (some y) h = h y refl

  module _ (db : Database) (now : ℕ) (id user : String) where
    revoke-inv :
        {db' : Database} {a b : ℕ}
        → revoke_delegation_tree db now id user ≡ ok (db', a, b)
        → (any (owned id user) db.chains ≡ true)
          × (deactivate (subtree db.chains id) db.chains ≡ db'.chains)
          × (revoke_where now (minted_from (subtree db.chains id)) db.tokens ≡ db'.tokens)
    unfolding revoke_delegation_tree
    revoke-inv h =
        let (mine, e) = reject_if-eq-ok (not (any (owned id user) db.chains)) not_owned _ h in
        let same = ok-injective e in
        (
          ground (arith, mine),
          ap (λ (r : Database × ℕ × ℕ). r.0.chains) same,
          ap (λ (r : Database × ℕ × ℕ). r.0.tokens) same,
        )

    -- In a table without repeated ids, a revocation that succeeds was asked for by the user who granted
    -- the delegation; behind it no delegation that descends from it through parent links (within as many
    -- steps as the table has rows) is live at any instant and no token minted from one is active, and
    -- every delegation that does not descend from it, and every token minted from none that does, is as
    -- it was.
    pub revoke-TreeRevoked :
        {db' : Database} {a b : ℕ}
        → HasUniqueIds db.chains
        → revoke_delegation_tree db now id user ≡ ok (db', a, b)
        → TreeRevoked db db' now id user
    revoke-TreeRevoked {db'} unique h =
        let (mine, chains, tokens) = revoke-inv h in
        let ids = subtree db.chains id in
        let reached =
          λ (n : ℕ) (x : String) (w : Below db.chains id n x) (le : n ≤ length db.chains).
            tree_grow n (length db.chains) db.chains (id ∷ []) x le
              (Below-tree db.chains id n x w) in
        record {
          by_owner = mine;
          delegations_dead = λ n later x w le.
              subst (λ (c : List ChainRow). find_live c later x ≡ none) chains
                (dead ids db.chains later x (reached n x w le));
          tokens_dead = λ n later x jti t w le at of.
              subst (λ (k : List TokenRow). is_active k later jti ≡ false) tokens
                (revoked_token ids db.tokens now later x jti t (reached n x w le) at of);
          others_kept = λ y out.
              subst (λ (c : List ChainRow). find_chain c y ≡ find_chain db.chains y) chains
                (spared ids db.chains y (outside db.chains id y unique out));
          tokens_kept = λ later jti t at out.
              subst (λ (k : List TokenRow). is_active k later jti ≡ is_active db.tokens later jti)
                tokens
                (spared_token ids db.tokens now later jti t at
                  (λ y of. outside db.chains id y unique (out y of)));
        }
