-- ===== src/Chains/Sound.antt =====
-- The invariant of the table of delegations: a row gives no more than its parent row.
use mathlib.Core.Path.{subst}
use mathlib.Core.Option.{some-injective}
use legant.Base.{
  ℕ, String, ◌≡◌, sym, ap, ◌∙◌, true, List, [], ◌∷◌, Option, none, some, arith, eq_iff, Bool-cases,
  inl, inr, ◌==◌, string_eq,
}
use legant.World.{World}
use legant.Delegation.AllowList.{is_subset}
use legant.Delegation.Constraints.{Action, permit}
use legant.Delegation.Constraints.Laws.{IsWellFormed}
use legant.Database.{ChainRow, find_chain, find_live, keep_live, live}

module _ ⦃W : World⦄ where
  -- What a row may do its parent row may do, for an agent of the parent.
  pub record RowWithin (r p : ChainRow) : Type 0 where
    pub scopes : is_subset r.scopes p.scopes ≡ true
    pub permits :
        (now : ℕ) (a : Action)
        → permit now r.constraints a ≡ none
        → permit now p.constraints a ≡ none
    pub by_agent : r.delegator_type ≡ "agent"
    pub by_holder : r.delegator_id ≡ p.delegatee

  pub record RowSound (rows : List ChainRow) (r : ChainRow) : Type 0 where
    pub well_formed : IsWellFormed r.constraints
    pub within :
        (pid : String)
        → r.parent_id ≡ some pid
        → (p : ChainRow) × (find_chain rows pid ≡ some p) × RowWithin r p

  -- Every stored row is sound.
  pub record IsSound (rows : List ChainRow) : Type 0 where
    pub row : (id : String) (r : ChainRow) → find_chain rows id ≡ some r → RowSound rows r

  nothing-found : (id : String) (r : ChainRow) → find_chain [] id ≡ some r → ⊥
  unfolding find_chain
  nothing-found id r h = cc

  -- An empty table is sound.
  pub IsSound-nil : IsSound []
  IsSound-nil = record { row = λ id r h. absurd (nothing-found id r h) }

  -- A fresh row hides no row that was found.
  pub find-insert_old :
      (rows : List ChainRow) (n : ChainRow) (id : String) (r : ChainRow)
      → find_chain rows n.id ≡ none
      → find_chain rows id ≡ some r
      → find_chain (n ∷ rows) id ≡ some r
  unfolding find_chain
  find-insert_old rows n id r fresh h = elim (Bool-cases (n.id == id)) [
    | inl same ↦
        absurd (clash (subst (λ k. find_chain rows k ≡ none) ((eq_iff n.id id).0 same) fresh))
    | inr other ↦ rw other h
  ]
    where
      clash : find_chain rows id ≡ none → ⊥
      clash e = cc (e, h)

  RowSound-insert :
      {rows : List ChainRow} {r : ChainRow} (n : ChainRow)
      → find_chain rows n.id ≡ none
      → RowSound rows r
      → RowSound (n ∷ rows) r
  RowSound-insert {rows} n fresh s = record {
    well_formed = s.well_formed;
    within = λ pid e.
        let (p, at, inside) = s.within pid e in (p, find-insert_old rows n pid p fresh at, inside);
  }

  -- Inserting a sound row under a fresh id keeps the table sound.
  pub insert-IsSound :
      (rows : List ChainRow) (n : ChainRow)
      → find_chain rows n.id ≡ none
      → IsSound rows
      → RowSound rows n
      → IsSound (n ∷ rows)
  unfolding find_chain
  insert-IsSound rows n fresh sound s = record {
    row = λ id r h. elim (Bool-cases (n.id == id)) [
      | inl same ↦ subst (RowSound (n ∷ rows)) (first id r same h) (RowSound-insert n fresh s)
      | inr other ↦ RowSound-insert n fresh (sound.row id r (rw other at h))
    ];
  }
    where
      first :
          (id : String) (r : ChainRow)
          → (n.id == id) ≡ true
          → find_chain (n ∷ rows) id ≡ some r
          → n ≡ r
      first id r same h = some-injective n r (rw same at h)

  keep_live-inv :
      (o : Option ChainRow) (now : ℕ) (r : ChainRow)
      → keep_live now o ≡ some r
      → (o ≡ some r) × (live now r ≡ true)
  keep_live-inv none now r h = absurd (ground arith)
  keep_live-inv (some x) now r h = elim (Bool-cases (live now x)) [
    | inl on ↦ (rw on at h, subst (λ k. live now k ≡ true) (some-injective x r (rw on at h)) on)
    | inr off ↦ absurd (no_row (rw off at h))
  ]
    where
      no_row : none ≡ some r → ⊥
      no_row e = cc

  -- A live row is a stored row.
  pub find_live-inv :
      (rows : List ChainRow) (now : ℕ) (id : String) (r : ChainRow)
      → find_live rows now id ≡ some r
      → (find_chain rows id ≡ some r) × (live now r ≡ true)
  unfolding find_live
  find_live-inv rows now id r h = keep_live-inv (find_chain rows id) now r h

  pub find_chain-id :
      (rows : List ChainRow) (id : String) (r : ChainRow) → find_chain rows id ≡ some r → r.id ≡ id
  unfolding find_chain
  find_chain-id [] id r h = absurd (ground arith)
  find_chain-id (x ∷ rows) id r h = elim (Bool-cases (x.id == id)) [
    | inl same ↦
        ap (λ (k : ChainRow). k.id) (sym (some-injective x r (rw same at h)))
        ∙ (eq_iff x.id id).0 same
    | inr other ↦ find_chain-id rows id r (rw other at h)
  ]
