-- ===== src/Chains/Latest.antt =====
-- The query that picks the leaf: the row it returns is stored, live, and the agent's.
use mathlib.Core.Path.{subst}
use mathlib.Core.Option.{some-injective}
use legant.Base.{
  ℕ, String, ◌≡◌, refl, sym, ◌∙◌, true, ◌&&◌, List, [], ◌∷◌, Option, none, some, eq_iff, Bool-cases,
  ◌⊎◌, inl, inr, ◌==◌, string_eq, if◌then◌else◌,
}
use legant.World.{World}
use legant.Database.{ChainRow, find_chain, live}
use legant.Chains.{precedes, first_of_two, latest}
use legant.Chains.Sound.{find-insert_old}

module _ ⦃W : World⦄ where
  -- The primary key: no two rows share an id.
  abbrev pub HasUniqueIds : List ChainRow → Type 0
  HasUniqueIds [] = Unit
  HasUniqueIds (r ∷ rows) = (find_chain rows r.id ≡ none) × HasUniqueIds rows

  pub record IsLeaf (rows : List ChainRow) (now : ℕ) (agent : String) (r : ChainRow) : Type 0 where
    pub stored : find_chain rows r.id ≡ some r
    pub fits : (r.delegatee == agent && live now r) ≡ true

  first_of_two-inv :
      (r x : ChainRow) (rest : Option ChainRow)
      → first_of_two r rest ≡ some x
      → (r ≡ x) ⊎ (rest ≡ some x)
  first_of_two-inv r x none h = inl (some-injective r x h)
  first_of_two-inv r x (some s) h = elim (Bool-cases (precedes s r)) [
    | inl later ↦ inr (rw later at h)
    | inr first ↦ inl (some-injective r x (rw first at h))
  ]

  latest-cons :
      (r : ChainRow) (rows : List ChainRow) (now : ℕ) (agent : String)
      → latest (r ∷ rows) now agent ≡ (
          if r.delegatee == agent && live now r
          then first_of_two r (latest rows now agent)
          else latest rows now agent)
  unfolding latest
  latest-cons r rows now agent = refl

  find_head : (r : ChainRow) (rows : List ChainRow) → find_chain (r ∷ rows) r.id ≡ some r
  unfolding find_chain
  find_head r rows = rw ((eq_iff r.id r.id).1 refl)

  latest-none : (now : ℕ) (agent : String) (x : ChainRow) → latest [] now agent ≡ some x → ⊥
  unfolding latest
  latest-none now agent x h = cc

  IsLeaf-cons :
      (r x : ChainRow) (rows : List ChainRow) (now : ℕ) (agent : String)
      → find_chain rows r.id ≡ none
      → IsLeaf rows now agent x
      → IsLeaf (r ∷ rows) now agent x
  IsLeaf-cons r x rows now agent fresh h = record {
    stored = find-insert_old rows r x.id x fresh h.stored;
    fits = h.fits;
  }

  pub latest-IsLeaf :
      (rows : List ChainRow) (now : ℕ) (agent : String) (x : ChainRow)
      → HasUniqueIds rows
      → latest rows now agent ≡ some x
      → IsLeaf rows now agent x
  latest-IsLeaf [] now agent x u h = absurd (latest-none now agent x h)
  latest-IsLeaf (r ∷ rows) now agent x u h =
      let ih = latest-IsLeaf rows now agent x u.1 in
      let e = sym (latest-cons r rows now agent) ∙ h in
      elim (Bool-cases (r.delegatee == agent && live now r)) [
        | inl fits ↦ elim (first_of_two-inv r x (latest rows now agent) (rw fits at e)) [
          | inl same ↦
              subst (IsLeaf (r ∷ rows) now agent) same
                (record { stored = find_head r rows; fits = fits })
          | inr older ↦ IsLeaf-cons r x rows now agent u.0 (ih older)
        ]
        | inr skipped ↦ IsLeaf-cons r x rows now agent u.0 (ih (rw skipped at e))
      ]
