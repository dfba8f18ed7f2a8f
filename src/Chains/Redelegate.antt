-- ===== src/Chains/Redelegate.antt =====
-- `Redelegate` keeps the table of delegations sound.
use mathlib.Core.Path.{subst}
use mathlib.Core.Option.{some-injective}
use legant.Base.{
  Bool-cases, inl, inr, Bool, ℕ, ◌+◌, ℤ, leb, String, ◌≡◌, refl, sym, ap, ◌∙◌, true, false, not,
  ◌||◌, List, ◌∷◌, Option, none, some, arith, eq_iff, ◌==◌, string_eq, is_empty,
}
use legant.Base.Result.{Result, ok, err, >>=-eq-ok, reject_if-eq-ok, ok-injective}
use legant.World.{World}
use legant.Delegation.AllowList.{is_subset}
use legant.Delegation.AllowList.Laws.{IsSealed}
use legant.Delegation.Constraints.{Constraints}
use legant.Delegation.Constraints.Laws.{tighten_parent, tighten-IsWellFormed}
use legant.Delegation.Grant.{default_max_depth}
use legant.Database.{is_some, ChainRow, Database, find_chain, find_live}
use legant.Chains.{
  ChainError, required, no_parent, not_holder, exceeds, too_deep, cycle, bad_delegatee,
  insert_failed, max_chain_walk, or_error, validate_and_canonicalize, agent_in_chain, delegatee_ok,
  insert_chain, unstorable, redelegated, redelegate,
}
use legant.Chains.Validate.{IsTextual, validate-IsWellFormed}
use legant.Chains.Latest.{HasUniqueIds}
use legant.Chains.Sound.{IsSound, insert-IsSound, find_live-inv}

module _ ⦃W : World⦄ where
  -- What a successful re-delegation has checked and written.
  pub record Redelegated (db : Database) (now : ℕ) (new_id parent delegator delegatee : String)
      (scopes : List String) (c : Constraints) (ttl : ℤ) (db' : Database) : Type 0 where
    pub checked : Constraints
    pub validated : validate_and_canonicalize c ≡ ok checked
    pub parent_row : ChainRow
    pub parent_live : find_live db.chains now parent ≡ some parent_row
    pub holder : (parent_row.delegatee == delegator) ≡ true
    pub covered : is_subset scopes parent_row.scopes ≡ true
    pub shallow : leb default_max_depth (parent_row.depth + 1) ≡ false
    pub acyclic : agent_in_chain max_chain_walk db.chains parent delegatee ≡ ok false
    pub admitted : delegatee_ok db.agents delegatee parent_row.org_id ≡ true
    pub fresh : find_chain db.chains new_id ≡ none
    pub written :
        redelegated new_id parent parent_row delegator delegatee scopes checked ttl now ∷ db.chains
        ≡ db'.chains

  or_error-inv :
      {A : Type 0} (o : Option A) (e : ChainError) (a : A) → or_error o e ≡ ok a → o ≡ some a
  or_error-inv none e a h = cc
  or_error-inv (some b) e a h = ap some (ok-injective h)

  pub insert-inv :
      (db db' : Database) (r : ChainRow)
      → insert_chain db r ≡ ok db'
      → (find_chain db.chains r.id ≡ none) × (r ∷ db.chains ≡ db'.chains)
  insert-inv db db' r h = elim (Bool-cases (is_some (find_chain db.chains r.id) || unstorable r)) [
    | inl refused ↦ absurd (failed (rw refused at h))
    | inr free ↦ (
      vacant (find_chain db.chains r.id) (unstorable r) free,
      ap (λ (d : Database). d.chains) (ok-injective (rw free at h)),
    )
  ]
    where
      failed : ◌≡◌ {A = Result ChainError Database} (err insert_failed) (ok db') → ⊥
      failed e = cc e

      vacant : (o : Option ChainRow) (b : Bool) → (is_some o || b) ≡ false → o ≡ none
      vacant none b e = refl
      vacant (some x) b e = absurd (ground arith)

  module _ (db : Database) (now : ℕ) (new_id parent delegator delegatee : String)
      (scopes : List String) (c : Constraints) (ttl : ℤ) where
    -- A re-delegation that succeeds has passed every guard of the method, and has added one row.
    pub redelegate-Redelegated :
        {db' : Database} {id : String}
        → redelegate db now new_id parent delegator delegatee scopes c ttl ≡ ok (db', id)
        → Redelegated db now new_id parent delegator delegatee scopes c ttl db'
    unfolding redelegate
    redelegate-Redelegated {db'} h =
        let (_, h1) = reject_if-eq-ok (delegatee == "" || is_empty scopes) required _ h in
        let (c', valid, h2) = >>=-eq-ok (validate_and_canonicalize c) _ h1 in
        let (p, at, h3) = >>=-eq-ok (or_error (find_live db.chains now parent) no_parent) _ h2 in
        let (held, h4) = reject_if-eq-ok (not (p.delegatee == delegator)) not_holder _ h3 in
        let (within, h5) = reject_if-eq-ok (not (is_subset scopes p.scopes)) exceeds _ h4 in
        let (depth, h6) = reject_if-eq-ok (leb default_max_depth (p.depth + 1)) too_deep _ h5 in
        let (looped, seen, h7) =
          >>=-eq-ok (agent_in_chain max_chain_walk db.chains parent delegatee) _ h6 in
        let (unseen, h8) = reject_if-eq-ok looped cycle _ h7 in
        let (agent, h9) =
          reject_if-eq-ok (not (delegatee_ok db.agents delegatee p.org_id)) bad_delegatee _ h8 in
        let row = redelegated new_id parent p delegator delegatee scopes c' ttl now in
        let (d, put, h10) = >>=-eq-ok (insert_chain db row) _ h9 in
        let (free, rows) = insert-inv db d row put in
        record {
          checked = c';
          validated = valid;
          parent_row = p;
          parent_live = or_error-inv (find_live db.chains now parent) no_parent p at;
          holder = ground (arith, held);
          covered = ground (arith, within);
          shallow = depth;
          acyclic = seen ∙ ap ok unseen;
          admitted = ground (arith, agent);
          fresh = free;
          written = rows ∙ ap (λ (r : Database × String). r.0.chains) (ok-injective h10);
        }

    -- Where the categories and tools asked for do not mix the deny-all sentinel with other values, and no
    -- canonical resource is the sentinel, a re-delegation that succeeds keeps a sound table with unique
    -- ids sound and its ids unique: the new row has scopes of its parent's, permits nothing that the
    -- parent's constraints refuse, and was made by the parent's holder.
    pub redelegate-IsSound :
        {db' : Database} {id : String}
        → IsTextual
        → IsSealed c.categories
        → IsSealed c.tools
        → IsSound db.chains
        → HasUniqueIds db.chains
        → redelegate db now new_id parent delegator delegatee scopes c ttl ≡ ok (db', id)
        → IsSound db'.chains × HasUniqueIds db'.chains
    redelegate-IsSound textual sealed sealed' sound unique h =
        let r = redelegate-Redelegated h in
        let p = r.parent_row in
        let (at, _) = find_live-inv db.chains now parent p r.parent_live in
        let known = (sound.row parent p at).well_formed in
        let fine = validate-IsWellFormed textual c r.checked sealed sealed' r.validated in
        let row = redelegated new_id parent p delegator delegatee scopes r.checked ttl now in
        (
          subst IsSound r.written (
              insert-IsSound db.chains row r.fresh sound (record {
                well_formed = tighten-IsWellFormed p.constraints r.checked known fine;
                within = λ pid e. (
                  p,
                  subst (λ k. find_chain db.chains k ≡ some p) (some-injective parent pid e) at,
                  record {
                    scopes = r.covered;
                    permits = λ t a. tighten_parent t p.constraints r.checked a known;
                    by_agent = refl;
                    by_holder = sym ((eq_iff p.delegatee delegator).0 r.holder);
                  },
                );
              })),
          subst HasUniqueIds r.written (r.fresh, unique),
        )
