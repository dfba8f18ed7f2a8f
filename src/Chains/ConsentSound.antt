-- ===== src/Chains/ConsentSound.antt =====
-- `GrantConsent` keeps the table of delegations sound.
use mathlib.Core.Path.{subst}
use legant.Base.{
  true, eq_iff, arith, refl, ◌≢◌, ℕ, String, ◌≡◌, sym, ap, ◌∙◌, not, ◌&&◌, ◌||◌, List, ◌∷◌, none,
  some, ◌==◌, string_eq, Bool-cases, inl, inr, any, is_empty,
}
use legant.Base.Result.{Result, ok, err, >>=-eq-ok, reject_if-eq-ok, ok-injective}
use legant.World.{World}
use legant.Delegation.AllowList.Laws.{IsSealed}
use legant.Delegation.Constraints.{Constraints}
use legant.Delegation.Constraints.Laws.{IsWellFormed}
use legant.Database.{ConsentRow, ChainRow, Database, find_chain}
use legant.Chains.{ChainError, required, validate_and_canonicalize, insert_chain, insert_failed}
use legant.Chains.Consent.{
  expiry_of, ConsentRequest, with_resource, insert_consent, consented, grant_consent, null_if_blank,
}
use legant.Chains.Validate.{IsTextual, validate-IsWellFormed}
use legant.Chains.Sound.{RowSound, IsSound, insert-IsSound}
use legant.Chains.Latest.{HasUniqueIds}
use legant.Chains.Redelegate.{insert-inv}

module _ ⦃W : World⦄ where
  consented-RowSound :
      (rows : List ChainRow) (consent_id new_id : String) (req : ConsentRequest) (c : Constraints)
      (now : ℕ)
      → IsWellFormed c
      → RowSound rows (consented consent_id new_id req c now)
  consented-RowSound rows consent_id new_id req c now w = record {
    well_formed = w;
    within = λ pid e. absurd (no_parent e);
  }
    where
      no_parent : {pid : String} → none ≡ some pid → ⊥
      no_parent e = cc

  insert_consent-chains :
      (db db' : Database) (r : ConsentRow) → insert_consent db r ≡ ok db' → db.chains ≡ db'.chains
  insert_consent-chains db db' r h = elim (Bool-cases (any (λ k. k.id == r.id) db.consents)) [
    | inl taken ↦ absurd (refused (rw taken at h))
    | inr free ↦ ap (λ (d : Database). d.chains) (ok-injective (rw free at h))
  ]
    where
      refused : ◌≡◌ {A = Result ChainError Database} (err insert_failed) (ok db') → ⊥
      refused e = cc

  with_resource-lists :
      (c : Constraints) (resource : String)
      → ((with_resource c resource).categories ≡ c.categories)
        × ((with_resource c resource).tools ≡ c.tools)
  with_resource-lists c resource =
      elim (Bool-cases (is_empty c.resources && not (resource == ""))) [
        | inl folded ↦ (rw folded, rw folded)
        | inr kept ↦ (rw kept, rw kept)
      ]

  module _ (db : Database) (now : ℕ) (consent_id new_id : String) (req : ConsentRequest) where
    -- A consent that is recorded adds one root row, which carries the request's validated constraints.
    pub grant_consent-inv :
        {db' : Database} {ids : String × String}
        → grant_consent db now consent_id new_id req ≡ ok (db', ids.0, ids.1)
        → (c : Constraints) × (validate_and_canonicalize
              (with_resource req.constraints req.resource)
            ≡ ok c)
          × (find_chain db.chains new_id ≡ none)
          × (consented consent_id new_id req c now ∷ db.chains ≡ db'.chains)
    unfolding grant_consent
    grant_consent-inv {db'} {ids} h =
        let (_, h1) =
          reject_if-eq-ok (req.user_id == "" || req.agent_id == "" || is_empty req.scopes) required
            _ h in
        let (c, valid, h2) =
          >>=-eq-ok (validate_and_canonicalize (with_resource req.constraints req.resource)) _ h1 in
        let receipt : ConsentRow = record {
          id = consent_id;
          user_id = req.user_id;
          agent_id = req.agent_id;
          org_id = null_if_blank req.org_id;
          scopes = req.scopes;
          constraints = c;
          resource = req.resource;
        } in
        let (d, noted, h3) = >>=-eq-ok (insert_consent db receipt) _ h2 in
        let (e, put, h4) =
          >>=-eq-ok (insert_chain d (consented consent_id new_id req c now)) _ h3 in
        let (fresh, rows) = insert-inv d e (consented consent_id new_id req c now) put in
        let same = insert_consent-chains db d receipt noted in
        let done = ap (λ (r : Database × String × String). r.0.chains) (ok-injective h4) in
        (
          c,
          valid,
          ap (λ k. find_chain k new_id) same ∙ fresh,
          ap (λ k. consented consent_id new_id req c now ∷ k) same ∙ rows ∙ done,
        )

    -- The row of a consent: an active root of the request's user for the request's agent, with the
    -- request's scopes and expiry, and with its constraints validated, the resource folded in.
    pub record Recorded (db' : Database) : Type 0 where
      pub row : ChainRow
      pub stored : find_chain db'.chains new_id ≡ some row
      pub by_user : (row.delegator_type ≡ "user") × (row.delegator_id ≡ req.user_id)
      pub for_agent : row.delegatee ≡ req.agent_id
      pub scopes_same : row.scopes ≡ req.scopes
      pub validated :
          validate_and_canonicalize (with_resource req.constraints req.resource)
          ≡ ok row.constraints
      pub stays_active : row.active ≡ true
      pub expiry : row.expires_at ≡ expiry_of now req.ttl
      pub is_root : row.parent_id ≡ none
      pub others_kept :
          (id : String) → new_id ≢ id → find_chain db'.chains id ≡ find_chain db.chains id

    grant_consent-Recorded :
        {db' : Database} {ids : String × String}
        → grant_consent db now consent_id new_id req ≡ ok (db', ids.0, ids.1)
        → Recorded db'
    unfolding find_chain
    grant_consent-Recorded {db'} h =
        let (c, valid, fresh, rows) = grant_consent-inv h in
        record {
          row = consented consent_id new_id req c now;
          stored =
              ap (λ (k : List ChainRow). find_chain k new_id) (sym rows)
              ∙ ground (arith, eq_iff new_id new_id);
          by_user = (refl, refl);
          for_agent = refl;
          scopes_same = refl;
          validated = valid;
          stays_active = refl;
          expiry = refl;
          is_root = refl;
          others_kept = λ id ne.
              ap (λ (k : List ChainRow). find_chain k id) (sym rows)
              ∙ ground (arith, eq_iff new_id id, ne);
        }

    -- Where the categories and tools asked for do not mix the deny-all sentinel with other values, and no
    -- canonical resource is the sentinel, a consent that is recorded keeps a sound table with unique ids
    -- sound and its ids unique, and adds one row: an active root from the request's user to its agent,
    -- with the request's scopes and expiry and its validated constraints.
    pub grant_consent-IsSound :
        {db' : Database} {ids : String × String}
        → IsTextual
        → IsSealed req.constraints.categories
        → IsSealed req.constraints.tools
        → IsSound db.chains
        → HasUniqueIds db.chains
        → grant_consent db now consent_id new_id req ≡ ok (db', ids.0, ids.1)
        → IsSound db'.chains × HasUniqueIds db'.chains × Recorded db'
    grant_consent-IsSound {db'} textual sealed sealed' sound unique h =
        let (c, valid, fresh, rows) = grant_consent-inv h in
        let given = with_resource req.constraints req.resource in
        let (cats, tools) = with_resource-lists req.constraints req.resource in
        let fine =
          validate-IsWellFormed textual given c (subst IsSealed (sym cats) sealed)
            (subst IsSealed (sym tools) sealed') valid in
        let row = consented consent_id new_id req c now in
        (
          subst IsSound rows (
              insert-IsSound db.chains row fresh sound
                (consented-RowSound db.chains consent_id new_id req c now fine)),
          subst HasUniqueIds rows (fresh, unique),
          grant_consent-Recorded h,
        )
