-- ===== src/Chains/Resolve.antt =====
-- `ResolveGrantChain` returns an attenuated chain of live rows from the agent to the user.
use Prim.Native.String.{◌++◌}
use mathlib.Core.Path.{subst}
use mathlib.Core.Option.{some-injective}
use text.Mathlib.TextLemmas.{append_assoc}
use legant.Base.{
  ℕ, zero, suc, String, ◌≡◌, refl, sym, ap, ◌∙◌, true, false, List, [], ◌∷◌, Option, none, some,
  arith, eq_iff, Bool-cases, Option-cases, inl, inr, ◌==◌, string_eq,
}
use legant.Base.Result.{Result, ok, err, ◌>>=◌, >>=-eq-ok, ok-injective}
use legant.World.{World}
use legant.Delegation.Grant.{Link, link, root_delegator}
use legant.Delegation.Grant.Within.{Within, IsAttenuated}
use legant.Database.{ChainRow, find_live}
use legant.Chains.{ChainError, broken, or_blank, walk, link_of, grant_of, last_row, rooted_at}
use legant.Chains.Sound.{RowWithin, RowSound, IsSound, find_live-inv}

module _ ⦃W : World⦄ where
  -- Row by row, the parent's id names the next live row.
  abbrev pub Linked : List ChainRow → ℕ → ChainRow → List ChainRow → Type 0
  Linked rows now r [] = Unit
  Linked rows now r (p ∷ above) =
      ((or_blank r.parent_id == "") ≡ false)
      × (find_live rows now (or_blank r.parent_id) ≡ some p)
      × Linked rows now p above

  -- The first row of a walk is the live row of its id.
  abbrev pub Walked : List ChainRow → ℕ → String → List ChainRow → Type 0
  Walked rows now id [] = Unit
  Walked rows now id (r ∷ above) =
      ((id == "") ≡ false) × (find_live rows now id ≡ some r) × Linked rows now r above

  Walked-cons :
      (rows : List ChainRow) (now : ℕ) (id : String) (r : ChainRow) (above : List ChainRow)
      → (id == "") ≡ false
      → find_live rows now id ≡ some r
      → Walked rows now (or_blank r.parent_id) above
      → Walked rows now id (r ∷ above)
  Walked-cons rows now id r [] e f h = (e, f, tt)
  Walked-cons rows now id r (p ∷ above) e f h = (e, f, h)

  module _ (n : ℕ) (rows : List ChainRow) (now : ℕ) (id : String) where
    walk-blank : (id == "") ≡ true → walk (suc n) rows now id ≡ ok []
    unfolding walk
    walk-blank blank = rw (blank, walk)

    walk-gone :
        (id == "") ≡ false → find_live rows now id ≡ none → walk (suc n) rows now id ≡ err broken
    unfolding walk
    walk-gone more gone = rw (more, walk) (rw (gone, walk))

    walk-row :
        (r : ChainRow)
        → (id == "") ≡ false
        → find_live rows now id ≡ some r
        → walk (suc n) rows now id
          ≡ (walk n rows now (or_blank r.parent_id) >>= λ rest. ok (r ∷ rest))
    unfolding walk
    walk-row r more at = rw (more, walk) (rw (at, walk))

  walk-zero : (rows : List ChainRow) (now : ℕ) (id : String) → walk zero rows now id ≡ ok []
  unfolding walk
  walk-zero rows now id = refl

  not_broken : {A : Type 0} {a : A} → ◌≡◌ {A = Result ChainError A} (err broken) (ok a) → ⊥
  not_broken h = cc

  pub walk-Walked :
      (n : ℕ) (rows : List ChainRow) (now : ℕ) (id : String) (found : List ChainRow)
      → walk n rows now id ≡ ok found
      → Walked rows now id found
  walk-Walked zero rows now id found h =
      subst (Walked rows now id) (ok-injective (sym (walk-zero rows now id) ∙ h)) tt
  walk-Walked (suc n) rows now id found h = elim (Bool-cases (id == "")) [
    | inl blank ↦
        subst (Walked rows now id) (ok-injective (sym (walk-blank n rows now id blank) ∙ h)) tt
    | inr more ↦ elim (Option-cases (find_live rows now id)) [
      | inl gone ↦ absurd (not_broken (sym (walk-gone n rows now id more gone) ∙ h))
      | inr (r, at) ↦
          let (above, up, e) =
            >>=-eq-ok (walk n rows now (or_blank r.parent_id)) _
              (sym (walk-row n rows now id r more at) ∙ h) in
          subst (Walked rows now id) (ok-injective e) (
            Walked-cons rows now id r above more at
              (walk-Walked n rows now (or_blank r.parent_id) above up))
    ]
  ]

  -- In a sound table the row above is the parent, and holds what the row below may do.
  Linked-RowWithin :
      (rows : List ChainRow) (now : ℕ) (r p : ChainRow)
      → RowSound rows r
      → (or_blank r.parent_id == "") ≡ false
      → find_live rows now (or_blank r.parent_id) ≡ some p
      → RowWithin r p
  Linked-RowWithin rows now r p s more at = by_parent r.parent_id refl
    where
      by_parent : (o : Option String) → r.parent_id ≡ o → RowWithin r p
      by_parent none e = absurd (blank (subst (λ o. (or_blank o == "") ≡ false) e more))
        where
          blank : ◌==◌ {K = String} "" "" ≡ false → ⊥
          blank h = ground (arith, eq_iff "" "")
      by_parent (some pid) e =
          let (q, found, within) = s.within pid e in
          let (stored, _) =
            find_live-inv rows now pid p
              (subst (λ o. find_live rows now (or_blank o) ≡ some p) e at) in
          subst (RowWithin r) (some-injective q p (sym found ∙ stored)) within

  agent_text : (x : String) → "agent" ++ (":" ++ x) ≡ "agent:" ++ x
  agent_text x = sym (append_assoc "agent" ":" x)

  link-Within : (now : ℕ) (r p : ChainRow) → RowWithin r p → Within (link_of now r) (link_of now p)
  unfolding link_of
  link-Within now r p w = record { scopes = w.scopes; permits = w.permits }

  link_made :
      (now : ℕ) (r p : ChainRow)
      → RowWithin r p
      → (link_of now r).delegator ≡ (link_of now p).delegatee
  unfolding link_of
  link_made now r p w = rw (w.by_agent, w.by_holder) (agent_text p.delegatee)

  pub link-grant_of :
      (now : ℕ) (r : ChainRow) (above : List ChainRow) → link (grant_of now r above) ≡ link_of now r
  unfolding grant_of
  link-grant_of now r [] = refl
  link-grant_of now r (p ∷ above) = refl

  pub grant_of-IsAttenuated :
      (rows : List ChainRow) (now : ℕ) (r : ChainRow) (above : List ChainRow)
      → IsSound rows
      → RowSound rows r
      → Linked rows now r above
      → IsAttenuated (grant_of now r above)
  unfolding grant_of
  grant_of-IsAttenuated rows now r [] sound s h = tt
  grant_of-IsAttenuated rows now r (p ∷ above) sound s h =
      let (more, at, up) = h in
      let within = Linked-RowWithin rows now r p s more at in
      let (stored, _) = find_live-inv rows now (or_blank r.parent_id) p at in
      let same = link-grant_of now p above in
      (
        subst (Within (link_of now r)) (sym same) (link-Within now r p within),
        link_made now r p within ∙ ap (λ (l : Link). l.delegatee) (sym same),
        grant_of-IsAttenuated rows now p above sound (sound.row (or_blank r.parent_id) p stored) up,
      )

  pub root_of-last :
      (now : ℕ) (user : String) (r : ChainRow) (above : List ChainRow)
      → rooted_at user (last_row r above) ≡ true
      → root_delegator (grant_of now r above) ≡ "user:" ++ user
  unfolding grant_of root_delegator link_of
  root_of-last now user r [] h =
      rw
        (
          (eq_iff r.delegator_type "user").0 (ground arith),
          (eq_iff r.delegator_id user).0 (ground arith),
        )
        (sym (append_assoc "user" ":" user))
  root_of-last now user r (p ∷ above) h = root_of-last now user p above h
