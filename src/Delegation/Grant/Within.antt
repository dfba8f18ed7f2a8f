-- ===== src/Delegation/Grant/Within.antt =====
-- Attenuation along a chain, the expiry left aside: scopes and permitted actions only shrink.
use legant.Base.{ℕ, ◌≡◌, true, List, none, All}
use legant.World.{World}
use legant.Delegation.AllowList.{is_subset}
use legant.Delegation.AllowList.Laws.{is_subset_refl, is_subset_trans}
use legant.Delegation.Constraints.{Action, permit}
use legant.Delegation.Grant.{Link, Grant, root, child, link}
use legant.Delegation.Grant.Chain.{links}

module _ ⦃W : World⦄ where
  pub record Within (l p : Link) : Type 0 where
    pub scopes : is_subset l.scopes p.scopes ≡ true
    pub permits :
        (now : ℕ) (a : Action)
        → permit now l.constraints a ≡ none
        → permit now p.constraints a ≡ none

  -- Each link is within the one above it, and was made by the agent of the one above it.
  abbrev pub IsAttenuated : Grant → Type 0
  IsAttenuated (root l) = Unit
  IsAttenuated (child l p) = Within l (link p) × (l.delegator ≡ (link p).delegatee) × IsAttenuated p

  Within-refl : (l : Link) → Within l l
  Within-refl l = record { scopes = is_subset_refl l.scopes; permits = λ now a h. h }

  lift-Within :
      {l p : Link} (above : List Link) → Within l p → All (Within p) above → All (Within l) above
  lift-Within List.[] h k = tt
  lift-Within {l} {p} (List.◌∷◌ x above) h k = (
    record {
      scopes = is_subset_trans l.scopes p.scopes x.scopes h.scopes k.0.scopes;
      permits = λ now a e. k.0.permits now a (h.permits now a e);
    },
    lift-Within above h k.1,
  )

  -- The leaf of an attenuated chain is within every link above it.
  pub IsAttenuated-links : (g : Grant) → IsAttenuated g → All (Within (link g)) (links g)
  IsAttenuated-links (root l) h = (Within-refl l, tt)
  IsAttenuated-links (child l p) h =
      (Within-refl l, lift-Within (links p) h.0 (IsAttenuated-links p h.2))
