-- ===== src/Base/Lists.antt =====
-- Lists measured by native numbers, membership as a Boolean, and the predicate that all items share.
use Prim.Native.Nat.{ℕ, suc}
use mathlib.Core.Path.{◌≡◌, refl, subst}
use mathlib.Core.Logic.{inl, inr}
use mathlib.Core.Bool.{Bool, true, false, ◌&&◌, ◌||◌}
use mathlib.Core.List.{List, [], ◌∷◌, ◌++◌}
use native.Mathlib.Omega.{arith}
use legant.Base.Tests.{Comparable, Bool-cases, ◌==◌, if◌then◌else◌}

-- Every item has the property.
abbrev pub All {ℓ κ} : {A : Type ℓ} (P : A → Type κ) → List A → Type κ
All P [] = Unit
All P (first ∷ others) = P first × All P others

module _ {ℓ} {A : Type ℓ} where
  abbrev pub length : List A → ℕ
  length [] = 0
  length (x ∷ xs) = suc (length xs)

  -- `len(l) == 0`, for slices that may be nil.
  abbrev pub is_empty : List A → Bool
  is_empty [] = true
  is_empty (x ∷ xs) = false

  -- The items that pass a Boolean test.
  unfoldable pub keep : (A → Bool) → List A → List A
  keep p [] = []
  keep p (x ∷ xs) = let rest = keep p xs in if p x then x ∷ rest else rest

  unfoldable pub any : (A → Bool) → List A → Bool
  any p [] = false
  any p (x ∷ xs) = p x || any p xs

  pub All-append {κ} : (P : A → Type κ) (xs ys : List A) → All P xs → All P ys → All P (xs ++ ys)
  All-append P [] ys hx hy = hy
  All-append P (x ∷ xs) ys hx hy = (hx.0, All-append P xs ys hx.1 hy)

  pub All-imp {κ μ} :
      {P : A → Type κ} {Q : A → Type μ} (xs : List A) → ((x : A) → P x → Q x) → All P xs → All Q xs
  All-imp [] f h = tt
  All-imp (x ∷ xs) f h = (f x h.0, All-imp xs f h.1)

  pub All-keep {κ} : (P : A → Type κ) (p : A → Bool) (xs : List A) → All P xs → All P (keep p xs)
  unfolding keep
  All-keep P p [] h = tt
  All-keep P p (x ∷ xs) h = elim (Bool-cases (p x)) [
    | inl kept ↦ rw kept (h.0, All-keep P p xs h.1)
    | inr dropped ↦ rw dropped (All-keep P p xs h.1)
  ]

module _ {ℓ} {A : Type ℓ} ⦃e : Comparable A⦄ where
  -- The loops `contains` and `containsInt` of the source.
  unfoldable pub contains : List A → A → Bool
  contains [] v = false
  contains (s ∷ set) v = s == v || contains set v

  pub contains-keep :
      (p : A → Bool) (xs : List A) (v : A) → contains (keep p xs) v ≡ (contains xs v && p v)
  unfolding contains keep
  contains-keep p [] v = refl
  contains-keep p (x ∷ xs) v = ground (arith, contains-keep p xs v, e.same_iff x v)

  pub All-contains {κ} :
      (P : A → Type κ) (xs : List A) (v : A) → All P xs → contains xs v ≡ true → P v
  unfolding contains
  All-contains P [] v h m = absurd (ground arith)
  All-contains P (x ∷ xs) v h m = elim (Bool-cases (x == v)) [
    | inl same ↦ subst P ((e.same_iff x v).0 same) h.0
    | inr other ↦ All-contains P xs v h.1 (rw other at m)
  ]

  pub contains-append :
      (xs ys : List A) (v : A) → contains (xs ++ ys) v ≡ (contains xs v || contains ys v)
  unfolding contains
  contains-append [] ys v = refl
  contains-append (x ∷ xs) ys v = ground (arith, contains-append xs ys v)

  -- A list with an item is not empty.
  pub is_empty-contains : (xs : List A) (v : A) → contains xs v ≡ true → is_empty xs ≡ false
  unfolding contains
  is_empty-contains [] v h = absurd (ground arith)
  is_empty-contains (x ∷ xs) v h = refl
