-- ===== src/Delegation/AllowList/Laws.antt =====
-- What `intersectAllow`, `intersectInts`, `Attenuate` and `IsSubset` keep and what they drop.
use mathlib.Core.Path.{subst}
use legant.Base.{
  ℕ, ℤ, pos, leb_ℤ, String, ◌≡◌, ◌≢◌, refl, sym, ◌∙◌, ◌⊎◌, inl, inr, Bool, true, false, not, ◌&&◌,
  ◌||◌, List, [], ◌∷◌, none, arith, eq_iff, Bool-cases, ◌==◌, string_eq, int_eq, contains,
  contains-keep, is_empty, keep,
}
use legant.Delegation.AllowList.{
  Dim, permit_list, deny_all, or_deny_all, intersect_allow, or_no_day, intersect_ints, attenuate,
  is_subset,
}

-- The sentinel stands alone: no list of the engine mixes it with real values.
abbrev pub IsSealed : List String → Type 0
IsSealed l = contains l deny_all ≡ true → l ≡ deny_all ∷ []

-- The items that both lists hold, the sentinel apart.
abbrev common : List String → List String → List String
common a b = keep (λ x. not (x == deny_all) && contains b x) a

common-deny_all : (a b : List String) → contains (common a b) deny_all ≡ false
common-deny_all a b = ground (
  arith,
  contains-keep (λ (x : String). not (x == deny_all) && contains b x) a deny_all,
  eq_iff deny_all deny_all,
)

contains-common :
    (a b : List String) (v : String)
    → contains (common a b) v ≡ true
    → (contains a v ≡ true) × (contains b v ≡ true)
contains-common a b v h =
    ground (arith, contains-keep (λ (x : String). not (x == deny_all) && contains b x) a v)

-- A list that passes a value is empty, or holds no sentinel.
permit_list-inv :
    (d : Dim) (l : List String) (v : String)
    → permit_list d l v ≡ none
    → is_empty l ≡ false
    → (contains l deny_all ≡ false) × (((v == "") ≡ true) ⊎ (contains l v ≡ true))
unfolding permit_list
permit_list-inv d l v h e = ground arith

permit_list-intro :
    (d : Dim) (l : List String) (v : String)
    → contains l deny_all ≡ false
    → ((v == "") ≡ true) ⊎ (contains l v ≡ true)
    → permit_list d l v ≡ none
unfolding permit_list
permit_list-intro d l v h e = ground arith

-- What passes the guarded list passes with a common item behind it.
permit-or_deny_all :
    (d : Dim) (out : List String) (v : String)
    → permit_list d (or_deny_all out) v ≡ none
    → (is_empty out ≡ false) × (((v == "") ≡ true) ⊎ (contains out v ≡ true))
unfolding permit_list contains
permit-or_deny_all d [] v h = absurd (ground (arith, eq_iff deny_all deny_all))
permit-or_deny_all d (x ∷ out) v h = (refl, (permit_list-inv d (x ∷ out) v h refl).1)

-- A sealed list with a real value holds no sentinel.
sealed-real :
    (l : List String) (v : String)
    → IsSealed l
    → contains l v ≡ true
    → v ≢ deny_all
    → contains l deny_all ≡ false
unfolding contains
sealed-real l v sealed h ne = elim (Bool-cases (contains l deny_all)) [
  | inl bad ↦ absurd (ne (single (subst (λ k. contains k v ≡ true) (sealed bad) h)))
  | inr good ↦ good
]
  where
    single : contains (deny_all ∷ []) v ≡ true → v ≡ deny_all
    single e = ground (arith, eq_iff deny_all v)

-- An intersection that keeps a value never came from a sentinel.
common-sealed :
    (a b : List String) → IsSealed a → is_empty (common a b) ≡ false → contains a deny_all ≡ false
unfolding contains keep
common-sealed a b sealed h = elim (Bool-cases (contains a deny_all)) [
  | inl bad ↦ absurd (clash (subst (λ k. is_empty (common k b) ≡ false) (sealed bad) h))
  | inr good ↦ good
]
  where
    clash : is_empty (common (deny_all ∷ []) b) ≡ false → ⊥
    clash e = ground (arith, eq_iff deny_all deny_all)

some-item : (l : List String) → is_empty l ≡ false → (x : String) × (contains l x ≡ true)
unfolding contains
some-item [] h = absurd (ground arith)
some-item (x ∷ l) h = (x, ground (arith, eq_iff x x))

common-sealed_right :
    (a b : List String) → IsSealed b → is_empty (common a b) ≡ false → contains b deny_all ≡ false
common-sealed_right a b sealed h =
    let (x, m) = some-item (common a b) h in
    sealed-real b x sealed (contains-common a b x m).1
      (λ e. ground (arith, common-deny_all a b, subst (λ k. contains (common a b) k ≡ true) e m))

-- An intersection of allow-lists permits no value that the first list refuses.
pub permit-intersect_allow_left :
    (d : Dim) (p c : List String) (v : String)
    → IsSealed p
    → permit_list d (intersect_allow p c) v ≡ none
    → permit_list d p v ≡ none
unfolding intersect_allow
permit-intersect_allow_left d [] c v sealed h = unfold permit_list in refl
permit-intersect_allow_left d (x ∷ p) [] v sealed h = h
permit-intersect_allow_left d (x ∷ p) (y ∷ c) v sealed h =
    let (full, held) = permit-or_deny_all d (common (x ∷ p) (y ∷ c)) v h in
    permit_list-intro d (x ∷ p) v (common-sealed (x ∷ p) (y ∷ c) sealed full)
      (elim held [ inl e ↦ inl e | inr m ↦ inr (contains-common (x ∷ p) (y ∷ c) v m).0 ])

-- Nor one that the second list refuses.
pub permit-intersect_allow_right :
    (d : Dim) (p c : List String) (v : String)
    → IsSealed c
    → permit_list d (intersect_allow p c) v ≡ none
    → permit_list d c v ≡ none
unfolding intersect_allow
permit-intersect_allow_right d [] c v sealed h = h
permit-intersect_allow_right d (x ∷ p) [] v sealed h = unfold permit_list in refl
permit-intersect_allow_right d (x ∷ p) (y ∷ c) v sealed h =
    let (full, held) = permit-or_deny_all d (common (x ∷ p) (y ∷ c)) v h in
    permit_list-intro d (y ∷ c) v (common-sealed_right (x ∷ p) (y ∷ c) sealed full)
      (elim held [ inl e ↦ inl e | inr m ↦ inr (contains-common (x ∷ p) (y ∷ c) v m).1 ])

permit-guarded :
    (d : Dim) (out : List String) (v : String)
    → contains out v ≡ true
    → contains out deny_all ≡ false
    → permit_list d (or_deny_all out) v ≡ none
unfolding contains
permit-guarded d [] v held clean = absurd (ground arith)
permit-guarded d (z ∷ out) v held clean = permit_list-intro d (z ∷ out) v clean (inr held)

-- Both lists permit a value that is given: so does the intersection.
pub permit-intersect_allow_both :
    (d : Dim) (p c : List String) (v : String)
    → v ≢ ""
    → permit_list d p v ≡ none
    → permit_list d c v ≡ none
    → permit_list d (intersect_allow p c) v ≡ none
unfolding intersect_allow
permit-intersect_allow_both d [] c v ne h k = k
permit-intersect_allow_both d (x ∷ p) [] v ne h k = h
permit-intersect_allow_both d (x ∷ p) (y ∷ c) v ne h k =
    let (clean, hp) = permit_list-inv d (x ∷ p) v h refl in
    let (clean', hc) = permit_list-inv d (y ∷ c) v k refl in
    let out = common (x ∷ p) (y ∷ c) in
    let held : contains out v ≡ true = ground (
      arith,
      contains-keep (λ (z : String). not (z == deny_all) && contains (y ∷ c) z) (x ∷ p) v,
      eq_iff v "",
      eq_iff v deny_all,
      real clean,
      ne,
      hp,
      hc,
    ) in
    permit-guarded d out v held (common-deny_all (x ∷ p) (y ∷ c))
  where
    real : contains (x ∷ p) deny_all ≡ false → v ≡ deny_all → contains (x ∷ p) v ≡ false
    real clean e = subst (λ k. contains (x ∷ p) k ≡ false) (sym e) clean

or_deny_all-IsSealed :
    (out : List String) → contains out deny_all ≡ false → IsSealed (or_deny_all out)
or_deny_all-IsSealed [] clean h = refl
or_deny_all-IsSealed (x ∷ out) clean h = absurd (ground arith)

-- Intersecting sealed lists gives a sealed list.
pub intersect_allow-IsSealed :
    (p c : List String) → IsSealed p → IsSealed c → IsSealed (intersect_allow p c)
unfolding intersect_allow
intersect_allow-IsSealed [] c sp sc = sc
intersect_allow-IsSealed (x ∷ p) [] sp sc = sp
intersect_allow-IsSealed (x ∷ p) (y ∷ c) sp sc =
    or_deny_all-IsSealed (common (x ∷ p) (y ∷ c)) (common-deny_all (x ∷ p) (y ∷ c))

-- Whether a weekday list admits a day, as `Allows` tests it.
abbrev pub day_ok : List ℤ → ℤ → Bool
day_ok days d = is_empty days || contains days d

or_no_day-contains : (out : List ℤ) (d : ℕ) → day_ok (or_no_day out) (pos d) ≡ contains out (pos d)
unfolding contains
or_no_day-contains [] d = refl
or_no_day-contains (x ∷ out) d = refl

-- The intersection of two weekday lists admits exactly the days that both admit.
pub day_ok-intersect_ints :
    (p c : List ℤ) (d : ℕ)
    → day_ok (intersect_ints p c) (pos d) ≡ (day_ok p (pos d) && day_ok c (pos d))
unfolding intersect_ints
day_ok-intersect_ints [] c d = refl
day_ok-intersect_ints (x ∷ p) [] d = ground arith
day_ok-intersect_ints (x ∷ p) (y ∷ c) d =
    let test : ℤ → Bool = λ z. leb_ℤ (pos 0) z && contains (y ∷ c) z in
    or_no_day-contains (keep test (x ∷ p)) d ∙ ground (arith, contains-keep test (x ∷ p) (pos d))

-- A scope is in the attenuated list exactly when it was requested and the parent holds it.
pub contains-attenuate :
    (parent requested : List String) (s : String)
    → contains (attenuate parent requested) s ≡ (contains requested s && contains parent s)
unfolding attenuate
contains-attenuate parent requested s = contains-keep (contains parent) requested s

pub is_subset_sound :
    (child parent : List String) (s : String)
    → is_subset child parent ≡ true
    → contains child s ≡ true
    → contains parent s ≡ true
unfolding is_subset contains
is_subset_sound [] parent s h m = absurd (ground arith)
is_subset_sound (x ∷ child) parent s h m =
    ground (arith, is_subset_sound child parent s, eq_iff x s)

-- What is a subset is attenuated to itself.
pub attenuate-of-is_subset :
    (child parent : List String) → is_subset child parent ≡ true → attenuate parent child ≡ child
unfolding is_subset attenuate keep
attenuate-of-is_subset [] parent h = refl
attenuate-of-is_subset (x ∷ child) parent h = ground (arith, attenuate-of-is_subset child parent)

-- A list of which every member is in another is a subset of it.
pub is_subset_complete :
    (child parent : List String)
    → ((s : String) → contains child s ≡ true → contains parent s ≡ true)
    → is_subset child parent ≡ true
unfolding is_subset contains
is_subset_complete [] parent h = refl
is_subset_complete (x ∷ child) parent h =
    let later = is_subset_complete child parent (λ s m. h s (ground (arith, m))) in
    ground (arith, later, h x (ground (arith, eq_iff x x)))

is_subset-cons :
    (x : String) (child parent : List String)
    → is_subset child parent ≡ true
    → is_subset child (x ∷ parent) ≡ true
unfolding is_subset contains
is_subset-cons x [] parent h = refl
is_subset-cons x (y ∷ child) parent h = ground (arith, is_subset-cons x child parent)

pub is_subset_refl : (l : List String) → is_subset l l ≡ true
unfolding is_subset contains
is_subset_refl [] = refl
is_subset_refl (x ∷ l) = ground (arith, eq_iff x x, is_subset-cons x l l (is_subset_refl l))

pub is_subset_trans :
    (a b c : List String) → is_subset a b ≡ true → is_subset b c ≡ true → is_subset a c ≡ true
unfolding is_subset
is_subset_trans [] b c h k = refl
is_subset_trans (x ∷ a) b c h k = ground (arith, is_subset_trans a b c, is_subset_sound b c x)

pub is_subset-attenuate :
    (parent requested : List String) → is_subset (attenuate parent requested) parent ≡ true
unfolding is_subset attenuate keep
is_subset-attenuate parent [] = refl
is_subset-attenuate parent (x ∷ requested) = ground (arith, is_subset-attenuate parent requested)
