-- ===== src/Delegation/AllowList.antt =====
-- Allow-lists and scope lists of internal/delegation/delegation.go: `permitList`, `intersectAllow`,
-- `intersectInts`, `Attenuate`, `IsSubset`.
pub mod Laws
use legant.Base.{
  ℕ, ℤ, pos, negsuc, leb_ℤ, String, ◌≡◌, Bool, true, false, not, ◌&&◌, List, [], ◌∷◌, Option, none,
  some, ◌==◌, string_eq, int_eq, contains, is_empty, keep, if◌then◌else◌,
}

-- The list dimensions of a constraint set; the source names them by strings in its messages.
pub data Dim : Type 0 where
  category tool resource : Dim

-- The reasons for which an action is refused: one constructor for each `fmt.Errorf` of the source.
pub data Denial : Type 0 where
  missing_scope : String → Denial
  over_amount : Denial
  restricted : Dim → Denial
  not_allowed : Dim → String → Denial
  outside_window : Denial

abbrev pub deny_all : String
deny_all = "\0legant:deny-all"

unfoldable pub permit_list : Dim → List String → String → Option Denial
permit_list dim allowed value =
    if is_empty allowed
    then none
    else if contains allowed deny_all
    then some (restricted dim)
    else if not (value == "") && not (contains allowed value)
    then some (not_allowed dim value)
    else none

abbrev or_deny_all : List String → List String
or_deny_all [] = deny_all ∷ []
or_deny_all out = out

unfoldable pub intersect_allow : List String → List String → List String
intersect_allow a b =
    if is_empty a
    then b
    else if is_empty b
    then a
    else or_deny_all (keep (λ x. not (x == deny_all) && contains b x) a)

abbrev or_no_day : List ℤ → List ℤ
or_no_day [] = negsuc 0 ∷ []
or_no_day out = out

unfoldable pub intersect_ints : List ℤ → List ℤ → List ℤ
intersect_ints a b =
    if is_empty a
    then b
    else if is_empty b
    then a
    else or_no_day (keep (λ x. leb_ℤ (pos 0) x && contains b x) a)

unfoldable pub attenuate : List String → List String → List String
attenuate parent requested = keep (contains parent) requested

unfoldable pub is_subset : List String → List String → Bool
is_subset [] parent = true
is_subset (s ∷ child) parent = contains parent s && is_subset child parent
