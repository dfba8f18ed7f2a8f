-- ===== src/Tests/Delegation.antt =====
-- Tests and instances for internal/delegation.
use legant.Base.{
  keep, any, ℕ, ◌<◌, pos, String, ◌≡◌, refl, ◌↔◌, Bool, true, false, List, [], ◌∷◌, Option, none,
  some, arith, eq_iff, contains, string_eq, All,
}
use text.Mathlib.Text.{◌==◌ as str_eq}
use legant.Base.Text.{IsWord, is_word, no_space, is_space, add_char, fields, join, fields-join}
use legant.Base.Result.{ok}
use legant.Delegation.AllowList.{intersect_allow, permit_list, intersect_ints, is_subset, attenuate}
use legant.Delegation.Constraints.{
  TimeWindow, Constraints, Action, permit, tighten, allows, validate, check_amount, tighten_amount,
  check_window, tighten_window, tighten_rate, inside, location_of, check_weekdays,
}
use legant.Delegation.Constraints.Laws.{IsWellFormed, tighten_parent, tighten_child}
use legant.Delegation.Grant.{
  link, Grant, Link, root, child, new_root_grant, delegate, depth, root_delegator,
  default_max_depth, in_chain, actors_leaf_to_root, actor_chain_root_to_leaf, effective_scopes,
}
use legant.Delegation.Grant.Chain.{Narrows, IsChain, links}
use legant.Delegation.Grant.Exact.{MayDelegate, delegated, delegate-IsChain, delegate_iff}
use legant.Delegation.Token.{
  Signer, Verifier, authorize, issue_for_grant, verify, act_of, has_scope, actor_chain, key_func,
}
use legant.Delegation.Token.RoundTrip.{minted, verify-issue_for_grant, authorize-issue_for_grant}
use legant.Tests.Sample.{sample, sample_jwt, sample-IsOrdered, SampleToken, sample_parse}

abbrev pub office_hours : TimeWindow
office_hours = record {
  weekdays = pos 1 ∷ pos 3 ∷ [];
  start_min = pos 480;
  end_min = pos 1080;
  tz = "";
}

abbrev pub mornings : TimeWindow
mornings = record { weekdays = pos 3 ∷ []; start_min = pos 540; end_min = pos 720; tz = "" }

abbrev pub parent_limits : Constraints
parent_limits = record {
  max_amount = some 500;
  categories = "travel" ∷ "meals" ∷ [];
  tools = "submit" ∷ [];
  resources = "https://api/" ∷ [];
  time_window = some office_hours;
  rate = some (record { max_per_hour = pos 5 });
}

abbrev pub child_limits : Constraints
child_limits = record {
  max_amount = some 900;
  categories = "meals" ∷ [];
  tools = "submit" ∷ [];
  resources = "https://api/" ∷ [];
  time_window = some mornings;
  rate = none;
}

abbrev pub lunch : Action
lunch = record {
  scope = "expenses:submit";
  amount = 40;
  category_of = "meals";
  tool_name = "submit";
  resource_of = "https://api/";
  at = 7;
}

-- What a run of the engine computes through.
unfoldable pub engine : Unit {0}
unfolding permit tighten check_amount tighten_amount permit_list intersect_allow keep any contains
    check_window tighten_window tighten_rate allows inside location_of intersect_ints check_weekdays
    validate is_subset attenuate delegate depth in_chain root_delegator actors_leaf_to_root
    actor_chain_root_to_leaf effective_scopes new_root_grant fields add_char is_space join has_scope
    act_of actor_chain authorize issue_for_grant key_func verify sample_parse is_word no_space
engine = tt

pub parent_limits-IsWellFormed : IsWellFormed parent_limits
unfolding engine
parent_limits-IsWellFormed = record { categories = λ h. cc; tools = λ h. cc; resources = λ h. cc }

pub child_limits-IsWellFormed : IsWellFormed child_limits
unfolding engine
child_limits-IsWellFormed = record { categories = λ h. cc; tools = λ h. cc; resources = λ h. cc }

tightened_permits_lunch : permit 1 (tighten parent_limits child_limits) lunch ≡ none
unfolding engine
tightened_permits_lunch = refl

tighten_parent_example : permit 1 parent_limits lunch ≡ none
tighten_parent_example =
    tighten_parent 1 parent_limits child_limits lunch parent_limits-IsWellFormed
      tightened_permits_lunch

tighten_child_example : permit 1 child_limits lunch ≡ none
tighten_child_example =
    tighten_child sample-IsOrdered 1 parent_limits child_limits lunch child_limits-IsWellFormed refl
      tightened_permits_lunch

-- Alice lets the assistant submit and read expenses; the assistant passes submitting on.
abbrev alice_grant : Grant
alice_grant = root (record {
  delegator = "user:alice";
  delegatee = "agent:assistant";
  scopes = "expenses:submit" ∷ "expenses:read" ∷ [];
  constraints = parent_limits;
  expires_at = 100;
})

abbrev pub passed_on : List String
passed_on = "expenses:submit" ∷ []

abbrev pub ocr_grant : Grant
ocr_grant =
    child (delegated alice_grant "agent:ocr" passed_on child_limits (pos 500) 10 default_max_depth)
      alice_grant

ocr_delegated :
    delegate alice_grant "agent:ocr" passed_on child_limits (pos 500) 10 default_max_depth
    ≡ ok ocr_grant
unfolding engine
ocr_delegated = refl

ocr_IsChain : IsChain ocr_grant
ocr_IsChain =
    (delegate-IsChain alice_grant "agent:ocr" passed_on child_limits (pos 500) 10 default_max_depth
      ocr_delegated parent_limits-IsWellFormed child_limits-IsWellFormed).0

delegate-IsChain_example :
    IsChain ocr_grant
    × (depth ocr_grant < default_max_depth)
    × (root_delegator ocr_grant ≡ root_delegator alice_grant)
    × (ocr_grant
        ≡ child
            (delegated alice_grant "agent:ocr" passed_on child_limits
              (pos 500)
              10
              default_max_depth)
            alice_grant)
    × Narrows (link ocr_grant) (link alice_grant)
delegate-IsChain_example =
    delegate-IsChain alice_grant "agent:ocr" passed_on child_limits (pos 500) 10 default_max_depth
      ocr_delegated parent_limits-IsWellFormed child_limits-IsWellFormed

delegate_iff_example :
    (delegate alice_grant "agent:ocr" passed_on child_limits (pos 500) 10 default_max_depth
      ≡ ok ocr_grant)
    ↔ (MayDelegate alice_grant "agent:ocr" passed_on child_limits (pos 500) 10 default_max_depth
        × (ocr_grant ≡ ocr_grant))
delegate_iff_example =
    delegate_iff alice_grant "agent:ocr" passed_on child_limits (pos 500) 10 default_max_depth
      ocr_grant

abbrev pub issuer_key : Signer
issuer_key = record { issuer = "https://legant"; kid = "k1"; key = 77 }

abbrev pub api_verifier : Verifier
api_verifier = record { issuer = "https://legant"; keys = λ kid. if_known (str_eq kid "k1") }
  where
    if_known : Bool → Option ℕ
    if_known true = some 77
    if_known false = none

ocr_words : All IsWord passed_on
unfolding engine
ocr_words = (refl, tt)

abbrev pub ocr_token : SampleToken
ocr_token = record {
  kid = "k1";
  key = 77;
  claims = minted issuer_key ocr_grant passed_on "https://api/" 10 "j1";
}

pub ocr_issued :
    issue_for_grant issuer_key ocr_grant passed_on "https://api/" 10 (some "j1") ≡ ok ocr_token
unfolding engine
ocr_issued = refl

ocr_verified :
    verify api_verifier 20 ocr_token "https://api/"
    ≡ ok (minted issuer_key ocr_grant passed_on "https://api/" 10 "j1")
unfolding engine
ocr_verified = refl

verify-issue_for_grant_example :
    verify api_verifier 20 ocr_token "https://api/"
    ≡ ok (minted issuer_key ocr_grant passed_on "https://api/" 10 "j1")
unfolding engine
verify-issue_for_grant_example =
    verify-issue_for_grant issuer_key ocr_grant passed_on "https://api/" 10 "j1" api_verifier 20
      refl (λ e. ground (arith, e, eq_iff "k1" ""))
      (λ e. ground (arith, e, eq_iff "https://api/" "")) refl (omega arith) ocr_issued

pub ocr_authorizes_lunch :
    authorize 1 (minted issuer_key ocr_grant passed_on "https://api/" 10 "j1") lunch ≡ none
unfolding engine
ocr_authorizes_lunch = refl

authorize-issue_for_grant_example :
    (contains passed_on "expenses:submit" ≡ true)
    × All
        (λ (l : Link).
          (contains l.scopes "expenses:submit" ≡ true) × (permit 1 l.constraints lunch ≡ none))
        (links ocr_grant)
authorize-issue_for_grant_example =
    authorize-issue_for_grant issuer_key ocr_grant passed_on "https://api/" 10 (some "j1")
      api_verifier 20 "https://api/" 1 lunch ocr_words ocr_IsChain ocr_issued ocr_verified
      ocr_authorizes_lunch

fields-join_example : fields (join " " passed_on) ≡ passed_on
fields-join_example = fields-join passed_on ocr_words
