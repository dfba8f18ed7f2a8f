-- ===== src/Tests/Grants.antt =====
-- Tests and instances for internal/grants: a treasury bot with a smaller reconciler.
use mathlib.Core.Path.{subst, sym, ap}
use mathlib.Core.Option.{some-injective}
use legant.Base.{
  String, ℕ, Option, false, length, pos, ◌≡◌, refl, List, [], ◌∷◌, none, some, arith, eq_iff, All,
  string_eq, ◌==◌, if◌then◌else◌,
}
use legant.Base.Affix.{cut_prefix, has_suffix}
use legant.Base.Text.{join, is_word, no_space}
use legant.Base.Result.{Result, ok, err, ok-injective}
use legant.Delegation.Constraints.{Action}
use legant.Delegation.Token.{issue_claims}
use legant.Sdk.{
  authorize_claims, render_provenance, canonicalize_audience, audience_matches, scope_listed,
  window_allows, permit_canonical, actors_of,
}
use legant.Sdk.Verify.{verify, trusted_key}
use legant.Delegation.Constraints.Laws.{IsWellFormed}
use legant.Grants.{
  GrantError, Formats, ConstraintSpec, ChildSpec, GrantSpec, File, Node, is_safe, replace_unsafe,
  trim_left, trim_right, sanitize, audience_for, label, ttl_for, to_constraints, build_children,
  build_tree, field_issues, lint_grant, lint_grants, file_issues, lint, has_errors,
}
use legant.Grants.Trees.{Sealed, Declared, first_file, build_tree-Declared, build_tree-same_file}
use legant.Grants.Linted.{Builds, lint-Builds}
use legant.Grants.WhoCan.{
  Setup, Match, without_window, mint_grant, authorize_node, match_node, match_nodes, who_can_from,
  who_can,
}
use legant.Grants.WhoCan.Matches.{Justified, who_can-Justified}
use legant.Grants.Apply.{
  ClaimDays, Shape, Rendering, canonical_constraints, aud_string, fingerprint_grant,
  fingerprint_token, find_file, write_file, apply_node, apply_nodes, Applied,
}
use legant.Grants.Applied.{IsPlain, Distinct, untouched, apply_nodes_idem}
use legant.Delegation.Jwt.{DelegationClaims}
use legant.Tests.Sample.{SampleToken, sample_sign}
use legant.Tests.Sample.{sample, sample_jwt}
use legant.Tests.Delegation.{engine, issuer_key, api_verifier}

instance abbrev formats : Formats
formats = record {
  parse_duration = λ s. if s == "1h" then some (pos 60) else none;
  parse_clock = λ s. none;
  digits = λ n. "0";
}

unfoldable pub declaring : Unit {0}
unfolding engine join is_safe replace_unsafe trim_left trim_right sanitize audience_for label
    ttl_for to_constraints build_children build_tree field_issues lint_grant lint_grants file_issues
    lint has_errors issue_claims authorize_claims render_provenance canonicalize_audience
    audience_matches scope_listed window_allows permit_canonical actors_of verify trusted_key
    without_window mint_grant authorize_node match_node match_nodes who_can_from who_can cut_prefix
    has_suffix
declaring = tt

abbrev caps : ConstraintSpec
caps = record {
  max_amount = some 500;
  categories = "vendor" ∷ [];
  tools = [];
  resources = [];
  time_window = none;
}

abbrev reconciler : ChildSpec
reconciler = record {
  agent = "agent:reconciler";
  scopes = "transfer:prepare" ∷ [];
  constraints = none;
}

abbrev payments : GrantSpec
payments = record {
  name = "";
  principal = "user:treasury";
  agent = "agent:payments";
  scopes = "transfer:prepare" ∷ [];
  audience = "https://treasury/";
  ttl = "1h";
  constraints = some caps;
  delegates = reconciler ∷ [];
}

abbrev file : File
file = record {
  version = pos 1;
  issuer = "";
  audience = "https://api/";
  default_ttl = "";
  grants = payments ∷ record payments { audience = "https://books/" } ∷ [];
}

no_findings : lint file 5 ≡ []
unfolding declaring
no_findings = refl

lint-Builds_example : Builds file file.grants 0 5
unfolding declaring
lint-Builds_example = lint-Builds file 5 refl

caps-Sealed : Sealed (some caps)
unfolding declaring
caps-Sealed k h =
    subst IsWellFormed (ok-injective h)
      (record { categories = λ e. cc e; tools = λ e. cc e; resources = λ e. cc e })

none-Sealed : Sealed none
unfolding declaring
none-Sealed k h =
    subst IsWellFormed (ok-injective h)
      (record { categories = λ e. cc e; tools = λ e. cc e; resources = λ e. cc e })

abbrev nodes_of : Result GrantError (List Node) → List Node
nodes_of (ok nodes) = nodes
nodes_of (err e) = []

abbrev payments_nodes : List Node
payments_nodes = nodes_of (build_tree file payments 0 5)

payments_built : build_tree file payments 0 5 ≡ ok payments_nodes
unfolding declaring
payments_built = refl

build_tree-Declared_example :
    All (Declared "user:treasury" (audience_for file payments)) payments_nodes
build_tree-Declared_example =
    build_tree-Declared file payments 0 5 caps-Sealed (none-Sealed, tt) payments_built

abbrev books : GrantSpec
books = record payments { audience = "https://books/" }

books_built : build_tree file books 1 5 ≡ ok (nodes_of (build_tree file books 1 5))
unfolding declaring
books_built = refl

build_tree-same_file_example :
    first_file payments_nodes ≡ first_file (nodes_of (build_tree file books 1 5))
build_tree-same_file_example =
    build_tree-same_file file payments books 0 1 5 refl refl refl refl
      (λ e. ground (arith, e, eq_iff "user:treasury" ""))
      (λ e. ground (arith, e, eq_iff "agent:payments" "")) payments_built books_built

abbrev local : Setup
local = record { issuer = "https://legant"; signer = issuer_key; keys = api_verifier.keys }

abbrev prepare_transfer : Action
prepare_transfer = record {
  scope = "transfer:prepare";
  amount = 400;
  category_of = "vendor";
  tool_name = "";
  resource_of = "";
  at = 0;
}

abbrev matches_of : Result GrantError (List Match) → List Match
matches_of (ok ms) = ms
matches_of (err e) = []

abbrev asked : Result GrantError (List Match)
asked = who_can file local prepare_transfer 5 (some "j9")

who_can_answers : asked ≡ ok (matches_of asked)
unfolding declaring
who_can_answers = refl

four_can : length (matches_of asked) ≡ 4
unfolding declaring
four_can = refl

who_can-Justified_example : All (Justified file local prepare_transfer 5) (matches_of asked)
who_can-Justified_example =
    who_can-Justified file local prepare_transfer 5 (some "j9") who_can_answers

-- A fingerprint of the sample is the user, the audience and the scopes.
abbrev sample_canonical : Shape → String
sample_canonical sh = join "|" (sh.sub ∷ sh.aud ∷ sh.scope)

sample-payload :
    (kid : String) (key : ℕ) (c : DelegationClaims) (t : SampleToken)
    → ClaimDays c
    → sample_sign kid key c ≡ some t
    → some t.claims ≡ some c
sample-payload kid key c t days h =
    ap (λ (x : SampleToken). some x.claims) (sym (some-injective _ _ h))

instance abbrev rendering : Rendering
rendering = record {
  sort_strings = λ l. l;
  sort_one = λ s. refl;
  canonical = sample_canonical;
  payload = λ t. some t.claims;
  payload-sign = sample-payload;
}

unfoldable pub applying : Unit {0}
unfolding declaring canonical_constraints aud_string fingerprint_grant fingerprint_token find_file
    write_file apply_node apply_nodes is_word no_space
applying = tt

abbrev draw : String → Option String
draw name = some "j9"

abbrev nothing_done : Applied
nothing_done = record { dir = []; changes = []; minted = 0 }

abbrev applied_of : Result GrantError Applied → Applied
applied_of (ok a) = a
applied_of (err e) = nothing_done

abbrev first_apply : Result GrantError Applied
first_apply = apply_nodes local false 5 draw "payments" [] payments_nodes

first_applied : first_apply ≡ ok (applied_of first_apply)
unfolding applying
first_applied = refl

two_minted : (applied_of first_apply).minted ≡ 2
unfolding applying
two_minted = refl

two_files : Distinct payments_nodes
unfolding applying
two_files = (
  (
    λ e. ground (
      arith,
      e,
      eq_iff "user-treasury--agent-payments__agent-reconciler.jwt"
          "user-treasury--agent-payments.jwt",
    ),
    tt,
  ),
  (tt, tt),
)

payments_words : All IsPlain payments_nodes
unfolding applying
payments_words = (((refl, tt), λ w e. cc e), (((refl, tt), λ w e. cc e), tt))

apply_nodes_idem_example :
    apply_nodes local false 9 draw "payments" (applied_of first_apply).dir payments_nodes
    ≡ ok (untouched "payments" (applied_of first_apply).dir payments_nodes)
apply_nodes_idem_example =
    apply_nodes_idem local false 5 9 draw draw "payments" [] payments_nodes two_files payments_words
      first_applied
