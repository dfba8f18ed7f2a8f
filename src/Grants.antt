-- ===== src/Grants.antt =====
-- internal/grants/grants.go: grants declared in a file. The YAML decoder, `time.ParseDuration`,
-- `time.Parse("15:04", …)`, the digits of a number, `sort.Strings` and `json.Marshal` are parameters;
-- `time.Now()` is the argument `now`.
pub mod Trees
pub mod Linted
pub mod WhoCan
pub mod Apply
pub mod Applied
use Prim.Native.Char.{Char, code}
use Prim.Native.String.{◌++◌ as text_append}
use mathlib.Core.List.{reverse}
use legant.Base.{
  ℕ, suc, ◌+◌, ◌*◌, leb, ℤ, pos, ltb_ℤ, leb_ℤ, String, Bool, true, false, not, ◌&&◌, ◌||◌, List, [],
  ◌∷◌, ◌++◌, Option, none, some, ◌==◌, string_eq, nat_eq, int_eq, contains, is_empty, any,
  if◌then◌else◌,
}
use legant.Base.Affix.{has_suffix}
use legant.Base.Text.{fields, join}
use legant.Base.Result.{Result, ok, err, ◌>>=◌, ◌>>◌, reject_if}
use legant.World.{World}
use legant.Delegation.Constraints.{TimeWindow, Constraints, Action, validate}
use legant.Delegation.Grant.{
  Grant, root, child, link, new_root_grant, delegate, default_max_depth, root_delegator,
  actor_chain_root_to_leaf,
}
use legant.Delegation.Jwt.{DelegationClaims, Jwt}
use legant.Delegation.Token.{Signer, TokenError, issue_claims, act_of, actor_chain}
use legant.Sdk.{authorize_claims, render_provenance}
use legant.Sdk.Verify.{Verifier, VerifyError, verify}

pub data GrantError : Type 0 where
  bad_duration ttl_not_positive negative_amount bad_start bad_end bad_window : GrantError
  no_child_agent not_delegable mint_failed : GrantError

-- A safe character of a file name stays, any other is a dash.
abbrev dash : Char
dash = "-"

unfoldable pub is_safe : Char → Bool
is_safe c =
    let n = code c in
    (leb 97 n && leb n 122)
    || (leb 65 n && leb n 90)
    || (leb 48 n && leb n 57)
    || n == 45
    || n == 95
    || n == 46

unfoldable pub replace_unsafe : String → String
replace_unsafe String.[] = String.[]
replace_unsafe (String.◌∷◌ c s) = String.◌∷◌ (if is_safe c then c else dash) (replace_unsafe s)

-- `strings.Trim(s, "-")`
unfoldable pub trim_left : String → String
trim_left String.[] = String.[]
trim_left (String.◌∷◌ c s) = let rest = trim_left s in if code c == 45 then rest else String.◌∷◌ c s

unfoldable pub trim_right : String → String
trim_right String.[] = String.[]
trim_right (String.◌∷◌ c s) =
    let rest = trim_right s in if code c == 45 && rest == "" then String.[] else String.◌∷◌ c rest

unfoldable pub sanitize : String → String
sanitize s =
    let out = trim_right (trim_left (replace_unsafe s)) in if out == "" then "grant" else out

pub record TimeWindowSpec : Type 0 where
  pub weekdays : List ℤ
  pub start : String
  pub end : String
  pub tz : String

pub record Formats : Type 0 where
  pub parse_duration : String → Option ℤ
  pub parse_clock : String → Option (ℕ × ℕ)
  pub digits : ℕ → String

module _ ⦃W : World⦄ where
  pub record ConstraintSpec : Type 0 where
    pub max_amount : Option W.Float
    pub categories : List String
    pub tools : List String
    pub resources : List String
    pub time_window : Option TimeWindowSpec

  pub record ChildSpec : Type 0 where
    pub agent : String
    pub scopes : List String
    pub constraints : Option ConstraintSpec

  pub record GrantSpec : Type 0 where
    pub name : String
    pub principal : String
    pub agent : String
    pub scopes : List String
    pub audience : String
    pub ttl : String
    pub constraints : Option ConstraintSpec
    pub delegates : List ChildSpec

  pub record File : Type 0 where
    pub version : ℤ
    pub issuer : String
    pub audience : String
    pub default_ttl : String
    pub grants : List GrantSpec

  -- `issuer()`, whose default is `ccguard.DefaultIssuer`.
  unfoldable pub issuer_of : File → String
  issuer_of f = if not (f.issuer == "") then f.issuer else "https://legant.local"

  unfoldable pub audience_for : File → GrantSpec → String
  audience_for f g = if not (g.audience == "") then g.audience else f.audience

  abbrev pub or_error : {A : Type 0} → Option A → GrantError → Result GrantError A
  or_error none e = err e
  or_error (some a) e = ok a

  abbrev pub as_error : {E A : Type 0} → GrantError → Result E A → Result GrantError A
  as_error e (ok a) = ok a
  as_error e (err x) = err e

  module _ ⦃F : Formats⦄ where
    unfoldable pub label : GrantSpec → ℕ → String
    label g i =
        if not (g.name == "")
        then g.name
        else if not (g.principal == "") && not (g.agent == "")
        then join "->" (g.principal ∷ g.agent ∷ [])
        else join "#" ("grant" ∷ F.digits i ∷ [])

    abbrev pub parsed_ttl : String → Result GrantError ℤ
    parsed_ttl s = do
      d ← or_error (F.parse_duration s) bad_duration
      reject_if (leb_ℤ d (pos 0)) ttl_not_positive
      ok d

    -- One hour, in nanoseconds, where neither the grant nor the file says.
    unfoldable pub ttl_for : File → GrantSpec → Result GrantError ℤ
    ttl_for f g =
        let s = if g.ttl == "" then f.default_ttl else g.ttl in
        if s == "" then ok (pos 3600000000000) else parsed_ttl s

    abbrev pub clock : String → GrantError → Result GrantError ℕ
    clock s e = do reject_if (s == "") e; t ← or_error (F.parse_clock s) e; ok (t.0 * 60 + t.1)

    abbrev pub no_error : {A : Type 0} → Option A → Bool
    no_error none = true
    no_error (some e) = false

    abbrev pub window_for : Option TimeWindowSpec → Result GrantError (Option TimeWindow)
    window_for none = ok none
    window_for (some w) = do
      start ← clock w.start bad_start
      end ← clock w.end bad_end
      let tw : TimeWindow = record {
        weekdays = w.weekdays;
        start_min = pos start;
        end_min = pos end;
        tz = w.tz;
      }
      reject_if (not (no_error (validate tw))) bad_window
      ok (some tw)

    abbrev pub is_negative : Option W.Float → Bool
    is_negative none = false
    is_negative (some m) = W.gt W.float_zero m

    unfoldable pub to_constraints : ConstraintSpec → Result GrantError Constraints
    to_constraints c = do
      reject_if (is_negative c.max_amount) negative_amount
      w ← window_for c.time_window
      ok (record {
        max_amount = c.max_amount;
        categories = c.categories;
        tools = c.tools;
        resources = c.resources;
        time_window = w;
        rate = none;
      })

    abbrev pub no_constraints : Constraints
    no_constraints = record {
      max_amount = none;
      categories = [];
      tools = [];
      resources = [];
      time_window = none;
      rate = none;
    }

    abbrev pub constraints_for : Option ConstraintSpec → Result GrantError Constraints
    constraints_for none = ok no_constraints
    constraints_for (some c) = to_constraints c

    -- A grant to mint, with its file and its audience.
    pub record Node : Type 0 where
      pub file : String
      pub grant : Grant
      pub audience : String

    -- The loop over `g.Delegate`.
    unfoldable pub build_children :
        Grant → String → String → ℤ → ℕ → List ChildSpec → Result GrantError (List Node)
    build_children top base aud ttl now [] = ok []
    build_children top base aud ttl now (c ∷ cs) = do
      reject_if (c.agent == "") no_child_agent
      k ← constraints_for c.constraints
      g ← as_error not_delegable (delegate top c.agent c.scopes k ttl now default_max_depth)
      rest ← build_children top base aud ttl now cs
      ok (
          record {
            file = join "" (base ∷ "__" ∷ sanitize c.agent ∷ ".jwt" ∷ []);
            grant = g;
            audience = aud;
          }
          ∷ rest)

    unfoldable pub build_tree : File → GrantSpec → ℕ → ℕ → Result GrantError (List Node)
    build_tree f g i now = do
      ttl ← ttl_for f g
      k ← constraints_for g.constraints
      let top = new_root_grant g.principal g.agent g.scopes k ttl now
      let base = sanitize (label g i)
      rest ← build_children top base (audience_for f g) ttl now g.delegates
      ok (
          record { file = join "" (base ∷ ".jwt" ∷ []); grant = top; audience = audience_for f g }
          ∷ rest)

    pub data Problem : Type 0 where
      unknown_version no_grants no_principal no_agent same_parties no_scopes no_audience bad_ttl :
          Problem
      duplicate_grant bad_constraints bad_tree : Problem

    pub record Issue : Type 0 where
      pub grant : String
      pub is_error : Bool
      pub problem : Problem

    abbrev pub error_if : Bool → String → Problem → List Issue
    error_if true g p = record { grant = g; is_error = true; problem = p } ∷ []
    error_if false g p = []

    abbrev pub warn_if : Bool → String → Problem → List Issue
    warn_if true g p = record { grant = g; is_error = false; problem = p } ∷ []
    warn_if false g p = []

    abbrev pub failed : {E A : Type 0} → Result E A → Bool
    failed (ok a) = false
    failed (err e) = true

    abbrev pub key_of : File → GrantSpec → String
    key_of f g = join "\0" (g.principal ∷ g.agent ∷ audience_for f g ∷ [])

    abbrev pub tree_issues : File → GrantSpec → ℕ → ℕ → Bool → List Issue
    tree_issues f g i now true = error_if true (label g i) bad_constraints
    tree_issues f g i now false = error_if (failed (build_tree f g i now)) (label g i) bad_tree

    -- The checks of the fields of one grant.
    unfoldable pub field_issues : File → GrantSpec → String → List String → List Issue
    field_issues f g n seen =
        error_if (g.principal == "") n no_principal
        ++ (error_if (g.agent == "") n no_agent
            ++ (error_if (not (g.principal == "") && g.principal == g.agent) n same_parties
                ++ (error_if (is_empty g.scopes) n no_scopes
                    ++ (error_if (audience_for f g == "") n no_audience
                        ++ (error_if (failed (ttl_for f g)) n bad_ttl
                            ++ warn_if (contains seen (key_of f g)) n duplicate_grant)))))

    -- What `Lint` finds about one grant.
    unfoldable pub lint_grant : File → GrantSpec → ℕ → ℕ → List String → List Issue
    lint_grant f g i now seen =
        field_issues f g (label g i) seen
        ++ tree_issues f g i now (failed (constraints_for g.constraints))

    unfoldable pub lint_grants : File → List GrantSpec → ℕ → ℕ → List String → List Issue
    lint_grants f [] i now seen = []
    lint_grants f (g ∷ gs) i now seen =
        lint_grant f g i now seen ++ lint_grants f gs (suc i) now (key_of f g ∷ seen)

    unfoldable pub file_issues : File → List Issue
    file_issues f =
        warn_if (not (f.version == pos 0) && not (f.version == pos 1)) "" unknown_version
        ++ error_if (is_empty f.grants) "" no_grants

    unfoldable pub lint : File → ℕ → List Issue
    lint f now = file_issues f ++ lint_grants f f.grants 0 now []

    abbrev pub issue_is_error : Issue → Bool
    issue_is_error i = i.is_error

    unfoldable pub has_errors : List Issue → Bool
    has_errors issues = any issue_is_error issues
