-- ===== src/Ccguard.antt =====
-- internal/ccguard/guard.go with the overlay and the paths that it uses: the decision on one tool
-- call of a coding agent. path/filepath, the file system and the regular expressions of command.go
-- come from the interface `Platform`; the classification of the call is an argument of `decide`.
pub mod Deny
pub mod Decided
use legant.Base.{
  ℕ, String, Bool, true, false, not, ◌&&◌, ◌||◌, List, [], ◌∷◌, ◌++◌, Option, none, some, ◌==◌,
  string_eq, contains, is_empty, any, map, if◌then◌else◌,
}
use Prim.Native.String.{◌++◌ as text_append}
use legant.Base.Affix.{has_prefix, trim_prefix, has_suffix}
use legant.Base.Result.{Result, ok, err, ◌>>=◌, ◌>>◌, reject_if}
use legant.World.{World, Url}
use legant.Delegation.AllowList.{deny_all}
use legant.Delegation.Constraints.{TimeWindow, Constraints, ◌orelse◌}
use legant.Delegation.Jwt.{DelegationClaims, Jwt}
use legant.Sdk.{scope_listed, window_allows}
use legant.Sdk.Verify.{VerifyError, Verifier, verify}

pub record Platform : Type 0 where
  pub is_abs : String → Bool
  pub join_path : String → String → String
  pub clean : String → String
  pub rel : String → String → Option String
  pub real_path : String → String
  pub command_executables : String → List String
  pub catastrophic : String → Bool
  pub redirect_targets : String → List String
  pub trim_space : String → String

pub record Overlay : Type 0 where
  pub deny_paths : List String
  pub deny_cmds : List String
  pub deny_hosts : List String
  pub deny_tools : List String

pub record Classified : Type 0 where
  pub verb : String
  pub target : String
  pub paths : List String
  pub cwd : String

pub data Block : Type 0 where
  fail_closed token_rejected revoked outside_window no_capability tool_unlisted tool_denied : Block
  restricted path_denied no_path path_outside : Block
  catastrophic_command command_denied unparsed_command command_unlisted : Block
  host_denied host_unlisted : Block

-- `withOverlay`: the rules of the token, and those that the overlay adds.
unfoldable pub with_overlay : Option Overlay → List String → (Overlay → List String) → List String
with_overlay none rules sel = rules
with_overlay (some o) rules sel = if is_empty (sel o) then rules else rules ++ sel o

unfoldable pub values_with : String → List String → List String
values_with prefix [] = []
values_with prefix (r ∷ rs) =
    let rest = values_with prefix rs in
    if has_prefix r prefix then trim_prefix r prefix ∷ rest else rest

-- A path relative to a root leads out of it.
abbrev below : Option String → Bool
below none = false
below (some r) = r == "." || not (r == ".." || has_prefix r "../")

abbrev pub verify_or_block : {A : Type 0} → Result VerifyError A → Result Block A
verify_or_block (ok a) = ok a
verify_or_block (err e) = err token_rejected

abbrev pub pass : Option Block → Result Block Unit
pass none = ok tt
pass (some b) = err b

abbrev pub block_if : Bool → Block → Option Block
block_if b r = if b then some r else none

module _ (P : Platform) where
  unfoldable pub contained : String → List String → Bool
  contained target roots = any (λ root. below (P.rel root target)) roots

  unfoldable pub abs_clean : String → String → String
  abs_clean cwd p =
      if p == ""
      then ""
      else P.clean (if not (P.is_abs p) && not (cwd == "") then P.join_path cwd p else p)

  unfoldable pub abs_resolve : List String → String → List String
  abs_resolve [] cwd = []
  abs_resolve (p ∷ ps) cwd =
      let a = abs_clean cwd p in
      let rest = abs_resolve ps cwd in if not (a == "") then a ∷ rest else rest

  -- `host == h || strings.HasSuffix(host, "."+h)`
  abbrev pub under_host : String → String → Bool
  under_host host h = host == h || has_suffix host (text_append "." h)

  module _ ⦃W : World⦄ where
    abbrev resources_in : Option Constraints → List String
    resources_in none = []
    resources_in (some k) = k.resources

    abbrev pub tools_in : Option Constraints → List String
    tools_in none = []
    tools_in (some k) = k.tools

    abbrev pub claim_resources : DelegationClaims → List String
    claim_resources c = resources_in c.constraints

    unfoldable pub resource_values : DelegationClaims → String → List String
    resource_values c prefix = values_with prefix (claim_resources c)

    abbrev pub deny_roots : List String → Option Overlay → DelegationClaims → String → List String
    deny_roots self_protect overlay c cwd =
        self_protect
        ++ abs_resolve (with_overlay overlay (resource_values c "deny-path:") (λ o. o.deny_paths))
            cwd

    abbrev pub outside_roots : DelegationClaims → List String → String → List String → Option Block
    outside_roots c paths cwd roots =
        if is_empty roots
        then none
        else if is_empty paths
        then some no_path
        else block_if
            (any (λ p. not (contained (P.real_path p) (map P.real_path (abs_resolve roots cwd))))
              paths)
            path_outside

    unfoldable pub check_paths :
        List String → Option Overlay → DelegationClaims → List String → String → Option Block
    check_paths self_protect overlay c paths cwd =
        block_if (contains (claim_resources c) deny_all) restricted
        orelse block_if
            (any
              (λ p.
                contained (P.real_path p) (map P.real_path (deny_roots self_protect overlay c cwd)))
              paths)
            path_denied
        orelse outside_roots c paths cwd (resource_values c "path:")

    abbrev pub unlisted_command : List String → List String → Option Block
    unlisted_command allowed exes =
        if is_empty allowed
        then none
        else if is_empty exes
        then some unparsed_command
        else block_if (any (λ e. not (contains allowed e)) exes) command_unlisted

    unfoldable pub check_command :
        List String → Option Overlay → DelegationClaims → String → String → Option Block
    check_command self_protect overlay c command cwd =
        block_if (contains (claim_resources c) deny_all) restricted
        orelse block_if (P.catastrophic command) catastrophic_command
        orelse block_if
            (any
              (contains (with_overlay overlay (resource_values c "deny-cmd:") (λ o. o.deny_cmds)))
              (P.command_executables command))
            command_denied
        orelse unlisted_command (resource_values c "cmd:") (P.command_executables command)
        orelse (if is_empty (P.redirect_targets command)
            then none
            else check_paths self_protect overlay c (abs_resolve (P.redirect_targets command) cwd)
                cwd)

    abbrev host_in : Option Url → String
    host_in none = ""
    host_in (some u) = W.to_lower (W.hostname u)

    unfoldable pub host_of : String → String
    host_of raw = host_in (W.url_parse (P.trim_space raw))

    unfoldable pub check_host : Option Overlay → DelegationClaims → String → Option Block
    check_host overlay c url =
        let host = host_of url in
        let allowed = resource_values c "host:" in
        block_if (contains (claim_resources c) deny_all) restricted
        orelse block_if
            (any (under_host host)
              (with_overlay overlay (resource_values c "deny-host:") (λ o. o.deny_hosts)))
            host_denied
        orelse block_if (not (is_empty allowed) && not (any (under_host host) allowed))
            host_unlisted

    unfoldable pub check_verb :
        List String → Option Overlay → DelegationClaims → Classified → Option Block
    check_verb self_protect overlay c act =
        if act.verb == "fs.read" || act.verb == "fs.write"
        then check_paths self_protect overlay c act.paths act.cwd
        else if act.verb == "shell.exec"
        then check_command self_protect overlay c act.target act.cwd
        else if act.verb == "net.fetch"
        then check_host overlay c act.target
        else none

    abbrev window_closed : Option TimeWindow → ℕ → Bool
    window_closed none now = false
    window_closed (some w) now = not (window_allows w now)

    abbrev pub out_of_window : Option Constraints → ℕ → Bool
    out_of_window none now = false
    out_of_window (some k) now = window_closed k.time_window now

    -- The ids on the feed, where there is one.
    abbrev pub on_feed : Option (List String) → String → Bool
    on_feed none id = false
    on_feed (some jtis) id = not (id == "") && contains jtis id

    module _ ⦃J : Jwt⦄ where
      pub record Guard : Type 0 where
        pub verifier : Verifier
        pub feed : Option (List String)
        pub token : J.Token
        pub deny_all_reason : String
        pub self_protect : List String
        pub overlay : Option Overlay

      -- An allowed call comes back with the claims that allowed it.
      unfoldable pub decide : Guard → ℕ → String → Classified → Result Block DelegationClaims
      decide g now tool act = do
        reject_if (not (g.deny_all_reason == "")) fail_closed
        c ← verify_or_block (verify g.verifier now g.token)
        reject_if (on_feed g.feed c.id) revoked
        reject_if (out_of_window c.constraints now) outside_window
        reject_if (not (scope_listed c.scope act.verb) && not (scope_listed c.scope "*"))
            no_capability
        reject_if
            (not (is_empty (tools_in c.constraints))
              && not (contains (tools_in c.constraints) tool))
            tool_unlisted
        reject_if
            (contains (with_overlay g.overlay (resource_values c "deny-tool:") (λ o. o.deny_tools))
              tool)
            tool_denied
        pass (check_verb g.self_protect g.overlay c act)
        ok c
