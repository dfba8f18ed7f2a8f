-- ===== src/Tests/Ccguard.antt =====
-- Tests and instances for internal/ccguard: a reviewer agent reads a file of the repository.
use legant.Base.{pos, ◌≡◌, refl, true, false, [], ◌∷◌, none, some, ◌==◌, string_eq, if◌then◌else◌}
use legant.Base.Affix.{has_prefix, trim_prefix}
use legant.Base.Result.{ok}
use legant.Delegation.Jwt.{nobody, actor, DelegationClaims}
use legant.Ccguard.{
  Platform, Overlay, Classified, with_overlay, values_with, contained, abs_clean, abs_resolve,
  resource_values, check_paths, check_command, check_host, host_of, check_verb, Guard, decide,
}
use legant.Ccguard.Decided.{decide-without_overlay}
use legant.Tests.Sample.{sample, sample_jwt}
use legant.Tests.Delegation.{api_verifier}
use legant.Tests.Sdk.{resource_server}

unfoldable guarded : Unit {0}
unfolding resource_server has_prefix trim_prefix with_overlay values_with contained abs_clean
    abs_resolve resource_values check_paths check_command check_host host_of check_verb decide
guarded = tt

-- Every path is absolute and clean, and only a path itself lies below it.
abbrev flat : Platform
flat = record {
  is_abs = λ p. true;
  join_path = λ cwd p. p;
  clean = λ p. p;
  rel = λ root target. if root == target then some "." else none;
  real_path = λ p. p;
  command_executables = λ c. c ∷ [];
  catastrophic = λ c. false;
  redirect_targets = λ c. [];
  trim_space = λ u. u;
}

abbrev reviewer_claims : DelegationClaims
reviewer_claims = record {
  issuer = "https://legant";
  subject = "user:alice";
  audience = "https://api/" ∷ [];
  expires_at = some 100;
  issued_at = some 10;
  id = "j1";
  scope = "fs.read";
  act = actor "agent:reviewer" nobody;
  constraints = some (record {
    max_amount = none;
    categories = [];
    tools = "Read" ∷ [];
    resources = "path:/repo/a.go" ∷ "deny-path:/repo/key" ∷ [];
    time_window = none;
    rate = none;
  });
}

abbrev local_rules : Overlay
local_rules = record {
  deny_paths = "/repo/secret" ∷ [];
  deny_cmds = [];
  deny_hosts = [];
  deny_tools = "Bash" ∷ [];
}

abbrev reviewer_guard : Guard flat
reviewer_guard = record {
  verifier = record {
    issuer = "https://legant";
    audience = "https://api/";
    keys = api_verifier.keys;
    feed = none;
    feed_fail_closed = false;
    feed_max_staleness = pos 0;
  };
  feed = some ("j9" ∷ []);
  token = record { kid = "k1"; key = 77; claims = reviewer_claims };
  deny_all_reason = "";
  self_protect = "/repo/token" ∷ [];
  overlay = some local_rules;
}

abbrev reads : Classified
reads = record { verb = "fs.read"; target = "/repo/a.go"; paths = "/repo/a.go" ∷ []; cwd = "/repo" }

read_allowed : decide flat reviewer_guard 20 "Read" reads ≡ ok reviewer_claims
unfolding guarded
read_allowed = refl

decide-without_overlay_example :
    decide flat (record reviewer_guard { overlay = none }) 20 "Read" reads ≡ ok reviewer_claims
decide-without_overlay_example =
    decide-without_overlay flat reviewer_guard 20 "Read" reads local_rules read_allowed
