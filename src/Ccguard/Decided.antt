-- ===== src/Ccguard/Decided.antt =====
-- What `Decide` of internal/ccguard/guard.go allows.
use mathlib.Core.Path.{subst}
use legant.Base.{
  ℕ, String, ◌≡◌, refl, ap, Bool, true, false, not, ◌&&◌, ◌||◌, Option, none, some, arith, ◌==◌,
  string_eq, contains, is_empty,
}
use legant.Base.Result.{Result, ok, err, >>=-eq-ok, reject_if-eq-ok, ok-injective}
use legant.World.{World}
use legant.Delegation.Jwt.{DelegationClaims, Jwt}
use legant.Sdk.{scope_listed}
use legant.Sdk.Verify.{VerifyError, verify}
use legant.Ccguard.{
  Platform, Overlay, Classified, Block, fail_closed, revoked, outside_window, no_capability,
  tool_unlisted, tool_denied, with_overlay, pass, verify_or_block, tools_in, resource_values,
  check_verb, out_of_window, on_feed, Guard, decide,
}
use legant.Ccguard.Deny.{contains-with_overlay, verb_mono}

module _ (P : Platform) ⦃W : World⦄ ⦃J : Jwt⦄ where
  -- An allowed call: every check of the guard is passed.
  pub record Allowed (g : Guard P) (now : ℕ) (tool : String) (act : Classified)
      (c : DelegationClaims) : Type 0 where
    pub not_closed : (g.deny_all_reason == "") ≡ true
    pub verified : verify g.verifier now g.token ≡ ok c
    pub not_revoked : on_feed P g.feed c.id ≡ false
    pub in_window : out_of_window P c.constraints now ≡ false
    pub capable : (scope_listed c.scope act.verb || scope_listed c.scope "*") ≡ true
    pub tool_listed :
        (is_empty (tools_in P c.constraints) || contains (tools_in P c.constraints) tool) ≡ true
    pub tool_free :
        contains
          (with_overlay g.overlay (resource_values P c "deny-tool:") (λ o. o.deny_tools))
          tool
        ≡ false
    pub target_free : check_verb P g.self_protect g.overlay c act ≡ none

  verified-inv :
      {A : Type 0} (r : Result VerifyError A) (a : A) → verify_or_block r ≡ ok a → r ≡ ok a
  verified-inv (ok b) a h = ap ok (ok-injective h)
  verified-inv (err e) a h = cc

  pass-inv : (o : Option Block) (u : Unit) → pass o ≡ ok u → o ≡ none
  pass-inv none u h = refl
  pass-inv (some b) u h = cc

  -- A call is allowed only if every check of the guard is passed.
  pub decide-Allowed :
      (g : Guard P) (now : ℕ) (tool : String) (act : Classified) {c : DelegationClaims}
      → decide P g now tool act ≡ ok c
      → Allowed g now tool act c
  unfolding decide
  decide-Allowed g now tool act {c} h =
      let (open_, h1) = reject_if-eq-ok (not (g.deny_all_reason == "")) fail_closed _ h in
      let (d, seen, h2) = >>=-eq-ok (verify_or_block (verify g.verifier now g.token)) _ h1 in
      let (free, h3) = reject_if-eq-ok (on_feed P g.feed d.id) revoked _ h2 in
      let (timely, h4) = reject_if-eq-ok (out_of_window P d.constraints now) outside_window _ h3 in
      let (scoped, h5) =
        reject_if-eq-ok (not (scope_listed d.scope act.verb) && not (scope_listed d.scope "*"))
          no_capability _ h4 in
      let (listed, h6) =
        reject_if-eq-ok
          (not (is_empty (tools_in P d.constraints))
            && not (contains (tools_in P d.constraints) tool))
          tool_unlisted _ h5 in
      let (kept, h7) =
        reject_if-eq-ok
          (contains (with_overlay g.overlay (resource_values P d "deny-tool:") (λ o. o.deny_tools))
            tool)
          tool_denied _ h6 in
      let (u, passed, h8) = >>=-eq-ok (pass (check_verb P g.self_protect g.overlay d act)) _ h7 in
      subst (Allowed g now tool act) (ok-injective h8) (record {
        not_closed = ground (arith, open_);
        verified = verified-inv (verify g.verifier now g.token) d seen;
        not_revoked = free;
        in_window = timely;
        capable = ground (arith, scoped);
        tool_listed = ground (arith, listed);
        tool_free = kept;
        target_free = pass-inv (check_verb P g.self_protect g.overlay d act) u passed;
      })

  -- Where every check is passed, the call is allowed.
  Allowed-decide :
      (g : Guard P) (now : ℕ) (tool : String) (act : Classified) (c : DelegationClaims)
      → Allowed g now tool act c
      → decide P g now tool act ≡ ok c
  unfolding decide
  Allowed-decide g now tool act c a =
      rw
        (
          a.not_closed,
          a.verified,
          a.not_revoked,
          a.in_window,
          neither (scope_listed c.scope act.verb) (scope_listed c.scope "*") a.capable,
          outside (is_empty (tools_in P c.constraints)) (contains (tools_in P c.constraints) tool)
              a.tool_listed,
          a.tool_free,
          a.target_free,
        )
        refl
    where
      neither : (x y : Bool) → (x || y) ≡ true → (not x && not y) ≡ false
      neither x y h = ground arith

      outside : (x y : Bool) → (x || y) ≡ true → (not x && not y) ≡ false
      outside x y h = ground arith

  -- What the guard allows with an overlay it allows without: an overlay only takes away.
  pub decide-without_overlay :
      (g : Guard P) (now : ℕ) (tool : String) (act : Classified) (o : Overlay)
      {c : DelegationClaims}
      → decide P (record g { overlay = some o }) now tool act ≡ ok c
      → decide P (record g { overlay = none }) now tool act ≡ ok c
  decide-without_overlay g now tool act o {c} h =
      let a = decide-Allowed (record g { overlay = some o }) now tool act h in
      Allowed-decide (record g { overlay = none }) now tool act c
        (record {
          not_closed = a.not_closed;
          verified = a.verified;
          not_revoked = a.not_revoked;
          in_window = a.in_window;
          capable = a.capable;
          tool_listed = a.tool_listed;
          tool_free =
              contains-with_overlay o (resource_values P c "deny-tool:") (λ k. k.deny_tools) tool
                a.tool_free;
          target_free = verb_mono P g.self_protect o c act a.target_free;
        })
