-- ===== src/Ccguard/Deny.antt =====
-- Each check of the guard with an overlay is at least as strict as without.
use legant.Base.{
  String, ◌≡◌, refl, Bool, true, false, ◌||◌, List, [], ◌∷◌, ◌++◌, none, some, arith, ◌==◌,
  string_eq, contains, contains-append, is_empty, any, map, Bool-cases, inl, inr, if◌then◌else◌,
}
use legant.World.{World}
use legant.Delegation.AllowList.{deny_all}
use legant.Delegation.Jwt.{DelegationClaims}
use legant.Delegation.Constraints.Gates.{orelse-none}
use legant.Ccguard.{
  Platform, Overlay, Classified, Block, restricted, path_denied, catastrophic_command,
  command_denied, host_denied, with_overlay, block_if, contained, abs_clean, abs_resolve,
  under_host, claim_resources, resource_values, deny_roots, check_paths, unlisted_command,
  check_command, check_host, host_of, check_verb,
}

any-append :
    (test : String → Bool) (a b : List String) → any test (a ++ b) ≡ (any test a || any test b)
unfolding any
any-append test [] b = refl
any-append test (x ∷ a) b = ground (arith, any-append test a b)

pub any-with_overlay :
    (test : String → Bool) (o : Overlay) (rules : List String) (sel : Overlay → List String)
    → any test (with_overlay (some o) rules sel) ≡ false
    → any test (with_overlay none rules sel) ≡ false
unfolding with_overlay
any-with_overlay test o rules sel h = elim (Bool-cases (is_empty (sel o))) [
  | inl bare ↦ rw bare at h
  | inr more ↦ ground (arith, any-append test rules (sel o), rw more at h)
]

pub contains-with_overlay :
    (o : Overlay) (rules : List String) (sel : Overlay → List String) (x : String)
    → contains (with_overlay (some o) rules sel) x ≡ false
    → contains (with_overlay none rules sel) x ≡ false
unfolding with_overlay
contains-with_overlay o rules sel x h = elim (Bool-cases (is_empty (sel o))) [
  | inl bare ↦ rw bare at h
  | inr more ↦ ground (arith, contains-append rules (sel o) x, rw more at h)
]

block_if-inv : (b : Bool) (r : Block) → block_if b r ≡ none → b ≡ false
block_if-inv true r h = absurd (ground arith)
block_if-inv false r h = refl

any_mono :
    (f g : String → Bool) (l : List String)
    → ((x : String) → f x ≡ false → g x ≡ false)
    → any f l ≡ false
    → any g l ≡ false
unfolding any
any_mono f g [] imp h = refl
any_mono f g (x ∷ l) imp h = ground (arith, imp x, any_mono f g l imp)

module _ (P : Platform) where
  any_resolved :
      (test : String → Bool) (rules more : List String) (cwd : String)
      → any test (map P.real_path (abs_resolve P (rules ++ more) cwd)) ≡ false
      → any test (map P.real_path (abs_resolve P rules cwd)) ≡ false
  unfolding any abs_resolve
  any_resolved test [] more cwd h = refl
  any_resolved test (r ∷ rules) more cwd h = elim (Bool-cases (abs_clean P cwd r == "")) [
    | inl blank ↦ rw blank (any_resolved test rules more cwd (rw blank at h))
    | inr named ↦ rw named (ground (arith, rw named at h, any_resolved test rules more cwd))
  ]

  any_protected :
      (test : String → Bool) (protect a b : List String)
      → (any test (map P.real_path a) ≡ false → any test (map P.real_path b) ≡ false)
      → any test (map P.real_path (protect ++ a)) ≡ false
      → any test (map P.real_path (protect ++ b)) ≡ false
  unfolding any
  any_protected test [] a b imp h = imp h
  any_protected test (p ∷ protect) a b imp h = ground (arith, any_protected test protect a b imp, h)

  any_rules :
      (test : String → Bool) (o : Overlay) (rules : List String) (cwd : String)
      → any test
          (map P.real_path (abs_resolve P (with_overlay (some o) rules (λ k. k.deny_paths)) cwd))
        ≡ false
      → any test (map P.real_path (abs_resolve P (with_overlay none rules (λ k. k.deny_paths)) cwd))
        ≡ false
  unfolding with_overlay
  any_rules test o rules cwd h = elim (Bool-cases (is_empty o.deny_paths)) [
    | inl bare ↦ rw bare at h
    | inr more ↦ any_resolved test rules o.deny_paths cwd (rw more at h)
  ]

  module _ ⦃W : World⦄ (protect : List String) (o : Overlay) (c : DelegationClaims) where
    roots_mono :
        (target cwd : String)
        → contained P target (map P.real_path (deny_roots P protect (some o) c cwd)) ≡ false
        → contained P target (map P.real_path (deny_roots P protect none c cwd)) ≡ false
    unfolding contained
    roots_mono target cwd h =
        any_protected _ protect _ _ (any_rules _ o (resource_values P c "deny-path:") cwd) h

    paths_mono :
        (paths : List String) (cwd : String)
        → check_paths P protect (some o) c paths cwd ≡ none
        → check_paths P protect none c paths cwd ≡ none
    unfolding check_paths
    paths_mono paths cwd h =
        let (sealed, h1) =
          orelse-none (block_if (contains (claim_resources P c) deny_all) restricted) _ h in
        let (denied, rest) = orelse-none (block_if (any _ paths) path_denied) _ h1 in
        let free =
          any_mono _
            (λ p. contained P (P.real_path p) (map P.real_path (deny_roots P protect none c cwd)))
            paths (λ p. roots_mono (P.real_path p) cwd) (block_if-inv _ path_denied denied) in
        rw (sealed, free) rest

    command_mono :
        (command cwd : String)
        → check_command P protect (some o) c command cwd ≡ none
        → check_command P protect none c command cwd ≡ none
    unfolding check_command
    command_mono command cwd h =
        let exes = P.command_executables command in
        let (sealed, h1) =
          orelse-none (block_if (contains (claim_resources P c) deny_all) restricted) _ h in
        let (tame, h2) =
          orelse-none (block_if (P.catastrophic command) catastrophic_command) _ h1 in
        let (denied, h3) = orelse-none (block_if (any _ exes) command_denied) _ h2 in
        let (listed, rest) =
          orelse-none (unlisted_command P (resource_values P c "cmd:") exes) _ h3 in
        let free =
          any_mono _
            (contains (with_overlay none (resource_values P c "deny-cmd:") (λ k. k.deny_cmds))) exes
            (λ e. contains-with_overlay o (resource_values P c "deny-cmd:") (λ k. k.deny_cmds) e)
            (block_if-inv _ command_denied denied) in
        rw (sealed, tame, free, listed) (redirects (is_empty (P.redirect_targets command)) rest)
      where
        redirects :
            (b : Bool)
            → (if b
                then none
                else check_paths P protect
                    (some o)
                    c
                    (abs_resolve P (P.redirect_targets command) cwd)
                    cwd)
              ≡ none
            → (if b
                then none
                else check_paths P protect none c
                    (abs_resolve P (P.redirect_targets command) cwd)
                    cwd)
              ≡ none
        redirects true k = refl
        redirects false k = paths_mono (abs_resolve P (P.redirect_targets command) cwd) cwd k

    host_mono : (url : String) → check_host P (some o) c url ≡ none → check_host P none c url ≡ none
    unfolding check_host
    host_mono url h =
        let (sealed, h1) =
          orelse-none (block_if (contains (claim_resources P c) deny_all) restricted) _ h in
        let (denied, rest) = orelse-none (block_if (any _ _) host_denied) _ h1 in
        let free =
          any-with_overlay (under_host P (host_of P url)) o (resource_values P c "deny-host:")
            (λ k. k.deny_hosts) (block_if-inv _ host_denied denied) in
        rw (sealed, free) rest

    pub verb_mono :
        (act : Classified)
        → check_verb P protect (some o) c act ≡ none
        → check_verb P protect none c act ≡ none
    unfolding check_verb
    verb_mono act h = ground (
      arith,
      paths_mono act.paths act.cwd,
      command_mono act.target act.cwd,
      host_mono act.target,
      h,
    )
