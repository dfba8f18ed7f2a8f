-- ===== src/Grants/Linted.antt =====
-- A file that passes the lint can be applied: each of its grants is built.
use legant.Base.{
  ℕ, suc, String, ◌≡◌, refl, Bool, true, false, List, [], ◌∷◌, ◌++◌, string_eq, arith, any,
}
use legant.Base.Result.{Result, ok, err}
use legant.World.{World}
use legant.Grants.{
  GrantError, Formats, GrantSpec, File, Node, Issue, Problem, error_if, field_issues, file_issues,
  failed, key_of, tree_issues, lint_grant, lint_grants, lint, issue_is_error, has_errors,
  build_tree, constraints_for, label,
}

module _ ⦃W : World⦄ ⦃F : Formats⦄ where
  -- The grants at their places in the file are all built.
  abbrev pub Builds : File → List GrantSpec → ℕ → ℕ → Type 0
  Builds f [] i now = Unit
  Builds f (g ∷ gs) i now =
      ((nodes : List Node) × (build_tree f g i now ≡ ok nodes)) × Builds f gs (suc i) now

  any-later :
      (xs ys : List Issue) → any issue_is_error (xs ++ ys) ≡ false → any issue_is_error ys ≡ false
  unfolding any
  any-later [] ys h = h
  any-later (x ∷ xs) ys h = any-later xs ys (ground (arith, h))

  any-earlier :
      (xs ys : List Issue) → any issue_is_error (xs ++ ys) ≡ false → any issue_is_error xs ≡ false
  unfolding any
  any-earlier [] ys h = refl
  any-earlier (x ∷ xs) ys h = ground (arith, h, any-earlier xs ys)

  built :
      (m : Result GrantError (List Node)) → failed m ≡ false → (nodes : List Node) × (m ≡ ok nodes)
  built (ok nodes) h = (nodes, refl)
  built (err e) h = absurd (ground arith)

  no_error_if :
      (b : Bool) (n : String) (p : Problem)
      → any issue_is_error (error_if b n p) ≡ false
      → b ≡ false
  unfolding any
  no_error_if true n p h = absurd (ground arith)
  no_error_if false n p h = refl

  tree_issues-built :
      (f : File) (g : GrantSpec) (i now : ℕ) (b : Bool)
      → any issue_is_error (tree_issues f g i now b) ≡ false
      → (nodes : List Node) × (build_tree f g i now ≡ ok nodes)
  unfolding any
  tree_issues-built f g i now true h = absurd (ground arith)
  tree_issues-built f g i now false h = built (build_tree f g i now) (no_error_if _ _ _ h)

  lint_grant-built :
      (f : File) (g : GrantSpec) (i now : ℕ) (seen : List String)
      → any issue_is_error (lint_grant f g i now seen) ≡ false
      → (nodes : List Node) × (build_tree f g i now ≡ ok nodes)
  unfolding lint_grant
  lint_grant-built f g i now seen h =
      tree_issues-built f g i now (failed (constraints_for g.constraints))
        (any-later (field_issues f g (label g i) seen) _ h)

  lint_grants-Builds :
      (f : File) (gs : List GrantSpec) (i now : ℕ) (seen : List String)
      → any issue_is_error (lint_grants f gs i now seen) ≡ false
      → Builds f gs i now
  unfolding lint_grants
  lint_grants-Builds f [] i now seen h = tt
  lint_grants-Builds f (g ∷ gs) i now seen h = (
    lint_grant-built f g i now seen (any-earlier (lint_grant f g i now seen) _ h),
    lint_grants-Builds f gs (suc i) now (key_of f g ∷ seen)
        (any-later (lint_grant f g i now seen) _ h),
  )

  -- Where the lint finds no error, every grant of the file, with its sub-delegations, is built, at the
  -- instant of the lint.
  pub lint-Builds : (f : File) (now : ℕ) → has_errors (lint f now) ≡ false → Builds f f.grants 0 now
  unfolding has_errors lint
  lint-Builds f now h = lint_grants-Builds f f.grants 0 now [] (any-later (file_issues f) _ h)
