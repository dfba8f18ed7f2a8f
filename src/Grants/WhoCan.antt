-- ===== src/Grants/WhoCan.antt =====
-- `WhoCan` and `authorizeNode` of internal/grants/grants.go, with `MintGrant` of
-- internal/ccguard/roles.go. The tokens are minted in memory, and one draw stands for the random hex of
-- each.
pub mod Matches
use mathlib.Core.Path.{subst}
use legant.Base.{
  pos, ℕ, zero, suc, ◌+◌, ◌∙◌, ◌⊎◌, inl, inr, String, ◌≡◌, refl, ap, Bool, true, false, List, [],
  ◌∷◌, ◌++◌, Option, none, some, arith, All, All-append, if◌then◌else◌,
}
use legant.Base.Result.{Result, ok, err, ◌>>=◌, >>=-eq-ok, ok-injective}
use legant.World.{World}
use legant.Delegation.AllowList.{Denial}
use legant.Delegation.Constraints.{Action}
use legant.Delegation.Grant.{
  Link, Grant, root, child, link, root_delegator, actor_chain_root_to_leaf,
}
use legant.Delegation.Jwt.{DelegationClaims, Jwt}
use legant.Delegation.Token.{Signer, TokenError, issue_claims, act_of}
use legant.Database.{is_some}
use legant.Sdk.{authorize_claims, render_provenance}
use legant.Sdk.Verify.{Verifier, VerifyError, verify}
use legant.Grants.{
  GrantError, mint_failed, Formats, GrantSpec, File, Node, as_error, label, build_tree,
}

module _ ⦃W : World⦄ where
  abbrev pub open_link : Link → Link
  open_link l = record l { constraints = record l.constraints { time_window = none } }

  -- The grant with its time window dropped.
  unfoldable pub without_window : Grant → Grant
  without_window (root l) = root (open_link l)
  without_window (child l p) = child (open_link l) p

  abbrev pub if_dropped : {A : Type 0} → Bool → A → A → A
  if_dropped true x y = x
  if_dropped false x y = y

  pub record Match : Type 0 where
    pub name : String
    pub provenance : String
    pub audience : String
    pub time_boxed : Bool

  module _ ⦃J : Jwt⦄ where
    pub record Setup : Type 0 where
      pub issuer : String
      pub signer : Signer
      pub keys : String → Option J.PublicKey

    unfoldable pub mint_grant :
        Signer → Grant → String → ℕ → Option String → Result TokenError J.Token
    mint_grant s g audience now random_hex =
        issue_claims s (root_delegator g) (act_of (actor_chain_root_to_leaf g)) (link g).scopes
          audience (some (link g).constraints) (link g).expires_at now random_hex

    abbrev pub verifier_for : Setup → String → Verifier
    verifier_for s audience = record {
      issuer = s.issuer;
      audience = audience;
      keys = s.keys;
      feed = none;
      feed_fail_closed = false;
      feed_max_staleness = pos 0;
    }

    abbrev pub passed : ℕ → Action → Result VerifyError DelegationClaims → Option String
    passed now a (err e) = none
    passed now a (ok c) =
        if is_some (authorize_claims now c a) then none else some (render_provenance c)

    unfoldable pub authorize_node :
        Setup
        → Grant
        → String
        → Action
        → ℕ
        → Bool
        → Option String
        → Result GrantError (Option String)
    authorize_node s g audience a now drop random_hex = do
      token ←
          as_error mint_failed
            (mint_grant s.signer (if_dropped drop (without_window g) g) audience now random_hex)
      ok (
          passed now (if_dropped drop (record a { at = 0 }) a)
            (verify (verifier_for s audience) now token))

    module _ ⦃F : Formats⦄ where
      abbrev pub matched : String → Node → Bool → Option String → List Match
      matched name n boxed none = []
      matched name n boxed (some p) =
          record { name = name; provenance = p; audience = n.audience; time_boxed = boxed } ∷ []

      -- Behind a refusal, the retry without the window, where there is one.
      abbrev pub retried :
          Setup
          → String
          → Node
          → Action
          → ℕ
          → Option String
          → Option String
          → Result GrantError (List Match)
      retried s name n a now random_hex (some p) = ok (matched name n false (some p))
      retried s name n a now random_hex none =
          if is_some (link n.grant).constraints.time_window
          then authorize_node s n.grant n.audience a now true random_hex
            >>= (λ q. ok (matched name n true q))
          else ok []

      unfoldable pub match_node :
          Setup → String → Node → Action → ℕ → Option String → Result GrantError (List Match)
      match_node s name n a now random_hex =
          authorize_node s n.grant n.audience a now false random_hex
          >>= retried s name n a now random_hex

      unfoldable pub match_nodes :
          Setup → String → List Node → Action → ℕ → Option String → Result GrantError (List Match)
      match_nodes s name [] a now random_hex = ok []
      match_nodes s name (n ∷ nodes) a now random_hex = do
        here ← match_node s name n a now random_hex
        rest ← match_nodes s name nodes a now random_hex
        ok (here ++ rest)

      unfoldable pub who_can_from :
          File
          → List GrantSpec
          → ℕ
          → Setup
          → Action
          → ℕ
          → Option String
          → Result GrantError (List Match)
      who_can_from f [] i s a now random_hex = ok []
      who_can_from f (g ∷ gs) i s a now random_hex = do
        nodes ← build_tree f g i now
        here ← match_nodes s (label g i) nodes a now random_hex
        rest ← who_can_from f gs (suc i) s a now random_hex
        ok (here ++ rest)

      unfoldable pub who_can :
          File → Setup → Action → ℕ → Option String → Result GrantError (List Match)
      who_can f s a now random_hex = who_can_from f f.grants 0 s a now random_hex
