-- ===== src/Grants/Apply.antt =====
-- `Apply` of internal/grants/grants.go, with its fingerprints. A directory is a list of token files;
-- writing a file always succeeds, and `draw` is the random hex of the token of a file.
use mathlib.Core.List.{reverse}
use legant.Base.{
  ℕ, suc, ◌+◌, String, ◌≡◌, Bool, true, false, is_empty, not, ◌&&◌, List, [], ◌∷◌, ◌++◌, Option,
  none, some, ◌==◌, string_eq, contains, keep, map, if◌then◌else◌,
}
use legant.Base.Affix.{has_suffix}
use legant.Base.Text.{fields, join}
use legant.Base.Result.{Result, ok, ◌>>=◌}
use legant.World.{World}
use legant.Delegation.Constraints.{TimeWindow, Constraints}
use legant.Delegation.Grant.{Grant, link, root_delegator, actor_chain_root_to_leaf}
use legant.Delegation.Jwt.{DelegationClaims, Jwt}
use legant.Delegation.Token.{actor_chain}
use legant.Grants.{
  GrantError, mint_failed, Formats, GrantSpec, File, Node, as_error, label, build_tree,
  no_constraints,
}
use legant.Grants.WhoCan.{Setup, mint_grant}

pub data FileAction : Type 0 where
  create update unchanged : FileAction

pub record Change : Type 0 where
  pub name : String
  pub file : String
  pub action : FileAction
  pub subject : String
  pub agent : String
  pub audience : String

module _ ⦃W : World⦄ where
  pub record CanonicalConstraints : Type 0 where
    pub categories : List String
    pub tools : List String
    pub resources : List String
    pub max_amount : Option W.Float
    pub time_window : Option TimeWindow

  -- What a fingerprint is rendered from.
  pub record Shape : Type 0 where
    pub sub : String
    pub chain : List String
    pub scope : List String
    pub aud : String
    pub cnst : CanonicalConstraints

  -- A time window that is there names its weekdays. In Go an empty list of them is not nil, is left out
  -- of a token, comes back as nil, and is rendered otherwise; here both are the empty list.
  abbrev pub HasDays : Constraints → Type 0
  HasDays c = (w : TimeWindow) → c.time_window ≡ some w → is_empty w.weekdays ≡ false

  abbrev pub ClaimDays : DelegationClaims → Type 0
  ClaimDays c = (k : Constraints) → c.constraints ≡ some k → HasDays k

  -- `sort.Strings`, `json.Marshal` of a shape, and the decoded payload of a token, which is what was
  -- signed where no window comes with an empty list of weekdays.
  pub record Rendering ⦃J : Jwt⦄ : Type 0 where
    pub sort_strings : List String → List String
    pub sort_one : (s : String) → sort_strings (s ∷ []) ≡ s ∷ []
    pub canonical : Shape → String
    pub payload : J.Token → Option DelegationClaims
    pub payload-sign :
        (kid : String) (key : J.PrivateKey) (c : DelegationClaims) (t : J.Token)
        → ClaimDays c
        → J.sign kid key c ≡ some t
        → payload t ≡ some c

  module _ ⦃J : Jwt⦄ ⦃R : Rendering⦄ where
    unfoldable pub canonical_constraints : Constraints → CanonicalConstraints
    canonical_constraints c = record {
      categories = R.sort_strings c.categories;
      tools = R.sort_strings c.tools;
      resources = R.sort_strings c.resources;
      max_amount = c.max_amount;
      time_window = c.time_window;
    }

    unfoldable pub aud_string : List String → String
    aud_string auds = join "," (R.sort_strings auds)

    unfoldable pub fingerprint_grant : Grant → String → String
    fingerprint_grant g audience = R.canonical (record {
      sub = root_delegator g;
      chain = root_delegator g ∷ actor_chain_root_to_leaf g;
      scope = R.sort_strings (link g).scopes;
      aud = audience;
      cnst = canonical_constraints (link g).constraints;
    })

    module _ ⦃F : Formats⦄ where
      abbrev pub constraints_or_none : Option Constraints → Constraints
      constraints_or_none none = no_constraints
      constraints_or_none (some c) = c

      abbrev pub shape_of : DelegationClaims → Shape
      shape_of c = record {
        sub = c.subject;
        chain = c.subject ∷ reverse (actor_chain c.act);
        scope = R.sort_strings (fields c.scope);
        aud = aud_string c.audience;
        cnst = canonical_constraints (constraints_or_none c.constraints);
      }

      abbrev pub rendered : Option DelegationClaims → String
      rendered none = ""
      rendered (some c) = R.canonical (shape_of c)

      unfoldable pub fingerprint_token : J.Token → String
      fingerprint_token t = rendered (R.payload t)

      unfoldable pub find_file : List (String × J.Token) → String → Option J.Token
      find_file [] name = none
      find_file (e ∷ dir) name = if e.0 == name then some e.1 else find_file dir name

      unfoldable pub write_file :
          String → J.Token → List (String × J.Token) → List (String × J.Token)
      write_file name t [] = (name, t) ∷ []
      write_file name t (e ∷ dir) =
          let others = write_file name t dir in if e.0 == name then (name, t) ∷ dir else e ∷ others

      abbrev pub action_for : Option J.Token → String → FileAction
      action_for none want = create
      action_for (some t) want = if fingerprint_token t == want then unchanged else update

      abbrev pub is_unchanged : FileAction → Bool
      is_unchanged unchanged = true
      is_unchanged _ = false

      -- A forced mint counts as an update.
      abbrev pub reported : FileAction → FileAction
      reported unchanged = update
      reported a = a

      abbrev pub change : String → Node → FileAction → Change
      change name n a = record {
        name = name;
        file = n.file;
        action = a;
        subject = root_delegator n.grant;
        agent = (link n.grant).delegatee;
        audience = n.audience;
      }

      -- The directory, the changes, and how many tokens were minted.
      pub record Applied : Type 0 where
        pub dir : List (String × J.Token)
        pub changes : List Change
        pub minted : ℕ

      abbrev pub written :
          Setup
          → Bool
          → ℕ
          → (String → Option String)
          → String
          → List (String × J.Token)
          → Node
          → FileAction
          → Result GrantError Applied
      written s force now draw name dir n a =
          if is_unchanged a && not force
          then ok (record { dir = dir; changes = change name n a ∷ []; minted = 0 })
          else as_error mint_failed (mint_grant s.signer n.grant n.audience now (draw n.file))
            >>= (λ t. ok (record {
              dir = write_file n.file t dir;
              changes = change name n (reported a) ∷ [];
              minted = 1;
            }))

      unfoldable pub apply_node :
          Setup
          → Bool
          → ℕ
          → (String → Option String)
          → String
          → List (String × J.Token)
          → Node
          → Result GrantError Applied
      apply_node s force now draw name dir n =
          written s force now draw name dir n
            (action_for (find_file dir n.file) (fingerprint_grant n.grant n.audience))

      abbrev pub joined : Applied → Applied → Applied
      joined a b = record {
        dir = b.dir;
        changes = a.changes ++ b.changes;
        minted = a.minted + b.minted;
      }

      unfoldable pub apply_nodes :
          Setup
          → Bool
          → ℕ
          → (String → Option String)
          → String
          → List (String × J.Token)
          → List Node
          → Result GrantError Applied
      apply_nodes s force now draw name dir [] = ok (record { dir = dir; changes = []; minted = 0 })
      apply_nodes s force now draw name dir (n ∷ nodes) = do
        here ← apply_node s force now draw name dir n
        rest ← apply_nodes s force now draw name here.dir nodes
        ok (joined here rest)

      unfoldable pub apply_grants :
          File
          → Setup
          → Bool
          → ℕ
          → (String → Option String)
          → List (String × J.Token)
          → List GrantSpec
          → ℕ
          → Result GrantError Applied
      apply_grants f s force now draw dir [] i = ok (record { dir = dir; changes = []; minted = 0 })
      apply_grants f s force now draw dir (g ∷ gs) i = do
        nodes ← build_tree f g i now
        here ← apply_nodes s force now draw (label g i) dir nodes
        rest ← apply_grants f s force now draw here.dir gs (suc i)
        ok (joined here rest)

      abbrev declared_file : Change → String
      declared_file c = c.file

      abbrev pub is_orphan : List String → String → Bool
      is_orphan declared name =
          has_suffix name ".jwt" && not (name == "feed.jwt") && not (contains declared name)

      abbrev file_name : String × J.Token → String
      file_name e = e.0

      -- The outcome and the orphaned files.
      unfoldable pub apply :
          File
          → Setup
          → Bool
          → ℕ
          → (String → Option String)
          → List (String × J.Token)
          → Result GrantError (Applied × List String)
      apply f s force now draw dir = do
        a ← apply_grants f s force now draw dir f.grants 0
        ok (
          a,
          R.sort_strings (keep (is_orphan (map declared_file a.changes)) (map file_name a.dir)),
        )
