-- ===== src/Exchange/Sound.antt =====
-- What a token that the exchange hands out lets its holder do.
use Prim.Native.String.{◌++◌}
use mathlib.Core.Path.{subst}
use legant.Base.{
  ℕ, ◌≤◌, shift, String, ◌≡◌, refl, sym, ap, ◌∙◌, true, List, [], ◌∷◌, Option, none, some, arith,
  string_eq, contains, All, All-imp, All-keep, any,
}
use legant.Base.Text.{fields, IsWord, fields-IsWord}
use legant.Base.Result.{ok, ok-injective}
use legant.World.{World}
use legant.Delegation.AllowList.{attenuate}
use legant.Delegation.AllowList.Laws.{contains-attenuate, is_subset_sound}
use legant.Delegation.Constraints.{Action, permit}
use legant.Delegation.Grant.{Link, Grant, root, child, link, root_delegator, actors_leaf_to_root}
use legant.Delegation.Grant.Chain.{links}
use legant.Delegation.Grant.Within.{Within, IsAttenuated-links}
use legant.Delegation.Jwt.{DelegationClaims, ParseOptions, Jwt}
use legant.Delegation.Token.{actor_chain, authorize, issue_for_grant, key_func, verify, or_fail}
use legant.Delegation.Token.Actors.{actor_chain-grant}
use legant.Delegation.Token.RoundTrip.{minted, issue-signed, authorize-minted}
use legant.Mcpauth.{resource_matches}
use legant.Database.{Database}
use legant.Chains.Sound.{IsSound}
use legant.Chains.Latest.{HasUniqueIds}
use legant.Chains.Resolved.{Resolved, resolve-Resolved}
use legant.Exchange.{
  Form, TokenExchanger, TokenResponse, clamp_leaf, signer_of, verifier_of, handle,
}
use legant.Exchange.Steps.{Shaped}
use legant.Exchange.Handle.{handle-Exchanged}

module _ ⦃W : World⦄ where
  -- Clamping the leaf changes neither who stands in the chain nor what is constrained.
  root-clamp_leaf :
      (g : Grant) (scopes : List String) (exp : ℕ)
      → root_delegator (clamp_leaf g scopes exp) ≡ root_delegator g
  unfolding root_delegator
  root-clamp_leaf (root l) scopes exp = refl
  root-clamp_leaf (child l p) scopes exp = refl

  actors-clamp_leaf :
      (g : Grant) (scopes : List String) (exp : ℕ)
      → actors_leaf_to_root (clamp_leaf g scopes exp) ≡ actors_leaf_to_root g
  unfolding actors_leaf_to_root
  actors-clamp_leaf (root l) scopes exp = refl
  actors-clamp_leaf (child l p) scopes exp = refl

  constraints-clamp_leaf :
      (g : Grant) (scopes : List String) (exp : ℕ)
      → (link (clamp_leaf g scopes exp)).constraints ≡ (link g).constraints
  constraints-clamp_leaf (root l) scopes exp = refl
  constraints-clamp_leaf (child l p) scopes exp = refl

  expiry-clamp_leaf :
      (g : Grant) (scopes : List String) (exp : ℕ)
      → (link (clamp_leaf g scopes exp)).expires_at ≡ exp
  expiry-clamp_leaf (root l) scopes exp = refl
  expiry-clamp_leaf (child l p) scopes exp = refl

  words : (s : String) (a b : List String) → All IsWord (attenuate a (attenuate b (fields s)))
  unfolding attenuate
  words s a b =
      All-keep IsWord (contains a) (attenuate b (fields s))
        (All-keep IsWord (contains b) (fields s) (fields-IsWord s))

  module _ ⦃J : Jwt⦄ where
    -- A token that the exchange handed out: whom it names, what it is bound to, and that no link of
    -- the delegation from the user down refuses an action that it authorizes.
    pub record Granted (x : TokenExchanger) (db : Database) (now : ℕ) (f : Form)
        (claims : DelegationClaims) : Type 0 where
      pub agent : String
      pub user : String
      pub subject_scopes : List String
      pub grant : Grant
      pub id : String
      pub actor_known : x.resolve_actor f.actor_token ≡ some agent
      pub subject_known : x.resolve_subject f.subject_token ≡ some (user, subject_scopes)
      pub resolved : Resolved db now agent user grant id
      pub on_behalf_of : claims.subject ≡ "user:" ++ user
      pub acting : actor_chain claims.act ≡ actors_leaf_to_root grant
      pub canon : String
      pub bound : claims.audience ≡ canon ∷ []
      pub permitted : any (resource_matches canon) (link grant).constraints.resources ≡ true
      pub expiry : ℕ
      pub expires : claims.expires_at ≡ some expiry
      pub short : (expiry ≤ (link grant).expires_at) × (expiry ≤ shift now x.ttl)
      pub no_wider :
          (at : ℕ) (a : Action)
          → authorize at claims a ≡ none
          → (contains (fields f.scope) a.scope ≡ true)
            × (contains subject_scopes a.scope ≡ true)
            × All
                (λ (l : Link).
                  (contains l.scopes a.scope ≡ true) × (permit at l.constraints a ≡ none))
                (links grant)

    or_fail-inv : {E A : Type 0} (o : Option A) (e : E) (a : A) → or_fail o e ≡ ok a → o ≡ some a
    or_fail-inv none e a h = cc
    or_fail-inv (some b) e a h = ap some (ok-injective h)

    no_wider_lem :
        (x : TokenExchanger) (f : Form) (subject_scopes : List String) (g : Grant) (exp now : ℕ)
        (canon jti : String) (effective : List String) (at : ℕ) (a : Action)
        → attenuate subject_scopes (attenuate (link g).scopes (fields f.scope)) ≡ effective
        → All (Within (link g)) (links g)
        → authorize at (minted (signer_of x) (clamp_leaf g effective exp) effective canon now jti) a
          ≡ none
        → (contains (fields f.scope) a.scope ≡ true)
          × (contains subject_scopes a.scope ≡ true)
          × All
              (λ (l : Link).
                (contains l.scopes a.scope ≡ true) × (permit at l.constraints a ≡ none))
              (links g)
    no_wider_lem x f subject_scopes g exp now canon jti effective at a same above h =
        let fs = fields f.scope in
        let ws = subst (All IsWord) same (words f.scope subject_scopes (link g).scopes) in
        let (asked, _, fits) =
          (authorize-minted (signer_of x) (clamp_leaf g effective exp) effective canon now jti at a
              ws).0
            h in
        let asked' = subst (λ e. contains e a.scope ≡ true) (sym same) asked in
        let fits' =
          subst (λ c. permit at c a ≡ none) (constraints-clamp_leaf g effective exp) fits in
        let outer = contains-attenuate subject_scopes (attenuate (link g).scopes fs) a.scope in
        let inner = contains-attenuate (link g).scopes fs a.scope in
        let held : contains (link g).scopes a.scope ≡ true = ground (arith, outer, inner, asked') in
        (
          ground (arith, outer, inner, asked'),
          ground (arith, outer, inner, asked'),
          All-imp (links g)
              (λ l w. (
                is_subset_sound (link g).scopes l.scopes a.scope w.scopes held,
                w.permits at a fits',
              ))
              above,
        )

    read_back :
        (x : TokenExchanger) (g : Grant) (effective : List String) (canon : String) (now : ℕ)
        (random_hex : Option String) (t : J.Token) (c : DelegationClaims)
        → issue_for_grant (signer_of x) g effective canon now random_hex ≡ ok t
        → verify (verifier_of x) now t canon ≡ ok c
        → (jti : String) × (minted (signer_of x) g effective canon now jti ≡ c)
    unfolding verify
    read_back x g effective canon now random_hex t c issued verified =
        let (jti, _, signed) = issue-signed (signer_of x) g effective canon now random_hex issued in
        let o : ParseOptions = record { issuer = x.issuer; audience = some canon } in
        let parsed = or_fail-inv (J.parse (key_func (verifier_of x)) o now t) _ c verified in
        (
          jti,
          J.parse-sign_same (key_func (verifier_of x)) o now x.active_kid x.active_signer _ c t
              signed parsed,
        )

    granted_lem :
        (x : TokenExchanger) (db : Database) (now : ℕ) (f : Form)
        (agent user id resource canon jti : String) (subject_scopes effective : List String)
        (g : Grant) (exp : ℕ)
        → x.resolve_actor f.actor_token ≡ some agent
        → x.resolve_subject f.subject_token ≡ some (user, subject_scopes)
        → Resolved db now agent user g id
        → Shaped x now f resource subject_scopes g effective canon exp
        → Granted x db now f
            (minted (signer_of x) (clamp_leaf g effective exp) effective canon now jti)
    granted_lem x db now f agent user id resource canon jti subject_scopes effective g exp acted
          said r s =
        let e = expiry-clamp_leaf g effective exp in
        let cut = J.numeric_date-le exp in
        record {
          agent = agent;
          user = user;
          subject_scopes = subject_scopes;
          grant = g;
          id = id;
          actor_known = acted;
          subject_known = said;
          resolved = r;
          on_behalf_of = root-clamp_leaf g effective exp ∙ r.for_user;
          acting =
              actor_chain-grant (clamp_leaf g effective exp) ∙ actors-clamp_leaf g effective exp;
          canon = canon;
          bound = refl;
          permitted = s.permitted;
          expiry = J.numeric_date exp;
          expires = ap (λ n. some (J.numeric_date n)) e;
          short = (le_trans cut s.within_grant, le_trans cut s.within_ttl);
          no_wider = λ at a h.
              no_wider_lem x f subject_scopes g exp now canon jti effective at a s.attenuated
                (IsAttenuated-links g r.attenuated) h;
        }
      where
        le_trans : {a b c : ℕ} → a ≤ b → b ≤ c → a ≤ c
        le_trans p q = omega arith

    -- The token of an exchange that succeeds, over a sound table with a primary key, verifies at once
    -- for one audience, which the agent's grant permits; it names the user and the grant's agents,
    -- expires by the grant's expiry and by the exchanger's own bound, and authorizes only actions
    -- whose scope the request and the subject's token have, and which every link of the chain from
    -- the agent up to the user has the scope of and permits.
    pub handle-Granted :
        (x : TokenExchanger) (db : Database) (now : ℕ) (random_hex : Option String) (f : Form)
        {db' : Database} {answer : TokenResponse}
        → IsSound db.chains
        → HasUniqueIds db.chains
        → handle x db now random_hex f ≡ ok (db', answer)
        → (claims : DelegationClaims) × (audience : String) × (verify
              (verifier_of x)
              now
              answer.access_token
              audience
            ≡ ok claims)
          × Granted x db now f claims
    handle-Granted x db now random_hex f {db'} {answer} sound unique h =
        let e = handle-Exchanged x db now random_hex f h in
        let g = clamp_leaf e.grant e.effective e.exp in
        let (jti, same) =
          read_back x g e.effective e.canon now random_hex answer.access_token e.claims e.issued
            e.verified in
        let r = resolve-Resolved db now e.agent e.user sound unique e.resolved in
        (
          e.claims,
          e.canon,
          e.verified,
          subst (Granted x db now f) same (
              granted_lem x db now f e.agent e.user e.id e.resource e.canon jti e.subject_scopes
                e.effective e.grant e.exp e.actor_known e.subject_known r e.shaped),
        )
