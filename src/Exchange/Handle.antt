-- ===== src/Exchange/Handle.antt =====
-- What an exchange that succeeds has gone through, step by step.
use mathlib.Core.Path.{subst}
use legant.Base.{ℕ, String, ◌≡◌, refl, List, Option, some}
use legant.Base.Result.{ok, >>=-eq-ok, ok-injective}
use legant.World.{World}
use legant.Delegation.Grant.{Grant, link}
use legant.Delegation.Jwt.{DelegationClaims, Jwt}
use legant.Delegation.Token.{issue_for_grant, verify}
use legant.Database.{Database}
use legant.Chains.{resolve_grant_chain}
use legant.Exchange.{
  Form, bad_actor, bad_subject, no_delegation, mint_failed, self_verification, or_refuse,
  as_refusal, clamp_leaf, TokenExchanger, TokenResponse, signer_of, verifier_of, check_form,
  shape_grant, record_mint, handle,
}
use legant.Exchange.Steps.{or_refuse-inv, as_refusal-inv, Shaped, shape_grant-Shaped}

module _ ⦃W : World⦄ ⦃J : Jwt⦄ where
  pub record Exchanged (x : TokenExchanger) (db : Database) (now : ℕ) (random_hex : Option String)
      (f : Form) (db' : Database) (answer : TokenResponse) : Type 0 where
    pub resource : String
    pub agent : String
    pub user : String
    pub subject_scopes : List String
    pub grant : Grant
    pub id : String
    pub effective : List String
    pub canon : String
    pub exp : ℕ
    pub claims : DelegationClaims
    pub actor_known : x.resolve_actor f.actor_token ≡ some agent
    pub subject_known : x.resolve_subject f.subject_token ≡ some (user, subject_scopes)
    pub resolved : resolve_grant_chain db now agent user ≡ ok (grant, id)
    pub shaped : Shaped x now f resource subject_scopes grant effective canon exp
    pub issued :
        issue_for_grant
          (signer_of x)
          (clamp_leaf grant effective exp)
          effective
          canon
          now
          random_hex
        ≡ ok answer.access_token
    pub verified : verify (verifier_of x) now answer.access_token canon ≡ ok claims
    pub recorded :
        record_mint db now agent id
          (link (clamp_leaf grant effective exp)).constraints.rate
          claims
          canon
          effective
          exp
        ≡ ok db'
    pub answered : exp ≡ answer.expires_at

  module _ (x : TokenExchanger) (db : Database) (now : ℕ) (random_hex : Option String)
      (f : Form) where
    -- An exchange succeeds only through all of its steps.
    pub handle-Exchanged :
        {db' : Database} {answer : TokenResponse}
        → handle x db now random_hex f ≡ ok (db', answer)
        → Exchanged x db now random_hex f db' answer
    unfolding handle
    handle-Exchanged {db'} {answer} h =
        let (resource, formed, h1) = >>=-eq-ok (check_form f) _ h in
        let (agent, acted, h2) =
          >>=-eq-ok (or_refuse (x.resolve_actor f.actor_token) bad_actor) _ h1 in
        let (subject, said, h3) =
          >>=-eq-ok (or_refuse (x.resolve_subject f.subject_token) bad_subject) _ h2 in
        let (r, chained, h4) =
          >>=-eq-ok (as_refusal no_delegation (resolve_grant_chain db now agent subject.0)) _ h3 in
        let (s, shaped, h5) = >>=-eq-ok (shape_grant x now f resource subject.1 r.0) _ h4 in
        let g = clamp_leaf r.0 s.0 s.2 in
        let (t, minted, h6) =
          >>=-eq-ok
            (as_refusal mint_failed (issue_for_grant (signer_of x) g s.0 s.1 now random_hex)) _
            h5 in
        let (c, checked, h7) =
          >>=-eq-ok (as_refusal self_verification (verify (verifier_of x) now t s.1)) _ h6 in
        let (d, noted, h8) =
          >>=-eq-ok (record_mint db now agent r.1 (link g).constraints.rate c s.1 s.0 s.2) _ h7 in
        let same = ok-injective h8 in
        subst (λ (o : Database × TokenResponse). Exchanged x db now random_hex f o.0 o.1) same
          (record {
            resource = resource;
            agent = agent;
            user = subject.0;
            subject_scopes = subject.1;
            grant = r.0;
            id = r.1;
            effective = s.0;
            canon = s.1;
            exp = s.2;
            claims = c;
            actor_known = or_refuse-inv (x.resolve_actor f.actor_token) bad_actor agent acted;
            subject_known =
                or_refuse-inv (x.resolve_subject f.subject_token) bad_subject subject said;
            resolved =
                as_refusal-inv (resolve_grant_chain db now agent subject.0) no_delegation r chained;
            shaped = shape_grant-Shaped x now f resource subject.1 r.0 s shaped;
            issued =
                as_refusal-inv (issue_for_grant (signer_of x) g s.0 s.1 now random_hex) mint_failed
                  t minted;
            verified =
                as_refusal-inv (verify (verifier_of x) now t s.1) self_verification c checked;
            recorded = noted;
            answered = refl;
          })
