-- ===== src/Delegation/Jwt.antt =====
-- The JWT library and the keys as an interface: golang-jwt (`NewWithClaims` with RS256 and the kid
-- header, `SignedString`, `ParseWithClaims` with `WithIssuer`, `WithAudience` and
-- `WithExpirationRequired`, `NewNumericDate`) and crypto/rsa. The laws are its documented behaviour.
use legant.Base.{ℕ, ◌≤◌, ◌<◌, String, ◌≡◌, ◌≢◌, true, List, Option, some, contains, string_eq}
use legant.World.{World}
use legant.Delegation.Constraints.{Constraints}

-- The nested "act" claim; `nobody` is the nil pointer.
pub data ActClaim : Type 0 where
  nobody : ActClaim
  actor : String → ActClaim → ActClaim

-- `WithIssuer` and, where it is given, `WithAudience`; the expiry is always required.
pub record ParseOptions : Type 0 where
  pub issuer : String
  pub audience : Option String

module _ ⦃W : World⦄ where
  pub record DelegationClaims : Type 0 where
    pub issuer : String
    pub subject : String
    pub audience : List String
    pub expires_at : Option ℕ
    pub issued_at : Option ℕ
    pub id : String
    pub scope : String
    pub act : ActClaim
    pub constraints : Option Constraints

  -- What a parsed token is known to meet at the instant of the parse.
  pub record Accepted (o : ParseOptions) (now : ℕ) (c : DelegationClaims) : Type 0 where
    pub issuer_matches : o.issuer ≢ "" → c.issuer ≡ o.issuer
    pub audience_listed : (a : String) → o.audience ≡ some a → a ≢ "" → contains c.audience a ≡ true
    pub unexpired : (e : ℕ) × (c.expires_at ≡ some e) × (now < e)

  pub record Jwt : Type 1 where
    pub PrivateKey : Type 0
    pub PublicKey : Type 0
    pub Token : Type 0
    pub public_key : PrivateKey → PublicKey
    pub numeric_date : ℕ → ℕ
    pub sign : String → PrivateKey → DelegationClaims → Option Token
    pub parse : (String → Option PublicKey) → ParseOptions → ℕ → Token → Option DelegationClaims
    pub kid_of : Token → String
    -- A date is cut down to whole seconds.
    pub numeric_date-le : (t : ℕ) → numeric_date t ≤ t
    -- A token is read only under a key that the key function gives for its kid, and only if the
    -- registered claims meet the options.
    pub parse_key :
        (keys : String → Option PublicKey) (o : ParseOptions) (now : ℕ) (t : Token)
        (c : DelegationClaims)
        → parse keys o now t ≡ some c
        → (k : PublicKey) × (keys (kid_of t) ≡ some k)
    pub parse_accepted :
        (keys : String → Option PublicKey) (o : ParseOptions) (now : ℕ) (t : Token)
        (c : DelegationClaims)
        → parse keys o now t ≡ some c
        → Accepted o now c
    -- A parse gives back the claims that were signed.
    pub parse-sign_same :
        (keys : String → Option PublicKey) (o : ParseOptions) (now : ℕ) (kid : String)
        (key : PrivateKey) (c c' : DelegationClaims) (t : Token)
        → sign kid key c ≡ some t
        → parse keys o now t ≡ some c'
        → c ≡ c'
    -- A token signed here is read back under its own key as long as its claims meet the options; the
    -- empty audience is no audience to ask for.
    pub parse-sign :
        (keys : String → Option PublicKey) (o : ParseOptions) (now : ℕ) (kid : String)
        (key : PrivateKey) (c : DelegationClaims) (t : Token)
        → sign kid key c ≡ some t
        → keys kid ≡ some (public_key key)
        → o.audience ≢ some ""
        → Accepted o now c
        → parse keys o now t ≡ some c
