-- ===== src/Tests/Sample.antt =====
-- A concrete platform and a concrete token format: the interfaces `World` and `Jwt` can be met.
use mathlib.Core.Path.{subst, ap, ◌∙◌}
use mathlib.Core.Option.{some-injective}
use legant.Base.{
  not, ℕ, ◌+◌, ◌<◌, ◌≤◌, ltb, String, ◌≡◌, refl, sym, ◌≢◌, ◌⊎◌, Bool, true, false, ◌&&◌, ◌||◌,
  Option, none, some, arith, eq_iff, ◌==◌, string_eq, nat_eq, contains, if◌then◌else◌,
}
use Prim.Native.String.{◌++◌}
use legant.Base.Affix.{cut_prefix, cut_prefix-append}
use legant.Delegation.AllowList.{deny_all}
use legant.World.{World, Url, IsOrdered}
use legant.Chains.Validate.{IsTextual}
use legant.Delegation.Jwt.{DelegationClaims, ParseOptions, Accepted, Jwt}

abbrev pub gt_ℕ : ℕ → ℕ → Bool
gt_ℕ a b = ltb b a

pub gt_ℕ-trans : (a b c : ℕ) → gt_ℕ a b ≡ true → gt_ℕ b c ≡ true → gt_ℕ a c ≡ true
gt_ℕ-trans a b c h k = ground arith

abbrev pub sample_location : String → Option ℕ
sample_location name = if name == "Europe/Paris" then some 1 else none

-- One hour is 60 units, a day 1440, and Paris is one hour ahead.
abbrev https_url : Option String → Option Url
https_url none = none
https_url (some host) = some (record {
  scheme = "https";
  user = none;
  host = host;
  path = "/";
  raw_query = "";
  fragment = "";
})

abbrev pub sample_url : String → Option Url
sample_url raw = https_url (cut_prefix "https://" raw)

instance abbrev pub sample : World
sample = record {
  Float = ℕ;
  gt = gt_ℕ;
  gt_trans = gt_ℕ-trans;
  float_zero = 0;
  Location = ℕ;
  utc = 0;
  load_location = sample_location;
  weekday = λ loc at. 3;
  hour = λ loc at. loc + 9;
  minute = λ loc at. 30;
  url_parse = sample_url;
  url_string = λ u. "https://" ++ u.host;
  hostname = λ u. u.host;
  to_lower = λ s. s;
  storable = λ s. not (s == deny_all);
}

no_url : cut_prefix "https://" deny_all ≡ none
unfolding cut_prefix
no_url = refl

pub sample-IsTextual : IsTextual
sample-IsTextual = record {
  no_sentinel = λ u e. absurd (
      not_none (sym (cut_prefix-append "https://" u.host) ∙ ap (cut_prefix "https://") e ∙ no_url));
}
  where
    not_none : {h : String} → some h ≡ none → ⊥
    not_none e = cc e

pub sample-IsOrdered : IsOrdered
sample-IsOrdered = record { gt_cotrans = λ a b c h. ordered a b c h }
  where
    ordered : (a b c : ℕ) → gt_ℕ a c ≡ true → (gt_ℕ a b ≡ true) ⊎ (gt_ℕ b c ≡ true)
    ordered a b c h = ground arith

-- A token of the sample format: the kid, the key that signed, and the claims.
pub record SampleToken : Type 0 where
  pub kid : String
  pub key : ℕ
  pub claims : DelegationClaims

abbrev audience_ok : Option String → DelegationClaims → Bool
audience_ok none c = true
audience_ok (some a) c = a == "" || contains c.audience a

abbrev expiry_ok : Option ℕ → ℕ → Bool
expiry_ok none now = false
expiry_ok (some e) now = ltb now e

sample_accepts : ParseOptions → ℕ → DelegationClaims → Bool
sample_accepts o now c =
    (o.issuer == "" || c.issuer == o.issuer)
    && audience_ok o.audience c
    && expiry_ok c.expires_at now

sample_read : Option ℕ → Bool → SampleToken → Option DelegationClaims
sample_read none fits t = none
sample_read (some k) fits t = if k == t.key && fits then some t.claims else none

unfoldable pub sample_parse :
    (String → Option ℕ) → ParseOptions → ℕ → SampleToken → Option DelegationClaims
unfolding sample_read sample_accepts
sample_parse keys o now t = sample_read (keys t.kid) (sample_accepts o now t.claims) t

some_of_expiry :
    (e : Option ℕ) (now : ℕ) → expiry_ok e now ≡ true → (n : ℕ) × (e ≡ some n) × (now < n)
some_of_expiry none now h = absurd (ground arith)
some_of_expiry (some n) now h = (n, refl, ground arith)

sample_accepts-Accepted :
    (o : ParseOptions) (now : ℕ) (c : DelegationClaims)
    → sample_accepts o now c ≡ true
    → Accepted o now c
unfolding sample_accepts
sample_accepts-Accepted o now c h = record {
  issuer_matches = λ ne. ground (arith, eq_iff o.issuer "", eq_iff c.issuer o.issuer);
  audience_listed = λ a e ne. ground (arith, eq_iff a "");
  unexpired = some_of_expiry c.expires_at now (ground arith);
}

audience_ok-of-listed :
    (o : Option String) (c : DelegationClaims)
    → ((a : String) → o ≡ some a → a ≢ "" → contains c.audience a ≡ true)
    → audience_ok o c ≡ true
audience_ok-of-listed none c h = refl
audience_ok-of-listed (some a) c h = ground (arith, eq_iff a "", h a refl)

expiry_ok-of-some : (e : Option ℕ) (n now : ℕ) → e ≡ some n → now < n → expiry_ok e now ≡ true
expiry_ok-of-some e n now h k = ground arith

Accepted-sample_accepts :
    (o : ParseOptions) (now : ℕ) (c : DelegationClaims)
    → Accepted o now c
    → sample_accepts o now c ≡ true
unfolding sample_accepts
Accepted-sample_accepts o now c h =
    let (n, e, live) = h.unexpired in
    ground (
      arith,
      eq_iff o.issuer "",
      eq_iff c.issuer o.issuer,
      h.issuer_matches,
      audience_ok-of-listed o.audience c h.audience_listed,
      expiry_ok-of-some c.expires_at n now e live,
    )

sample_read-inv :
    (k : Option ℕ) (fits : Bool) (t : SampleToken) (c : DelegationClaims)
    → sample_read k fits t ≡ some c
    → ((n : ℕ) × (k ≡ some n)) × (fits ≡ true) × (t.claims ≡ c)
unfolding sample_read
sample_read-inv none fits t c h = absurd (ground arith)
sample_read-inv (some n) fits t c h = ((n, refl), ground arith, ground arith)

abbrev pub sample_sign : String → ℕ → DelegationClaims → Option SampleToken
sample_sign kid key c = some (record { kid = kid; key = key; claims = c })

pub sample_parse-key :
    (keys : String → Option ℕ) (o : ParseOptions) (now : ℕ) (t : SampleToken) (c : DelegationClaims)
    → sample_parse keys o now t ≡ some c
    → (k : ℕ) × (keys t.kid ≡ some k)
unfolding sample_parse
sample_parse-key keys o now t c h =
    (sample_read-inv (keys t.kid) (sample_accepts o now t.claims) t c h).0

pub sample_parse-Accepted :
    (keys : String → Option ℕ) (o : ParseOptions) (now : ℕ) (t : SampleToken) (c : DelegationClaims)
    → sample_parse keys o now t ≡ some c
    → Accepted o now c
unfolding sample_parse
sample_parse-Accepted keys o now t c h =
    let (found, fits, same) = sample_read-inv (keys t.kid) (sample_accepts o now t.claims) t c h in
    subst (Accepted o now) same (sample_accepts-Accepted o now t.claims fits)

pub sample_parse-sign :
    (keys : String → Option ℕ) (o : ParseOptions) (now : ℕ) (kid : String) (key : ℕ)
    (c : DelegationClaims) (t : SampleToken)
    → sample_sign kid key c ≡ some t
    → keys kid ≡ some key
    → o.audience ≢ some ""
    → Accepted o now c
    → sample_parse keys o now t ≡ some c
unfolding sample_parse sample_read
sample_parse-sign keys o now kid key c t signed held asked fits =
    subst (λ (s : SampleToken). sample_parse keys o now s ≡ some c) (some-injective _ _ signed)
      (rw held (ground (arith, Accepted-sample_accepts o now c fits)))

pub sample_parse-sign_same :
    (keys : String → Option ℕ) (o : ParseOptions) (now : ℕ) (kid : String) (key : ℕ)
    (c c' : DelegationClaims) (t : SampleToken)
    → sample_sign kid key c ≡ some t
    → sample_parse keys o now t ≡ some c'
    → c ≡ c'
unfolding sample_parse
sample_parse-sign_same keys o now kid key c c' t signed h =
    let (_, _, same) = sample_read-inv (keys t.kid) (sample_accepts o now t.claims) t c' h in
    ap (λ (s : SampleToken). s.claims) (some-injective _ _ signed) ∙ same

pub sample_date-le : (t : ℕ) → t ≤ t
sample_date-le t = omega arith

instance abbrev pub sample_jwt : Jwt
sample_jwt = record {
  PrivateKey = ℕ;
  PublicKey = ℕ;
  Token = SampleToken;
  public_key = λ k. k;
  numeric_date = λ t. t;
  sign = sample_sign;
  parse = sample_parse;
  kid_of = λ t. t.kid;
  numeric_date-le = sample_date-le;
  parse_key = sample_parse-key;
  parse_accepted = sample_parse-Accepted;
  parse-sign_same = sample_parse-sign_same;
  parse-sign = sample_parse-sign;
}
