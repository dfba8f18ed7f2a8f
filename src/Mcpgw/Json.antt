-- ===== src/Mcpgw/Json.antt =====
-- JSON in internal/mcpgw/gateway.go: the documents and the token stream of encoding/json, and the
-- scan for duplicate keys (`hasDuplicateKeys`, `scanDuplicateKeys`).
pub mod Scanned
use legant.Base.{
  ℕ, zero, suc, ◌+◌, ◌≤◌, String, ◌≡◌, refl, Bool, true, false, not, ◌&&◌, ◌||◌, List, [], ◌∷◌,
  ◌++◌, arith, contains, string_eq, Bool-cases, inl, inr, if◌then◌else◌,
}
use legant.Base.{◌==◌}

-- A document, with the members of an object as they stand, repeated keys included.
mutual
  pub data Json : Type 0 where
    null : Json
    boolean : Bool → Json
    number : String → Json
    text : String → Json
    array : Items → Json
    object : Members → Json

  pub data Items : Type 0 where
    no_items : Items
    item : Json → Items → Items

  pub data Members : Type 0 where
    no_members : Members
    member : String → Json → Members → Members

-- What `Decoder.Token` returns; `malformed` is any error of it, and the end of the list is the end of
-- the input.
pub data JsonToken : Type 0 where
  open_object close_object open_array close_array malformed : JsonToken
  scalar : Json → JsonToken
  name : String → JsonToken

-- The results of `scanDuplicateKeys`: no error, with the tokens that are left, `errDuplicateKey`, and
-- any other error.
pub data Scan : Type 0 where
  rest : List JsonToken → Scan
  duplicate_key : Scan
  other_error : Scan

-- Where the scan stands: before a value, in an object with the keys seen so far, in an array.
pub data Place : Type 0 where
  at_value : Place
  in_object : List String → Place
  in_array : Place

-- `key.(string)`, "" where it is not one.
abbrev key_of : JsonToken → String
key_of (name k) = k
key_of _ = ""

abbrev pub then_at : (List JsonToken → Scan) → Scan → Scan
then_at next (rest ts) = next ts
then_at next duplicate_key = duplicate_key
then_at next other_error = other_error

abbrev pub scan_member : Bool → Scan → Scan
scan_member true after = duplicate_key
scan_member false after = after

-- The recursion of `scanDuplicateKeys`, its loops unrolled; the fuel bounds their rounds.
unfoldable pub scan_duplicate_keys : ℕ → Place → List JsonToken → Scan
scan_duplicate_keys zero p ts = other_error
scan_duplicate_keys (suc n) at_value [] = other_error
scan_duplicate_keys (suc n) at_value (open_object ∷ ts) = scan_duplicate_keys n (in_object []) ts
scan_duplicate_keys (suc n) at_value (open_array ∷ ts) = scan_duplicate_keys n in_array ts
scan_duplicate_keys (suc n) at_value (malformed ∷ ts) = other_error
scan_duplicate_keys (suc n) at_value (t ∷ ts) = rest ts
scan_duplicate_keys (suc n) (in_object seen) [] = other_error
scan_duplicate_keys (suc n) (in_object seen) (close_object ∷ ts) = rest ts
scan_duplicate_keys (suc n) (in_object seen) (close_array ∷ ts) = rest ts
scan_duplicate_keys (suc n) (in_object seen) (malformed ∷ ts) = other_error
scan_duplicate_keys (suc n) (in_object seen) (t ∷ ts) = scan_member (contains seen (key_of t)) (
    then_at (scan_duplicate_keys n (in_object (key_of t ∷ seen)))
      (scan_duplicate_keys n at_value ts))
scan_duplicate_keys (suc n) in_array [] = other_error
scan_duplicate_keys (suc n) in_array (close_object ∷ ts) = rest ts
scan_duplicate_keys (suc n) in_array (close_array ∷ ts) = rest ts
scan_duplicate_keys (suc n) in_array (t ∷ ts) =
    then_at (scan_duplicate_keys n in_array) (scan_duplicate_keys n at_value (t ∷ ts))

abbrev pub is_duplicate : Scan → Bool
is_duplicate duplicate_key = true
is_duplicate _ = false

abbrev pub token_count : List JsonToken → ℕ
token_count [] = 0
token_count (t ∷ ts) = suc (token_count ts)

-- Two rounds for each token are enough.
unfoldable pub has_duplicate_keys : List JsonToken → Bool
has_duplicate_keys ts =
    is_duplicate (scan_duplicate_keys (suc (token_count ts + token_count ts)) at_value ts)

-- `Decoder.Token` reads a number as a float64, which is an error for one that is out of range.
abbrev pub number_token : Bool → String → JsonToken
number_token true s = scalar (number s)
number_token false s = malformed

-- The tokens of a document; `fits` says which numbers are in the range of float64. Nothing is read
-- behind an error.
module _ (fits : String → Bool) where
  unfoldable mutual
    pub tokens_of : Json → List JsonToken
    tokens_of (array xs) = open_array ∷ item_tokens xs
    tokens_of (object ms) = open_object ∷ member_tokens ms
    tokens_of (number s) = number_token (fits s) s ∷ []
    tokens_of j = scalar j ∷ []

    pub item_tokens : Items → List JsonToken
    item_tokens no_items = close_array ∷ []
    item_tokens (item j xs) = tokens_of j ++ item_tokens xs

    pub member_tokens : Members → List JsonToken
    member_tokens no_members = close_object ∷ []
    member_tokens (member k j ms) = name k ∷ tokens_of j ++ member_tokens ms

  -- Every number of the document is in range.
  unfoldable mutual
    pub numbers_fit : Json → Bool
    numbers_fit (array xs) = items_fit xs
    numbers_fit (object ms) = members_fit ms
    numbers_fit (number s) = fits s
    numbers_fit j = true

    pub items_fit : Items → Bool
    items_fit no_items = true
    items_fit (item j xs) = numbers_fit j && items_fit xs

    pub members_fit : Members → Bool
    members_fit no_members = true
    members_fit (member k j ms) = numbers_fit j && members_fit ms

-- The description of what the scan looks for: no object of the document names a key twice.
unfoldable pub names : Members → String → Bool
names no_members k = false
names (member k' j ms) k = k' == k || names ms k

unfoldable mutual
  pub unique_keys : Json → Bool
  unique_keys (array xs) = unique_items xs
  unique_keys (object ms) = unique_members ms
  unique_keys j = true

  pub unique_items : Items → Bool
  unique_items no_items = true
  unique_items (item j xs) = unique_keys j && unique_items xs

  pub unique_members : Members → Bool
  unique_members no_members = true
  unique_members (member k j ms) = unique_keys j && not (names ms k) && unique_members ms
