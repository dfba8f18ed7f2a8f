-- ===== src/World.antt =====
-- What the program takes from outside the repository: the platform's floats, its time-zone
-- database, its URL parser, the Unicode tables of `strings.ToLower` and the texts that PostgreSQL
-- stores (it refuses a NUL), as an interface. `gt` is
-- Go's `>` on `float64`. Its one law here is the transitivity that IEEE 754 gives on every value,
-- NaN included; `IsOrdered` is the further law that holds where no value is NaN (JSON cannot carry
-- one).
-- Instants are nanoseconds since Go's zero time, so that `At.IsZero()` is the test for 0; durations
-- are integers.
use legant.Base.{ℕ, String, ◌≡◌, Bool, true, Option, ◌⊎◌}

-- The parts of `net/url.URL` that the repository reads or writes.
pub record Url : Type 0 where
  pub scheme : String
  pub user : Option String
  pub host : String
  pub path : String
  pub raw_query : String
  pub fragment : String

pub record World : Type 1 where
  pub Float : Type 0
  pub gt : Float → Float → Bool
  pub gt_trans : (a b c : Float) → gt a b ≡ true → gt b c ≡ true → gt a c ≡ true
  pub float_zero : Float
  pub Location : Type 0
  pub utc : Location
  pub load_location : String → Option Location
  pub weekday : Location → ℕ → ℕ
  pub hour : Location → ℕ → ℕ
  pub minute : Location → ℕ → ℕ
  pub url_parse : String → Option Url
  pub url_string : Url → String
  pub hostname : Url → String
  pub to_lower : String → String
  pub storable : String → Bool

-- No NaN among the amounts: what is above `a` is above `b`, or `b` is above `a`.
pub record IsOrdered ⦃W : World⦄ : Type 0 where
  pub gt_cotrans : (a b c : W.Float) → W.gt a c ≡ true → (W.gt a b ≡ true) ⊎ (W.gt b c ≡ true)
