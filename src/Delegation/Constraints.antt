-- ===== src/Delegation/Constraints.antt =====
-- Constraints of internal/delegation/delegation.go: `TimeWindow`, `RateLimit`, `Constraints` with
-- `Allows`, `Validate`, `Permit` and `Tighten`. `time.Now()` is the argument `now`.
pub mod Gates
pub mod Laws
pub mod Windows
use legant.Base.{
  ℕ, ◌+◌, ◌*◌, ℤ, pos, leb_ℤ, ltb_ℤ, max_ℤ, min_ℤ, String, Bool, true, false, not, ◌&&◌, ◌||◌, List,
  [], ◌∷◌, Option, none, some, ◌==◌, nat_eq, string_eq, int_eq, contains, is_empty, if◌then◌else◌,
}
use legant.World.{World}
use legant.Delegation.AllowList.{
  Denial, category, tool, resource, over_amount, outside_window, permit_list, intersect_allow,
  intersect_ints,
}

pub record TimeWindow : Type 0 where
  pub weekdays : List ℤ
  pub start_min : ℤ
  pub end_min : ℤ
  pub tz : String

pub record RateLimit : Type 0 where
  pub max_per_hour : ℤ

-- The messages of `Validate`.
pub data WindowError : Type 0 where
  minutes_range minutes_order weekday_range unknown_tz : WindowError

-- The first error wins, as with Go's early `return err`.
infixr 30 ◌orelse◌
abbrev pub ◌orelse◌ {ℓ} : {A : Type ℓ} → Option A → Option A → Option A
none orelse b = b
some e orelse b = some e

unfoldable pub tighten_rate : Option RateLimit → Option RateLimit → Option RateLimit
tighten_rate none c = c
tighten_rate (some p) none = some p
tighten_rate (some p) (some c) = some (record {
  max_per_hour = if ltb_ℤ c.max_per_hour p.max_per_hour then c.max_per_hour else p.max_per_hour;
})

unfoldable pub tighten_window : Option TimeWindow → Option TimeWindow → Option TimeWindow
tighten_window none c = c
tighten_window (some p) none = some p
tighten_window (some p) (some c) =
    if not (p.tz == c.tz)
    then some p
    else some (record {
      weekdays = intersect_ints p.weekdays c.weekdays;
      start_min = max_ℤ p.start_min c.start_min;
      end_min = min_ℤ p.end_min c.end_min;
      tz = p.tz;
    })

unfoldable pub check_weekdays : List ℤ → Option WindowError
check_weekdays [] = none
check_weekdays (d ∷ days) =
    if ltb_ℤ d (pos 0) || ltb_ℤ (pos 6) d then some weekday_range else check_weekdays days

abbrev is_none {ℓ} : {A : Type ℓ} → Option A → Bool
is_none none = true
is_none (some a) = false

module _ ⦃W : World⦄ where
  pub record Constraints : Type 0 where
    pub max_amount : Option W.Float
    pub categories : List String
    pub tools : List String
    pub resources : List String
    pub time_window : Option TimeWindow
    pub rate : Option RateLimit

  pub record Action : Type 0 where
    pub scope : String
    pub amount : W.Float
    pub category_of : String
    pub tool_name : String
    pub resource_of : String
    pub at : ℕ

  -- The location in which a window is read: UTC for the empty name.
  unfoldable pub location_of : String → Option W.Location
  location_of tz = if tz == "" then some W.utc else W.load_location tz

  unfoldable pub inside : TimeWindow → W.Location → ℕ → Bool
  inside w loc at =
      let m = pos (W.hour loc at * 60 + W.minute loc at) in
      if not (is_empty w.weekdays) && not (contains w.weekdays (pos (W.weekday loc at)))
      then false
      else leb_ℤ w.start_min m && leb_ℤ m w.end_min

  unfoldable pub allows : TimeWindow → ℕ → Bool
  unfolding location_of inside
  allows w at = elim (location_of w.tz) [ none ↦ false | some loc ↦ inside w loc at ]

  unfoldable pub validate : TimeWindow → Option WindowError
  unfolding check_weekdays
  validate w =
      if ltb_ℤ w.start_min (pos 0)
        || ltb_ℤ (pos 1439) w.start_min
        || ltb_ℤ w.end_min (pos 0)
        || ltb_ℤ (pos 1439) w.end_min
      then some minutes_range
      else if ltb_ℤ w.end_min w.start_min
      then some minutes_order
      else check_weekdays w.weekdays
        orelse (if not (w.tz == "") && is_none (W.load_location w.tz)
            then some unknown_tz
            else none)

  unfoldable pub check_amount : Option W.Float → W.Float → Option Denial
  check_amount none a = none
  check_amount (some m) a = if W.gt a m then some over_amount else none

  unfoldable pub check_window : Option TimeWindow → ℕ → Option Denial
  check_window none at = none
  check_window (some w) at = if not (allows w at) then some outside_window else none

  -- `a.At`, or the present where it is zero.
  abbrev pub instant_of : ℕ → ℕ → ℕ
  instant_of now at = if at == 0 then now else at

  unfoldable pub permit : ℕ → Constraints → Action → Option Denial
  permit now c a =
      check_amount c.max_amount a.amount
      orelse permit_list category c.categories a.category_of
      orelse permit_list tool c.tools a.tool_name
      orelse permit_list resource c.resources a.resource_of
      orelse check_window c.time_window (instant_of now a.at)

  unfoldable pub tighten_amount : Option W.Float → Option W.Float → Option W.Float
  tighten_amount none c = c
  tighten_amount (some p) none = some p
  tighten_amount (some p) (some c) = if W.gt p c then some c else some p

  unfoldable pub tighten : Constraints → Constraints → Constraints
  tighten parent child = record {
    max_amount = tighten_amount parent.max_amount child.max_amount;
    categories = intersect_allow parent.categories child.categories;
    tools = intersect_allow parent.tools child.tools;
    resources = intersect_allow parent.resources child.resources;
    time_window = tighten_window parent.time_window child.time_window;
    rate = tighten_rate parent.rate child.rate;
  }
