-- ===== src/Delegation/Constraints/Windows.antt =====
-- What narrowing a time window and a rate keeps.
use mathlib.Core.Path.{subst}
use legant.Base.{
  ℕ, ◌+◌, ◌*◌, ℤ, pos, leb_ℤ, max_ℤ, min_ℤ, leb_ℤ-max, leb_ℤ-min, max_ℤ-le, le-min_ℤ, ◌≡◌, refl,
  inl, inr, false, ◌&&◌, Option, none, some, arith, eq_iff, string_eq, int_eq, Option-cases,
}
use legant.World.{World}
use legant.Delegation.AllowList.{intersect_ints}
use legant.Delegation.AllowList.Laws.{day_ok, day_ok-intersect_ints}
use legant.Delegation.Constraints.{
  TimeWindow, tighten_window, location_of, inside, allows, check_window,
}

range_meet :
    (a b c d m : ℤ)
    → (leb_ℤ (max_ℤ a c) m && leb_ℤ m (min_ℤ b d))
      ≡ ((leb_ℤ a m && leb_ℤ m b) && (leb_ℤ c m && leb_ℤ m d))
range_meet a b c d m =
    ground (arith, leb_ℤ-max a c m, leb_ℤ-min b d m, max_ℤ-le a c m, le-min_ℤ b d m)

module _ ⦃W : World⦄ where
  abbrev meet : TimeWindow → TimeWindow → TimeWindow
  meet p c = record {
    weekdays = intersect_ints p.weekdays c.weekdays;
    start_min = max_ℤ p.start_min c.start_min;
    end_min = min_ℤ p.end_min c.end_min;
    tz = p.tz;
  }

  abbrev minute_of_day : W.Location → ℕ → ℤ
  minute_of_day loc at = pos (W.hour loc at * 60 + W.minute loc at)

  -- A window as one condition on the weekday and one on the minute.
  inside-eq :
      (w : TimeWindow) (loc : W.Location) (at : ℕ)
      → inside w loc at ≡ (
          day_ok w.weekdays (pos (W.weekday loc at))
          && (leb_ℤ w.start_min (minute_of_day loc at) && leb_ℤ (minute_of_day loc at) w.end_min))
  unfolding inside
  inside-eq w loc at = ground arith

  inside-meet :
      (p c : TimeWindow) (loc : W.Location) (at : ℕ)
      → inside (meet p c) loc at ≡ (inside p loc at && inside c loc at)
  inside-meet p c loc at = ground (
    arith,
    inside-eq (meet p c) loc at,
    inside-eq p loc at,
    inside-eq c loc at,
    day_ok-intersect_ints p.weekdays c.weekdays (W.weekday loc at),
    range_meet p.start_min p.end_min c.start_min c.end_min (minute_of_day loc at),
  )

  allows-at :
      (w : TimeWindow) (at : ℕ) {o : Option W.Location}
      → location_of w.tz ≡ o
      → allows w at ≡ elim o [ none ↦ false | some loc ↦ inside w loc at ]
  unfolding allows
  allows-at w at e = rw (e, allows)

  allows-none : (w : TimeWindow) (at : ℕ) → location_of w.tz ≡ none → allows w at ≡ false
  allows-none w at e = allows-at w at e

  allows-some :
      (w : TimeWindow) (at : ℕ) (loc : W.Location)
      → location_of w.tz ≡ some loc
      → allows w at ≡ inside w loc at
  allows-some w at loc e = allows-at w at e

  -- Two windows of one time zone meet in the window that admits exactly what both admit.
  pub allows-meet :
      (p c : TimeWindow) (at : ℕ)
      → p.tz ≡ c.tz
      → allows (meet p c) at ≡ (allows p at && allows c at)
  allows-meet p c at same = elim (Option-cases (location_of p.tz)) [
    | inl e ↦ ground (arith, allows-none (meet p c) at e, allows-none p at e)
    | inr (loc, e) ↦ ground (
      arith,
      allows-some (meet p c) at loc e,
      allows-some p at loc e,
      allows-some c at loc (subst (λ z. location_of z ≡ some loc) same e),
      inside-meet p c loc at,
    )
  ]

  -- A tightened window admits nothing that the first window refuses, in any time zone.
  pub check-tighten_window_left :
      (p c : Option TimeWindow) (at : ℕ)
      → check_window (tighten_window p c) at ≡ none
      → check_window p at ≡ none
  unfolding tighten_window check_window
  check-tighten_window_left none c at h = refl
  check-tighten_window_left (some p) none at h = h
  check-tighten_window_left (some p) (some c) at h =
      ground (arith, eq_iff p.tz c.tz, allows-meet p c at)

  -- The zones of two windows are the same, where both are set.
  abbrev pub SameZone : Option TimeWindow → Option TimeWindow → Type 0
  SameZone (some p) (some c) = p.tz ≡ c.tz
  SameZone _ _ = Unit

  pub check-tighten_window_right :
      (p c : Option TimeWindow) (at : ℕ)
      → SameZone p c
      → check_window (tighten_window p c) at ≡ none
      → check_window c at ≡ none
  unfolding tighten_window check_window
  check-tighten_window_right none c at s h = h
  check-tighten_window_right (some p) none at s h = refl
  check-tighten_window_right (some p) (some c) at s h =
      ground (arith, eq_iff p.tz c.tz, allows-meet p c at s)

  pub check-tighten_window_both :
      (p c : Option TimeWindow) (at : ℕ)
      → check_window p at ≡ none
      → check_window c at ≡ none
      → check_window (tighten_window p c) at ≡ none
  unfolding tighten_window check_window
  check-tighten_window_both none c at h k = k
  check-tighten_window_both (some p) none at h k = h
  check-tighten_window_both (some p) (some c) at h k =
      ground (arith, eq_iff p.tz c.tz, allows-meet p c at)
