-- ===== src/Delegation/Constraints/Laws.antt =====
-- `Tighten` as the meet of two constraint sets under `Permit`.
use legant.Base.{ℕ, ◌≡◌, refl, ◌≢◌, Option, none, some, arith}
use legant.World.{World, IsOrdered}
use legant.Delegation.AllowList.{category, tool, resource, permit_list}
use legant.Delegation.AllowList.Laws.{
  IsSealed, permit-intersect_allow_left, permit-intersect_allow_right, permit-intersect_allow_both,
  intersect_allow-IsSealed,
}
use legant.Delegation.Constraints.{
  Constraints, Action, check_amount, check_window, instant_of, permit, tighten_amount, tighten,
}
use legant.Delegation.Constraints.Windows.{
  SameZone, check-tighten_window_left, check-tighten_window_right, check-tighten_window_both,
}

module _ ⦃W : World⦄ where
  -- No list of the set mixes the sentinel with real values.
  pub record IsWellFormed (c : Constraints) : Type 0 where
    pub categories : IsSealed c.categories
    pub tools : IsSealed c.tools
    pub resources : IsSealed c.resources

  -- The five checks of `Permit`, each passed.
  pub record Passes (now : ℕ) (c : Constraints) (a : Action) : Type 0 where
    pub amount : check_amount c.max_amount a.amount ≡ none
    pub categories : permit_list category c.categories a.category_of ≡ none
    pub tools : permit_list tool c.tools a.tool_name ≡ none
    pub resources : permit_list resource c.resources a.resource_of ≡ none
    pub window : check_window c.time_window (instant_of now a.at) ≡ none

  pub permit-Passes :
      (now : ℕ) (c : Constraints) (a : Action) → permit now c a ≡ none → Passes now c a
  unfolding permit
  permit-Passes now c a h = ground arith

  pub Passes-permit :
      {now : ℕ} {c : Constraints} {a : Action} → Passes now c a → permit now c a ≡ none
  unfolding permit
  Passes-permit h = ground arith

  amount-left :
      (p c : Option W.Float) (a : W.Float)
      → check_amount (tighten_amount p c) a ≡ none
      → check_amount p a ≡ none
  unfolding check_amount tighten_amount
  amount-left none c a h = refl
  amount-left (some p) none a h = h
  amount-left (some p) (some c) a h = ground (arith, W.gt_trans a p c)

  amount-right :
      IsOrdered
      → (p c : Option W.Float) (a : W.Float) → check_amount (tighten_amount p c) a ≡ none
      → check_amount c a ≡ none
  unfolding check_amount tighten_amount
  amount-right o none c a h = h
  amount-right o (some p) none a h = refl
  amount-right o (some p) (some c) a h = ground (arith, o.gt_cotrans a p c)

  amount-both :
      (p c : Option W.Float) (a : W.Float)
      → check_amount p a ≡ none
      → check_amount c a ≡ none
      → check_amount (tighten_amount p c) a ≡ none
  unfolding check_amount tighten_amount
  amount-both none c a h k = k
  amount-both (some p) none a h k = h
  amount-both (some p) (some c) a h k = ground arith

  -- Whatever the tightened set permits, the parent permits.
  pub tighten_parent :
      (now : ℕ) (p c : Constraints) (a : Action)
      → IsWellFormed p
      → permit now (tighten p c) a ≡ none
      → permit now p a ≡ none
  unfolding tighten
  tighten_parent now p c a w h =
      let t = permit-Passes now (tighten p c) a h in
      Passes-permit (record {
        amount = amount-left p.max_amount c.max_amount a.amount t.amount;
        categories =
            permit-intersect_allow_left category p.categories c.categories a.category_of
              w.categories t.categories;
        tools = permit-intersect_allow_left tool p.tools c.tools a.tool_name w.tools t.tools;
        resources =
            permit-intersect_allow_left resource p.resources c.resources a.resource_of w.resources
              t.resources;
        window =
            check-tighten_window_left p.time_window c.time_window (instant_of now a.at) t.window;
      })

  -- Whatever the tightened set permits, the child's own set permits, if no amount is a NaN and both
  -- windows are read in one time zone.
  pub tighten_child :
      IsOrdered
      → (now : ℕ) (p c : Constraints) (a : Action) → IsWellFormed c
      → SameZone p.time_window c.time_window
      → permit now (tighten p c) a ≡ none
      → permit now c a ≡ none
  unfolding tighten
  tighten_child o now p c a w zone h =
      let t = permit-Passes now (tighten p c) a h in
      Passes-permit (record {
        amount = amount-right o p.max_amount c.max_amount a.amount t.amount;
        categories =
            permit-intersect_allow_right category p.categories c.categories a.category_of
              w.categories t.categories;
        tools = permit-intersect_allow_right tool p.tools c.tools a.tool_name w.tools t.tools;
        resources =
            permit-intersect_allow_right resource p.resources c.resources a.resource_of w.resources
              t.resources;
        window =
            check-tighten_window_right p.time_window c.time_window (instant_of now a.at) zone
              t.window;
      })

  -- An action that names every list dimension and that both sets permit is permitted by the
  -- tightened set: nothing more than the two sets ask for is lost.
  pub tighten_both :
      (now : ℕ) (p c : Constraints) (a : Action)
      → a.category_of ≢ ""
      → a.tool_name ≢ ""
      → a.resource_of ≢ ""
      → permit now p a ≡ none
      → permit now c a ≡ none
      → permit now (tighten p c) a ≡ none
  unfolding tighten
  tighten_both now p c a nc nt nr hp hc =
      let s = permit-Passes now p a hp in
      let t = permit-Passes now c a hc in
      Passes-permit (record {
        amount = amount-both p.max_amount c.max_amount a.amount s.amount t.amount;
        categories =
            permit-intersect_allow_both category p.categories c.categories a.category_of nc
              s.categories t.categories;
        tools = permit-intersect_allow_both tool p.tools c.tools a.tool_name nt s.tools t.tools;
        resources =
            permit-intersect_allow_both resource p.resources c.resources a.resource_of nr
              s.resources t.resources;
        window =
            check-tighten_window_both p.time_window c.time_window (instant_of now a.at) s.window
              t.window;
      })

  -- Tightening keeps the sentinel alone in its list.
  pub tighten-IsWellFormed :
      (p c : Constraints) → IsWellFormed p → IsWellFormed c → IsWellFormed (tighten p c)
  unfolding tighten
  tighten-IsWellFormed p c wp wc = record {
    categories = intersect_allow-IsSealed p.categories c.categories wp.categories wc.categories;
    tools = intersect_allow-IsSealed p.tools c.tools wp.tools wc.tools;
    resources = intersect_allow-IsSealed p.resources c.resources wp.resources wc.resources;
  }
