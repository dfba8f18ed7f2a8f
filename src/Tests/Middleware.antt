-- ===== src/Tests/Middleware.antt =====
-- Tests and instances for internal/middleware: two requests a minute.
use legant.Base.{ℕ, ◌≤◌, ◌<◌, pos, String, ◌≡◌, refl, true, List, [], ◌∷◌, some, arith}
use legant.Middleware.{Window, RateLimiter, new_rate_limiter, window_of, drop, allow, run, allowed}
use legant.Middleware.Limited.{allowed-le, allow-after_reset}

unfoldable pub limiting : Unit {0}
unfolding new_rate_limiter window_of drop allow run allowed
limiting = tt

abbrev limiter : RateLimiter
limiter = new_rate_limiter (pos 2) (pos 60)

abbrev later : List (String × ℕ)
later = ("10.0.0.1", 110) ∷ ("10.0.0.2", 115) ∷ ("10.0.0.1", 120) ∷ []

two_let_in : allowed "10.0.0.1" limiter (("10.0.0.1", 100) ∷ later) ≡ 2
unfolding limiting
two_let_in = refl

abbrev opened : RateLimiter
opened = (allow limiter "10.0.0.1" 100).0

abbrev next_window : List (String × ℕ)
next_window = ("10.0.0.1", 171) ∷ ("10.0.0.2", 175) ∷ ("10.0.0.1", 180) ∷ []

ended : (w : Window) → window_of (run opened later).windows "10.0.0.1" ≡ some w → w.reset < 170
unfolding limiting
ended w h = ground (arith, h)

-- The second window of a client.
allowed-le_example : allowed "10.0.0.1" (run opened later) (("10.0.0.1", 170) ∷ next_window) ≤ 2
unfolding limiting
allowed-le_example =
    allowed-le "10.0.0.1" (run opened later) 170 next_window 2 ended
      (omega arith, (omega arith, (omega arith, tt))) refl (omega arith)

allow-after_reset_example : (allow (run opened later) "10.0.0.1" 161).1 ≡ true
unfolding limiting
allow-after_reset_example =
    allow-after_reset "10.0.0.1" opened later (record { count = 1; reset = 160 }) 161 refl
      (omega arith, (omega arith, (omega arith, tt))) (omega arith)
