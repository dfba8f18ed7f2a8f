-- ===== src/Middleware.antt =====
-- internal/middleware/ratelimit.go: the fixed-window rate limiter. A Go map is an association list; the
-- lock makes a request one step, and `now` is the instant that the middleware passes.
pub mod Limited
use legant.Base.{
  ℕ, suc, ◌+◌, ltb, ℤ, pos, leb_ℤ, shift, String, Bool, true, false, List, [], ◌∷◌, Option, none,
  some, ◌==◌, string_eq, if◌then◌else◌,
}

pub record Window : Type 0 where
  pub count : ℕ
  pub reset : ℕ

pub record RateLimiter : Type 0 where
  pub windows : List (String × Window)
  pub limit : ℤ
  pub interval : ℤ

unfoldable pub new_rate_limiter : ℤ → ℤ → RateLimiter
new_rate_limiter limit interval = record { windows = []; limit = limit; interval = interval }

unfoldable pub window_of : List (String × Window) → String → Option Window
window_of [] key = none
window_of (w ∷ ws) key = if w.0 == key then some w.1 else window_of ws key

unfoldable pub drop : String → List (String × Window) → List (String × Window)
drop key [] = []
drop key (w ∷ ws) = let others = drop key ws in if w.0 == key then others else w ∷ others

abbrev pub put_window : String → Window → List (String × Window) → List (String × Window)
put_window key w ws = (key, w) ∷ drop key ws

abbrev pub drop_if : Bool → String → List (String × Window) → List (String × Window)
drop_if true key ws = drop key ws
drop_if false key ws = ws

-- `now.After(w.reset)`, for a window that is there.
abbrev pub is_stale : ℕ → Option Window → Bool
is_stale now none = false
is_stale now (some w) = ltb w.reset now

abbrev pub without_stale : RateLimiter → String → ℕ → List (String × Window)
without_stale rl key now = drop_if (is_stale now (window_of rl.windows key)) key rl.windows

abbrev pub admit :
    RateLimiter → String → ℕ → List (String × Window) → Option Window → RateLimiter × Bool
admit rl key now ws none = (
  record rl { windows = put_window key (record { count = 1; reset = shift now rl.interval }) ws },
  true,
)
admit rl key now ws (some w) =
    if leb_ℤ rl.limit (pos w.count)
    then (record rl { windows = ws }, false)
    else (record rl { windows = put_window key (record w { count = suc w.count }) ws }, true)

unfoldable pub allow : RateLimiter → String → ℕ → RateLimiter × Bool
allow rl key now = let ws = without_stale rl key now in admit rl key now ws (window_of ws key)

-- The limiter behind requests in the order of their arrival.
unfoldable pub run : RateLimiter → List (String × ℕ) → RateLimiter
run rl [] = rl
run rl (q ∷ requests) = run (allow rl q.0 q.1).0 requests

abbrev pub one_if : Bool → ℕ
one_if true = 1
one_if false = 0

-- How many of the requests of one key are let in.
unfoldable pub allowed : String → RateLimiter → List (String × ℕ) → ℕ
allowed key rl [] = 0
allowed key rl (q ∷ requests) =
    let rest = allowed key (allow rl q.0 q.1).0 requests in
    if q.0 == key then one_if (allow rl q.0 q.1).1 + rest else rest
