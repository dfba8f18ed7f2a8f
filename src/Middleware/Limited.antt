-- ===== src/Middleware/Limited.antt =====
-- What the rate limiter bounds, and that it lets a client in again.
use mathlib.Core.Path.{subst}
use legant.Base.{
  ℕ, suc, ◌+◌, ◌≤◌, ◌<◌, ltb, ℤ, pos, leb_ℤ, shift, String, ◌≡◌, refl, sym, ap, ◌∙◌, Bool, true,
  false, List, [], ◌∷◌, Option, none, some, ◌==◌, string_eq, eq_iff, arith, Bool-cases, All, inl,
  inr, if◌then◌else◌,
}
use legant.Middleware.{
  Window, RateLimiter, window_of, drop, put_window, is_stale, without_stale, drop_if, admit, allow,
  run, allowed,
}

window_of-drop : (key : String) (ws : List (String × Window)) → window_of (drop key ws) key ≡ none
unfolding window_of drop
window_of-drop key [] = refl
window_of-drop key (w ∷ ws) = elim (Bool-cases (w.0 == key)) [
  | inl same ↦ rw same (window_of-drop key ws)
  | inr other ↦ rw other (rw other (window_of-drop key ws))
]

window_of-drop_other :
    (key other : String) (ws : List (String × Window))
    → (key == other) ≡ false
    → window_of (drop key ws) other ≡ window_of ws other
unfolding window_of drop
window_of-drop_other key other [] h = refl
window_of-drop_other key other (w ∷ ws) h = ground (
  arith,
  window_of-drop_other key other ws h,
  eq_iff w.0 key,
  eq_iff w.0 other,
  eq_iff key other,
  h,
)

-- One client's window, on its own: the specification of the limiter.
abbrev pub admit_one : ℤ → ℤ → ℕ → Option Window → Option Window × Bool
admit_one limit interval now none = (some (record { count = 1; reset = shift now interval }), true)
admit_one limit interval now (some w) =
    if leb_ℤ limit (pos w.count)
    then (some w, false)
    else (some (record w { count = suc w.count }), true)

abbrev pub unless : Bool → Option Window → Option Window
unless true o = none
unless false o = o

abbrev pub step : ℤ → ℤ → ℕ → Option Window → Option Window × Bool
step limit interval now o = admit_one limit interval now (unless (is_stale now o) o)

without_stale_lem :
    (rl : RateLimiter) (key : String) (now : ℕ)
    → window_of (without_stale rl key now) key
      ≡ unless (is_stale now (window_of rl.windows key)) (window_of rl.windows key)
without_stale_lem rl key now = from (is_stale now (window_of rl.windows key))
  where
    from :
        (b : Bool) → window_of (drop_if b key rl.windows) key ≡ unless b (window_of rl.windows key)
    from true = window_of-drop key rl.windows
    from false = refl

without_stale_other :
    (rl : RateLimiter) (key other : String) (now : ℕ)
    → (key == other) ≡ false
    → window_of (without_stale rl key now) other ≡ window_of rl.windows other
without_stale_other rl key other now h = from (is_stale now (window_of rl.windows key))
  where
    from : (b : Bool) → window_of (drop_if b key rl.windows) other ≡ window_of rl.windows other
    from true = window_of-drop_other key other rl.windows h
    from false = refl

put_self :
    (key : String) (w : Window) (ws : List (String × Window))
    → window_of (put_window key w ws) key ≡ some w
unfolding window_of
put_self key w ws = ground (arith, eq_iff key key)

put_other :
    (key other : String) (w : Window) (ws : List (String × Window))
    → (key == other) ≡ false
    → window_of (put_window key w ws) other ≡ window_of ws other
unfolding window_of
put_other key other w ws h = rw h (window_of-drop_other key other ws h)

abbrev Moves : RateLimiter × Bool → String → Option Window × Bool → Type 0
Moves out key spec = (window_of out.0.windows key ≡ spec.0) × (out.1 ≡ spec.1)

admit-step :
    (rl : RateLimiter) (key : String) (now : ℕ) (ws : List (String × Window)) (o : Option Window)
    → window_of ws key ≡ o
    → Moves (admit rl key now ws o) key (admit_one rl.limit rl.interval now o)
admit-step rl key now ws none e = (put_self key _ ws, refl)
admit-step rl key now ws (some w) e = elim (Bool-cases (leb_ℤ rl.limit (pos w.count))) [
  | inl full ↦ rw full (e, refl)
  | inr free ↦ rw free (put_self key _ ws, refl)
]

-- A request of a key moves that key's window as the specification says, and is let in as it says.
pub allow-step :
    (rl : RateLimiter) (key : String) (now : ℕ)
    → (window_of (allow rl key now).0.windows key
        ≡ (step rl.limit rl.interval now (window_of rl.windows key)).0)
      × ((allow rl key now).1 ≡ (step rl.limit rl.interval now (window_of rl.windows key)).1)
unfolding allow
allow-step rl key now =
    let ws = without_stale rl key now in
    subst
      (λ o.
        Moves (admit rl key now ws (window_of ws key)) key (admit_one rl.limit rl.interval now o))
      (without_stale_lem rl key now) (admit-step rl key now ws (window_of ws key) refl)

-- The other windows stay as they are.
pub allow_other :
    (rl : RateLimiter) (key other : String) (now : ℕ)
    → (key == other) ≡ false
    → window_of (allow rl key now).0.windows other ≡ window_of rl.windows other
unfolding allow
allow_other rl key other now h =
    from (without_stale rl key now) (window_of (without_stale rl key now) key)
    ∙ without_stale_other rl key other now h
  where
    from :
        (ws : List (String × Window)) (o : Option Window)
        → window_of (admit rl key now ws o).0.windows other ≡ window_of ws other
    from ws none = put_other key other _ ws h
    from ws (some w) = elim (Bool-cases (leb_ℤ rl.limit (pos w.count))) [
      | inl full ↦ rw full refl
      | inr free ↦ rw free (put_other key other _ ws h)
    ]

allow-limit : (rl : RateLimiter) (key : String) (now : ℕ) → (allow rl key now).0.limit ≡ rl.limit
unfolding allow
allow-limit rl key now = from (without_stale rl key now) (window_of (without_stale rl key now) key)
  where
    from :
        (ws : List (String × Window)) (o : Option Window)
        → (admit rl key now ws o).0.limit ≡ rl.limit
    from ws none = refl
    from ws (some w) = elim (Bool-cases (leb_ℤ rl.limit (pos w.count))) [
      | inl full ↦ rw full refl
      | inr free ↦ rw free refl
    ]

-- Within a window that is not stale: the window that a request leaves, and whether it was let in.
in_window :
    (rl : RateLimiter) (key : String) (now : ℕ) (w : Window)
    → window_of rl.windows key ≡ some w
    → ltb w.reset now ≡ false
    → Moves (allow rl key now) key (admit_one rl.limit rl.interval now (some w))
in_window rl key now w h fresh =
    let spec =
      subst
        (λ o.
          Moves (allow rl key now) key
            (admit_one rl.limit rl.interval now (unless (is_stale now o) o)))
        h (allow-step rl key now) in
    subst
      (λ b. Moves (allow rl key now) key (admit_one rl.limit rl.interval now (unless b (some w))))
      fresh spec

-- The instants of all requests, of whatever key, lie before the end of the window.
abbrev pub Before : ℕ → List (String × ℕ) → Type 0
Before reset requests = All (λ q. q.1 ≤ reset) requests

in_time : (reset now : ℕ) → now ≤ reset → ltb reset now ≡ false
in_time reset now h = ground arith

moves :
    (rl : RateLimiter) (key : String) (q : String × ℕ) (w : Window)
    → q.0 ≡ key
    → window_of rl.windows key ≡ some w
    → q.1 ≤ w.reset
    → Moves (allow rl q.0 q.1) key (admit_one rl.limit rl.interval q.1 (some w))
moves rl key q w e h before =
    subst (λ k. Moves (allow rl k q.1) key (admit_one rl.limit rl.interval q.1 (some w))) (sym e)
      (in_window rl key q.1 w h (in_time w.reset q.1 before))

at_limit :
    (rl : RateLimiter) (key : String) (q : String × ℕ) (w : Window)
    → leb_ℤ rl.limit (pos w.count) ≡ true
    → Moves (allow rl q.0 q.1) key (admit_one rl.limit rl.interval q.1 (some w))
    → (window_of (allow rl q.0 q.1).0.windows key ≡ some w) × ((allow rl q.0 q.1).1 ≡ false)
at_limit rl key q w full m = rw full at m

below_limit :
    (rl : RateLimiter) (key : String) (q : String × ℕ) (w : Window)
    → leb_ℤ rl.limit (pos w.count) ≡ false
    → Moves (allow rl q.0 q.1) key (admit_one rl.limit rl.interval q.1 (some w))
    → (window_of (allow rl q.0 q.1).0.windows key ≡ some (record w { count = suc w.count }))
      × ((allow rl q.0 q.1).1 ≡ true)
below_limit rl key q w free m = rw free at m

room :
    (limit : ℤ) (count bound : ℕ)
    → leb_ℤ limit (pos count) ≡ false
    → leb_ℤ limit (pos bound) ≡ true
    → suc count ≤ bound
room limit count bound h k = ground arith

allowed-le_window :
    (key : String) (rl : RateLimiter) (requests : List (String × ℕ)) (w : Window) (bound : ℕ)
    → window_of rl.windows key ≡ some w
    → Before w.reset requests
    → leb_ℤ rl.limit (pos bound) ≡ true
    → w.count ≤ bound
    → allowed key rl requests + w.count ≤ bound
unfolding allowed
allowed-le_window key rl [] w bound h before cap c = omega (arith, c)
allowed-le_window key rl (q ∷ requests) w bound h before cap c = elim (Bool-cases (q.0 == key)) [
  | inl same ↦
      let later = (allow rl q.0 q.1).0 in
      let keeps = ap (λ l. leb_ℤ l (pos bound)) (allow-limit rl q.0 q.1) ∙ cap in
      let moved = moves rl key q w ((eq_iff q.0 key).0 same) h before.0 in
      elim (Bool-cases (leb_ℤ rl.limit (pos w.count))) [
        | inl full ↦
            let (left, out) = at_limit rl key q w full moved in
            let ih = allowed-le_window key later requests w bound left before.1 keeps c in
            rw same (rw out (omega (arith, ih)))
        | inr free ↦
            let (left, out) = below_limit rl key q w free moved in
            let ih =
              allowed-le_window key later requests (record w { count = suc w.count }) bound left
                before.1 keeps (room rl.limit w.count bound free cap) in
            rw same (rw out (omega (arith, ih)))
      ]
  | inr other ↦ rw other (
      allowed-le_window key (allow rl q.0 q.1).0 requests w bound
        (allow_other rl q.0 key q.1 other ∙ h) before.1
        (ap (λ l. leb_ℤ l (pos bound)) (allow-limit rl q.0 q.1) ∙ cap) c)
]

-- A window of a client opens with a request of it at an instant when it has no window or its window
-- has ended.
abbrev pub Opens : RateLimiter → String → ℕ → Type 0
Opens rl key start = (w : Window) → window_of rl.windows key ≡ some w → w.reset < start

Opens-none :
    (rl : RateLimiter) (key : String) (start : ℕ) (o : Option Window)
    → window_of rl.windows key ≡ o
    → Opens rl key start
    → unless (is_stale start o) o ≡ none
Opens-none rl key start none e opens = refl
Opens-none rl key start (some w) e opens = ground (arith, opens w e)

-- From the opening of a window, the first of a client or any later one, to its end, the client is let
-- in at most as often as the limit says, or once where the limit is smaller, whatever other clients
-- do.
pub allowed-le :
    (key : String) (rl : RateLimiter) (start : ℕ) (requests : List (String × ℕ)) (bound : ℕ)
    → Opens rl key start
    → Before (shift start rl.interval) requests
    → leb_ℤ rl.limit (pos bound) ≡ true
    → 1 ≤ bound
    → allowed key rl ((key, start) ∷ requests) ≤ bound
unfolding allowed
allowed-le key rl start requests bound opens before cap c =
    let (opened, first) =
      subst (λ o. Moves (allow rl key start) key (admit_one rl.limit rl.interval start o))
        (Opens-none rl key start (window_of rl.windows key) refl opens) (allow-step rl key start) in
    let rest =
      allowed-le_window key (allow rl key start).0 requests
        (record { count = 1; reset = shift start rl.interval }) bound opened before
        (ap (λ l. leb_ℤ l (pos bound)) (allow-limit rl key start) ∙ cap) c in
    rw ((eq_iff key key).1 refl) (rw first (omega (arith, rest)))

run-reset :
    (key : String) (rl : RateLimiter) (requests : List (String × ℕ)) (w : Window)
    → window_of rl.windows key ≡ some w
    → Before w.reset requests
    → (w' : Window) × (window_of (run rl requests).windows key ≡ some w') × (w'.reset ≡ w.reset)
unfolding run
run-reset key rl [] w h before = (w, h, refl)
run-reset key rl (q ∷ requests) w h before = elim (Bool-cases (q.0 == key)) [
  | inl same ↦
      let later = (allow rl q.0 q.1).0 in
      let moved = moves rl key q w ((eq_iff q.0 key).0 same) h before.0 in
      elim (Bool-cases (leb_ℤ rl.limit (pos w.count))) [
        | inl full ↦ run-reset key later requests w (at_limit rl key q w full moved).0 before.1
        | inr free ↦
            run-reset key later requests (record w { count = suc w.count })
              (below_limit rl key q w free moved).0 before.1
      ]
  | inr other ↦
      run-reset key (allow rl q.0 q.1).0 requests w (allow_other rl q.0 key q.1 other ∙ h) before.1
]

-- A window ends: whatever requests were made before, let in or not, a client is let in after it.
pub allow-after_reset :
    (key : String) (rl : RateLimiter) (requests : List (String × ℕ)) (w : Window) (now : ℕ)
    → window_of rl.windows key ≡ some w
    → Before w.reset requests
    → w.reset < now
    → (allow (run rl requests) key now).1 ≡ true
allow-after_reset key rl requests w now h before late =
    let (w', held, same) = run-reset key rl requests w h before in
    let after = run rl requests in
    let stale : ltb w'.reset now ≡ true = ap (λ r. ltb r now) same ∙ ended w.reset now late in
    (allow-step after key now).1
    ∙ ap (λ o. (step after.limit after.interval now o).1) held
    ∙ ap (λ b. (admit_one after.limit after.interval now (unless b (some w'))).1) stale
  where
    ended : (a b : ℕ) → a < b → ltb a b ≡ true
    ended a b k = ground arith
