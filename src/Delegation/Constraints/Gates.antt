-- ===== src/Delegation/Constraints/Gates.antt =====
-- What follows where a chain of checks was passed.
use legant.Base.{◌≡◌, refl, Bool, true, false, not, Option, none, some, arith, if◌then◌else◌}
use legant.Delegation.Constraints.{◌orelse◌}

pub orelse-none : {A : Type 0} (x y : Option A) → (x orelse y) ≡ none → (x ≡ none) × (y ≡ none)
orelse-none none y h = (refl, h)
orelse-none (some e) y h = absurd (ground arith)

pub none-orelse : {A : Type 0} (x y : Option A) → x ≡ none → y ≡ none → (x orelse y) ≡ none
none-orelse none y h k = k
none-orelse (some e) y h k = absurd (ground arith)

pub scope_gate :
    {A : Type 0} (held : Bool) (e : A) (rest : Option A)
    → (if not held then some e else rest) ≡ none
    → (held ≡ true) × (rest ≡ none)
scope_gate true e rest h = (refl, h)
scope_gate false e rest h = absurd (ground arith)
