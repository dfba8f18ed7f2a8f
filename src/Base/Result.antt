-- ===== src/Base/Result.antt =====
-- Go's pair of a value and an error: one of the two.
use mathlib.Core.Path.{◌≡◌, refl, ap}
use mathlib.Core.Bool.{Bool, true, false}

pub data Result (E A : Type 0) : Type 0 where
  ok : A → Result E A
  err : E → Result E A

-- `if b { return e }` at the head of the rest.
abbrev pub reject_if : {E : Type 0} → Bool → E → Result E (Unit {0})
reject_if false e = ok tt
reject_if true e = err e

infixl 5 ◌>>=◌ ◌>>◌
-- `if err != nil { return err }` before the rest.
abbrev pub ◌>>=◌ : {E A B : Type 0} → Result E A → (A → Result E B) → Result E B
err e >>= rest = err e
ok a >>= rest = rest a

abbrev pub ◌>>◌ : {E B : Type 0} → Result E (Unit {0}) → Result E B → Result E B
check >> rest = check >>= λ _. rest

pub >>=-eq-ok :
    {E A B : Type 0} (m : Result E A) (rest : A → Result E B) {b : B}
    → (m >>= rest) ≡ ok b
    → (a : A) × (m ≡ ok a) × (rest a ≡ ok b)
>>=-eq-ok (err e) rest h = cc
>>=-eq-ok (ok a) rest h = (a, refl, h)

-- A rejection that was passed.
pub reject_if-eq-ok :
    {E B : Type 0} (b : Bool) (e : E) (rest : Result E B) {x : B}
    → (reject_if b e >> rest) ≡ ok x
    → (b ≡ false) × (rest ≡ ok x)
reject_if-eq-ok false e rest h = (refl, h)
reject_if-eq-ok true e rest h = cc

abbrev ok_or : {E A : Type 0} → A → Result E A → A
ok_or d (ok x) = x
ok_or d (err e) = d

pub ok-injective : {E A : Type 0} {a b : A} → ◌≡◌ {A = Result E A} (ok a) (ok b) → a ≡ b
ok-injective {a = a} h = ap (ok_or a) h
