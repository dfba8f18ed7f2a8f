-- ===== src/Base/Int.antt =====
-- Go's `int` where a value may be negative: weekdays, minutes, caps and durations.
use Prim.Native.Nat.{ℕ, suc, ◌+◌, ◌-◌}
use mathlib.Core.Path.{◌≡◌}
use mathlib.Core.Logic.{◌↔◌}
use mathlib.Core.Bool.{Bool, true, false}
use native.Mathlib.Omega.{arith}
use legant.Base.Tests.{ltb, leb, nat_beq, if◌then◌else◌, Comparable}

-- `negsuc n` is -(n + 1).
pub data ℤ : Type 0 where
  pos : ℕ → ℤ
  negsuc : ℕ → ℤ

abbrev pub leb_ℤ : ℤ → ℤ → Bool
leb_ℤ (pos a) (pos b) = leb a b
leb_ℤ (pos a) (negsuc b) = false
leb_ℤ (negsuc a) (pos b) = true
leb_ℤ (negsuc a) (negsuc b) = leb b a

abbrev pub ltb_ℤ : ℤ → ℤ → Bool
ltb_ℤ (pos a) (pos b) = ltb a b
ltb_ℤ (pos a) (negsuc b) = false
ltb_ℤ (negsuc a) (pos b) = true
ltb_ℤ (negsuc a) (negsuc b) = ltb b a

abbrev pub beq_ℤ : ℤ → ℤ → Bool
beq_ℤ (pos a) (pos b) = nat_beq a b
beq_ℤ (pos a) (negsuc b) = false
beq_ℤ (negsuc a) (pos b) = false
beq_ℤ (negsuc a) (negsuc b) = nat_beq a b

pub beq_ℤ_iff : (a b : ℤ) → (beq_ℤ a b ≡ true) ↔ (a ≡ b)
beq_ℤ_iff a b = ground arith

instance abbrev pub int_eq : Comparable ℤ
int_eq = record { same = beq_ℤ; same_iff = beq_ℤ_iff }

-- The builtins `max` and `min` of Go.
abbrev pub max_ℤ : ℤ → ℤ → ℤ
max_ℤ a b = if leb_ℤ a b then b else a

abbrev pub min_ℤ : ℤ → ℤ → ℤ
min_ℤ a b = if leb_ℤ a b then a else b

-- An instant moved by a signed duration.
abbrev pub shift : ℕ → ℤ → ℕ
shift t (pos d) = t + d
shift t (negsuc d) = t - suc d

pub leb_ℤ-max : (a b c : ℤ) → leb_ℤ (max_ℤ a b) c ≡ true → (leb_ℤ a c ≡ true) × (leb_ℤ b c ≡ true)
leb_ℤ-max a b c h = ground arith

pub leb_ℤ-min : (a b c : ℤ) → leb_ℤ c (min_ℤ a b) ≡ true → (leb_ℤ c a ≡ true) × (leb_ℤ c b ≡ true)
leb_ℤ-min a b c h = ground arith

pub max_ℤ-le : (a b c : ℤ) → leb_ℤ a c ≡ true → leb_ℤ b c ≡ true → leb_ℤ (max_ℤ a b) c ≡ true
max_ℤ-le a b c h k = ground arith

pub le-min_ℤ : (a b c : ℤ) → leb_ℤ c a ≡ true → leb_ℤ c b ≡ true → leb_ℤ c (min_ℤ a b) ≡ true
le-min_ℤ a b c h k = ground arith
