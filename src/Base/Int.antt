-- ===== src/Base/Int.antt =====
-- Go's signed integers, as unbounded integers; `negsuc n` is -(n + 1).
use Prim.Native.Nat.{ℕ, suc, ◌<◌, ◌+◌, ◌-◌}
use mathlib.Core.Path.{◌≡◌, refl}
use mathlib.Core.Logic.{◌↔◌}
use mathlib.Core.Bool.{Bool, true, false}
use native.Mathlib.Omega.{arith}
use open_cidn.Base.Tests.{ltb, ◌==◌, if◌then◌else◌}

pub data ℤ : Type 0 where
  pos : ℕ → ℤ
  negsuc : ℕ → ℤ

-- `a == b` on integers.
unfoldable pub int_eq : ℤ → ℤ → Bool
int_eq (pos a) (pos b) = a == b
int_eq (pos a) (negsuc b) = false
int_eq (negsuc a) (pos b) = false
int_eq (negsuc a) (negsuc b) = a == b

-- `a < b` on integers.
unfoldable pub int_lt : ℤ → ℤ → Bool
int_lt (pos a) (pos b) = ltb a b
int_lt (pos a) (negsuc b) = false
int_lt (negsuc a) (pos b) = true
int_lt (negsuc a) (negsuc b) = ltb b a

pub int_eq_iff : (a b : ℤ) → (int_eq a b ≡ true) ↔ (a ≡ b)
unfolding int_eq
int_eq_iff (pos a) (pos b) = (λ h. ground arith, λ h. ground arith)
int_eq_iff (pos a) (negsuc b) = (λ h. cc, λ h. cc)
int_eq_iff (negsuc a) (pos b) = (λ h. cc, λ h. cc)
int_eq_iff (negsuc a) (negsuc b) = (λ h. ground arith, λ h. ground arith)

pub int_eq_refl : (a : ℤ) → int_eq a a ≡ true
int_eq_refl a = (int_eq_iff a a).1 refl

pub int_lt_asymm : (a b : ℤ) → int_lt a b ≡ true → int_lt b a ≡ false
unfolding int_lt
int_lt_asymm (pos a) (pos b) h = ground arith
int_lt_asymm (pos a) (negsuc b) h = ground arith
int_lt_asymm (negsuc a) (pos b) h = ground arith
int_lt_asymm (negsuc a) (negsuc b) h = ground arith

-- A number that is not negative and below `n`.
abbrev pub IsAssigned : ℕ → ℤ → Type 0
IsAssigned n (pos k) = k < n
IsAssigned n (negsuc k) = ⊥

pub new_apart : (n : ℕ) (id : ℤ) → IsAssigned n id → int_eq (pos n) id ≡ false
unfolding int_eq
new_apart n (pos k) h = ground arith
new_apart n (negsuc k) h = absurd h

pub int_eq_comm : (a b : ℤ) → int_eq a b ≡ int_eq b a
unfolding int_eq
int_eq_comm (pos a) (pos b) = ground arith
int_eq_comm (pos a) (negsuc b) = refl
int_eq_comm (negsuc a) (pos b) = refl
int_eq_comm (negsuc a) (negsuc b) = ground arith

pub int_lt_apart : (a b : ℤ) → int_lt a b ≡ true → int_eq a b ≡ false
unfolding int_lt int_eq
int_lt_apart (pos a) (pos b) h = ground arith
int_lt_apart (pos a) (negsuc b) h = refl
int_lt_apart (negsuc a) (pos b) h = refl
int_lt_apart (negsuc a) (negsuc b) h = ground arith

-- `a + b` on integers.
unfoldable pub int_add : ℤ → ℤ → ℤ
int_add (pos a) (pos b) = pos (a + b)
int_add (pos a) (negsuc b) = if ltb b a then pos (a - suc b) else negsuc (b - a)
int_add (negsuc a) (pos b) = if ltb a b then pos (b - suc a) else negsuc (a - b)
int_add (negsuc a) (negsuc b) = negsuc (suc (a + b))
