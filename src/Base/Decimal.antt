-- ===== src/Base/Decimal.antt =====
-- `strconv.FormatInt(n, 10)` for numbers that are not negative.
use Prim.Native.Nat.{ℕ, zero, suc, ◌+◌, ◌/◌, ◌%◌}
use mathlib.Core.Path.{◌≡◌, refl}
use mathlib.Core.Logic.{inl, inr}
use mathlib.Core.Bool.{false}
use mathlib.Core.List.{[], ◌∷◌}
use open_cidn.Base.Tests.{ltb, if◌then◌else◌, Bool-cases}
use open_cidn.Base.Text.{Bytes, str_eq}

-- The digits of `n` before those of `done`; a number has no more digits than its fuel `n + 1`.
unfoldable pub decimal_from : ℕ → ℕ → Bytes → Bytes
decimal_from zero n done = done
decimal_from (suc fuel) n done =
    let rest = decimal_from fuel (n / 10) ((48 + n % 10) ∷ done) in
    if ltb n 10 then (48 + n) ∷ done else rest

unfoldable pub decimal : ℕ → Bytes
decimal n = decimal_from (suc n) n []

decimal_from_there :
    (fuel n b : ℕ) (done : Bytes) → str_eq (decimal_from fuel n (b ∷ done)) [] ≡ false
unfolding decimal_from str_eq
decimal_from_there zero n b done = refl
decimal_from_there (suc fuel) n b done = elim (Bool-cases (ltb n 10)) [
  | inl e ↦ rw e refl
  | inr e ↦ rw e (decimal_from_there fuel (n / 10) (48 + n % 10) (b ∷ done))
]

-- A number is never written as nothing.
pub decimal_there : (n : ℕ) → str_eq (decimal n) [] ≡ false
unfolding decimal decimal_from str_eq
decimal_there n = elim (Bool-cases (ltb n 10)) [
  | inl e ↦ rw e refl
  | inr e ↦ rw e (decimal_from_there n (n / 10) (48 + n % 10) [])
]
