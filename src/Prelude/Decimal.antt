-- ===== src/Prelude/Decimal.antt =====
-- Decimal texts, and how they are read back.
use Prim.Native.Nat.{ℕ, zero, suc, ◌+◌, ◌-◌, ◌*◌, ◌/◌, ◌%◌, ◌<◌, ◌≤◌}
use mathlib.Core.Path.{◌≡◌, refl}
use mathlib.Core.Logic.{inl, inr}
use mathlib.Core.List.{[], ◌∷◌, ◌++◌}
use native.Mathlib.Omega.{arith}
use intrinsic_moveit.Prelude.Tests.{ltb, if◌then◌else◌, Bool-cases}
use intrinsic_moveit.Prelude.Lists.{All, All-append}
use intrinsic_moveit.Prelude.Text.{Str}

-- std::to_string and `%d` of a number that is not negative: as many steps as its value are enough.
decimal_from : ℕ → ℕ → Str
decimal_from zero n = []
decimal_from (suc fuel) n =
    let rest = decimal_from fuel (n / 10) in
    if ltb n 10 then (48 + n) ∷ [] else rest ++ ((48 + n % 10) ∷ [])

unfoldable pub decimal : ℕ → Str
unfolding decimal_from
decimal n = decimal_from (suc n) n

-- The number that a text's digits spell behind `n`.
abbrev pub value_from : ℕ → Str → ℕ
value_from n [] = n
value_from n (c ∷ s) = value_from (n * 10 + (c - 48)) s

value_from-append : (n : ℕ) (s t : Str) → value_from n (s ++ t) ≡ value_from (value_from n s) t
value_from-append n [] t = refl
value_from-append n (c ∷ s) t = value_from-append (n * 10 + (c - 48)) s t

value_from-decimal_from : (fuel n : ℕ) → n < fuel → value_from 0 (decimal_from fuel n) ≡ n
unfolding decimal_from
value_from-decimal_from zero n h = elim h [ ]
value_from-decimal_from (suc fuel) n h = elim (Bool-cases (ltb n 10)) [
  | inl e ↦ rw e (omega arith)
  | inr e ↦ rw e (
      rw (value_from-append 0 (decimal_from fuel (n / 10)) ((48 + n % 10) ∷ []))
        (omega (arith, value_from-decimal_from fuel (n / 10) (ground arith))))
]

-- A decimal text spells its number.
pub value_from-decimal : (n : ℕ) → value_from 0 (decimal n) ≡ n
unfolding decimal
value_from-decimal n = value_from-decimal_from (suc n) n (omega arith)

digits_from : (fuel n : ℕ) → All (λ (c : ℕ). (48 ≤ c) × (c ≤ 57)) (decimal_from fuel n)
unfolding decimal_from
digits_from zero n = tt
digits_from (suc fuel) n = elim (Bool-cases (ltb n 10)) [
  | inl e ↦ rw e ((omega arith, ground arith), tt)
  | inr e ↦ rw e (
      All-append _ (decimal_from fuel (n / 10)) ((48 + n % 10) ∷ []) (digits_from fuel (n / 10))
        ((omega arith, omega arith), tt))
]

-- A decimal text consists of digits.
pub decimal_digits : (n : ℕ) → All (λ (c : ℕ). (48 ≤ c) × (c ≤ 57)) (decimal n)
unfolding decimal
decimal_digits n = digits_from (suc n) n
