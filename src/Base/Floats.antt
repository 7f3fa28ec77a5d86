-- ===== src/Base/Floats.antt =====
-- Python's finite floats, as whole multiples of the smallest of them, which is 2 ^ -1074.
use Prim.Native.Nat.{ℕ, zero, suc, ◌+◌, ◌*◌, ◌/◌, ◌%◌, ◌^◌, ◌<◌}
use mathlib.Core.Path.{sym}
use mathlib.Core.Logic.{inl, inr}
use native.Mathlib.Omega.{arith}
use native.Mathlib.Nat.{div-div-eq-div-mul}
use mathlib.Core.Bool.{Bool, true, false}
use ztrade_ares_7x.Base.Tests.{if◌then◌else◌, ltb, Bool-cases}
use ztrade_ares_7x.Base.Int.{ℤ, pos, negsuc}

-- the digits of a float
abbrev pub digits : ℕ
digits = 2 ^ 53

-- The unit in which a number is written with 53 digits at most: a power of two. Each step takes one
-- digit, and no finite float has more than 2098 of them.
abbrev pub unit_of : (fuel : ℕ) → ℕ → ℕ
unit_of zero n = 1
unit_of (suc fuel) n = let rest = unit_of fuel (n / 2) in if ltb n digits then 1 else 2 * rest

-- enough fuel: what is left behind the unit has 53 digits at most
pub unit_of-digits : (fuel n : ℕ) → n < digits * 2 ^ fuel → n / unit_of fuel n < digits
unit_of-digits zero n h = omega (arith, h)
unit_of-digits (suc fuel) n h = elim (Bool-cases (ltb n digits)) [
  | inl e ↦ rw e (ground arith)
  | inr e ↦
      let later = unit_of-digits fuel (n / 2) (omega (arith, h)) in
      rw (e, sym (div-div-eq-div-mul n 2 (unit_of fuel (n / 2)))) later
]

-- n / d, rounded to the nearest whole number, and halfway to the even one
abbrev pub half_even : (d n : ℕ) → ℕ
half_even d n =
    if ltb (2 * (n % d)) d
    then n / d
    else if ltb d (2 * (n % d))
    then n / d + 1
    else n / d + (n / d) % 2

-- the float that is nearest to n / 2 ^ 53
abbrev pub nearest : ℕ → ℕ
nearest n = let u = unit_of 2100 (n / digits) in half_even (digits * u) n * u

-- `0.9` is this over 2 ^ 53
abbrev pub nine_tenths : ℕ
nine_tenths = 8106479329266893

-- `candidate < best * 0.9`, for a positive `best`
abbrev pub below_ratio : (candidate : ℤ) → (best : ℕ) → Bool
below_ratio (pos c) best = ltb c (nearest (best * nine_tenths))
below_ratio (negsuc c) best = true

-- `best > 0 and candidate < best * 0.9`
abbrev pub regresses : (candidate best : ℤ) → Bool
regresses c (pos zero) = false
regresses c (negsuc b) = false
regresses c (pos (suc b)) = below_ratio c (suc b)

-- 1.0 and 0.001
abbrev pub one : ℕ
one = 2 ^ 1074

abbrev pub thousandth : ℕ
thousandth = 4611686018427388 * 2 ^ 1012
