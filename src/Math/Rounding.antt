-- ===== src/Math/Rounding.antt =====
-- `mul_div_i128` against exact division (contracts/credence_math/src/lib.rs).
use native.Mathlib.Nat.{div-add-mod', mod-lt, mul-le-mul_right}
use credence_contracts.Prelude.{
  ℕ, zero, suc, refl, ltb, ◌==◌, Bool-cases, inl, inr, if◌then◌else◌, false, ◌+◌, ◌*◌, ◌≤◌, ◌<◌,
  ◌≡◌, Bool, true, none, some, arith, xor,
}
use credence_contracts.Prelude.Int.{ℤ, abs, is_negative, signed, i128_max, fits_i128}
use credence_contracts.Math.{RoundingMode, down, up, nearest, rounded, mul_div_i128}

-- `q` is `n / d`, rounded: down, up, or to the nearest number with halves up.
abbrev pub Rounds : RoundingMode → ℕ → ℕ → ℕ → Type 0
Rounds down n d q = (q * d ≤ n) × (n < q * d + d)
Rounds up n d q = (n ≤ q * d) × (q * d < n + d)
Rounds nearest n d q = (2 * (q * d) ≤ 2 * n + d) × (2 * n < 2 * (q * d) + d)

pub rounded-Rounds : (mode : RoundingMode) (n d : ℕ) → 0 < d → Rounds mode n d (rounded mode n d)
rounded-Rounds down n d h = omega (arith, div-add-mod' n d, mod-lt n h)
rounded-Rounds up n d h = grind (arith, div-add-mod' n d, mod-lt n h)
rounded-Rounds nearest n d h = grind (arith, div-add-mod' n d, mod-lt n h)

-- A larger quotient has a product larger by the divisor at least.
gap : (q p d : ℕ) → q < p → q * d + d ≤ p * d
gap q p d h = grind (arith, mul-le-mul_right {m = suc q} {n = p} d h)

-- No two numbers are the rounded quotient.
Rounds-unique :
    (mode : RoundingMode) (n d q p : ℕ) → 0 < d → Rounds mode n d q → Rounds mode n d p → q ≡ p
Rounds-unique down n d q p h a b = grind (arith, gap q p d, gap p q d)
Rounds-unique up n d q p h a b = grind (arith, gap q p d, gap p q d)
Rounds-unique nearest n d q p h a b = grind (arith, gap q p d, gap p q d)

in_range :
    (negative : Bool) (q : ℕ)
    → (if negative
        then (if ltb (i128_max + 1) q then none else some (signed true q))
        else (if ltb i128_max q then none else some (signed false q)))
      ≡ (if fits_i128 (signed negative q) then some (signed negative q) else none)
in_range true zero = refl
in_range true (suc q) = ground arith
in_range false q = ground arith

mul_div_lem :
    (a b d : ℤ) (mode : RoundingMode)
    → 0 < abs d
    → let r =
        signed
          (xor (xor (is_negative a) (is_negative b)) (is_negative d))
          (rounded mode (abs a * abs b) (abs d)) in
      mul_div_i128 a b d mode ≡ (if fits_i128 r then some r else none)
unfolding mul_div_i128
mul_div_lem a b d mode h = elim (Bool-cases (abs d == 0)) [
  | inl z ↦ absurd (ground arith)
  | inr nz ↦ rw nz (in_range (xor (xor (is_negative a) (is_negative b)) (is_negative d)) _)
]

-- With a divisor other than zero, `mul_div_i128` returns the product over the divisor, rounded as
-- the mode says and with the sign of the three arguments, if an i128 holds that, and panics if not:
-- the product itself may be of any size.
pub mul_div_correct :
    (a b d : ℤ) (mode : RoundingMode) (q : ℕ)
    → 0 < abs d
    → Rounds mode (abs a * abs b) (abs d) q
    → let r = signed (xor (xor (is_negative a) (is_negative b)) (is_negative d)) q in
      mul_div_i128 a b d mode ≡ (if fits_i128 r then some r else none)
mul_div_correct a b d mode q h r =
    rw
      (Rounds-unique mode (abs a * abs b) (abs d) q (rounded mode (abs a * abs b) (abs d)) h r
        (rounded-Rounds mode (abs a * abs b) (abs d) h))
      (mul_div_lem a b d mode h)
