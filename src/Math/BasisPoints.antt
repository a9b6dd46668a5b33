-- ===== src/Math/BasisPoints.antt =====
-- Basis points, fees and ceiling division (contracts/credence_math/src/lib.rs).
use native.Mathlib.Nat.{div-eq_of_lt-le, div-le_self, mul-le-mul_left}
use credence_contracts.Prelude.{
  ℕ, ◌+◌, ◌-◌, ◌*◌, ◌/◌, ◌≤◌, ◌<◌, ◌≡◌, inl, inr, none, some, Option-cases, arith, leb, ◌==◌,
  Bool-cases, if◌then◌else◌,
}
use credence_contracts.Prelude.Int.{ℤ, pos, i128_max, ◌+ℤ◌, ◌-ℤ◌, ◌*ℤ◌}
use credence_contracts.Errors.{ContractError}
use credence_contracts.Math.{
  down, up, bps_denominator, mul_div_i128, bps, split_bps, ok, err, ceil_div_checked_i128, less_one,
}
use credence_contracts.Math.Rounding.{Rounds}

share-le : (n k : ℕ) → k ≤ 10000 → n * k / 10000 ≤ n
share-le n k h = omega (arith, mul-le-mul_left n h)

-- For an amount that is not negative and a rate of at most 100%, `split_bps` returns the fee rounded
-- down and the rest, which add up to the amount and are not negative; it panics only if the product
-- passes the largest i128.
pub split_bps_exact :
    (n k : ℕ)
    → n ≤ i128_max
    → k ≤ bps_denominator
    → let fee = n * k / bps_denominator in
      (split_bps (pos n) k ≡ (if leb (n * k) i128_max then some (pos fee, pos (n - fee)) else none))
      × (fee + (n - fee) ≡ n)
unfolding split_bps ◌*ℤ◌ ◌-ℤ◌
split_bps_exact n k h l = (ground (arith, share-le n k l), omega (arith, share-le n k l))

-- Whatever the amount's sign, the two parts that `split_bps` returns add up to it.
pub split_bps_conserves :
    (amount fee net : ℤ) (k : ℕ) → split_bps amount k ≡ some (fee, net) → fee +ℤ net ≡ amount
unfolding split_bps ◌-ℤ◌ ◌+ℤ◌
split_bps_conserves amount fee net k h = elim (Option-cases (bps amount k)) [
  | inl over ↦ ground arith
  | inr (f, e) ↦ ground arith
]

-- Where the narrow `bps` returns, `mul_div_i128` rounding down returns the same.
pub bps_agrees :
    (amount fee : ℤ) (k : ℕ)
    → bps amount k ≡ some fee
    → mul_div_i128 amount (pos k) (pos bps_denominator) down ≡ some fee
unfolding bps ◌*ℤ◌ mul_div_i128
bps_agrees amount fee k h = ground arith

less_one_pos : (b : ℕ) → 0 < b → b ≤ i128_max → less_one (pos b) ≡ pos (b - 1)
unfolding ◌-ℤ◌
less_one_pos b p h = ground arith

ceiling : (a b q : ℕ) → 0 < b → Rounds up a b q → (a + (b - 1)) / b ≡ q
ceiling a b q p r =
    div-eq_of_lt-le {k = q} b {m = a + (b - 1)} (omega (arith, r.1)) (omega (arith, r.0))

-- For a dividend that is not negative and a positive divisor, `ceil_div_checked_i128` returns the
-- quotient rounded up, or reports an overflow if the sum before the division passes the largest
-- i128.
pub ceil_div_checked_correct :
    (a b q : ℕ)
    → a ≤ i128_max
    → b ≤ i128_max
    → 0 < b
    → Rounds up a b q
    → ceil_div_checked_i128 (pos a) (pos b)
      ≡ (if leb (a + (b - 1)) i128_max then ok (pos q) else err ContractError.overflow)
unfolding ceil_div_checked_i128 ◌+ℤ◌
ceil_div_checked_correct a b q ha hb p r = elim (Bool-cases (b == 0)) [
  | inl z ↦ absurd (ground arith)
  | inr nz ↦ rw (nz, less_one_pos b p hb) (ground (arith, ceiling a b q p r, div-le_self q 1))
]
