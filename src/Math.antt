-- ===== src/Math.antt =====
-- The checked arithmetic of the contracts (contracts/credence_math/src/lib.rs). A function that
-- panics with its message has the result `none`; the message itself is left out.
pub mod Rounding
pub mod BasisPoints
mod Tests
use credence_contracts.Prelude.{
  ℕ, ◌+◌, ◌*◌, ◌/◌, ◌%◌, ◌^◌, ◌-◌, Bool, true, false, Option, none, some, ltb, leb, ◌==◌, xor,
  if◌then◌else◌,
}
use credence_contracts.Prelude.Int.{
  ℤ, pos, negsuc, abs, is_negative, signed, i128_max, fits_i128, ◌+ℤ◌, ◌-ℤ◌, ◌*ℤ◌,
}
use credence_contracts.Errors.{ContractError}
use credence_contracts.Host.{u64_max}

abbrev pub bps_denominator : ℕ
bps_denominator = 10000

pub data RoundingMode : Type 0 where
  down up nearest : RoundingMode

infixl 5 ◌>>=◌
abbrev pub ◌>>=◌ : {A B : Type 0} → Option A → (A → Option B) → Option B
none >>= f = none
some a >>= f = f a

-- A result that the type holds, as in `checked_add`.
abbrev pub checked_i128 : ℤ → Option ℤ
checked_i128 a = if fits_i128 a then some a else none

unfoldable pub mul_u64 : ℕ → ℕ → Option ℕ
mul_u64 a b = if leb (a * b) u64_max then some (a * b) else none

unfoldable pub add_i128 : ℤ → ℤ → Option ℤ
add_i128 a b = checked_i128 (a +ℤ b)

unfoldable pub sub_i128 : ℤ → ℤ → Option ℤ
sub_i128 a b = checked_i128 (a -ℤ b)

unfoldable pub mul_i128 : ℤ → ℤ → Option ℤ
mul_i128 a b = checked_i128 (a *ℤ b)

-- Division of Rust truncates toward zero; `checked_div` refuses a zero divisor and MIN / -1.
unfoldable pub div_i128 : ℤ → ℤ → Option ℤ
div_i128 a b =
    if abs b == 0
    then none
    else checked_i128 (signed (xor (is_negative a) (is_negative b)) (abs a / abs b))

-- `b - 1` is not checked: at MIN it wraps to MAX, as the release profile has no overflow checks.
abbrev pub less_one : ℤ → ℤ
less_one b = if fits_i128 (b -ℤ pos 1) then b -ℤ pos 1 else pos i128_max

unfoldable pub ceil_div_i128 : ℤ → ℤ → Option ℤ
unfolding add_i128 div_i128
ceil_div_i128 a b = do sum ← add_i128 a (less_one b); div_i128 sum b

-- `Result<i128, ContractError>`
pub data Checked : Type 0 where
  ok : ℤ → Checked
  err : ContractError → Checked

abbrev pub ok_or : Option ℤ → ContractError → Checked
ok_or none e = err e
ok_or (some a) e = ok a

unfoldable pub div_checked_i128 : ℤ → ℤ → Checked
unfolding div_i128
div_checked_i128 a b =
    if abs b == 0
    then err ContractError.division_by_zero
    else ok_or (div_i128 a b) ContractError.overflow

unfoldable pub ceil_div_checked_i128 : ℤ → ℤ → Checked
unfolding add_i128 div_i128
ceil_div_checked_i128 a b =
    if abs b == 0
    then err ContractError.division_by_zero
    else ok_or (do sum ← add_i128 a (less_one b); div_i128 sum b) ContractError.overflow

-- The magnitude of `mul_div_i128`, over the 256-bit quotient and remainder.
abbrev pub rounded : RoundingMode → ℕ → ℕ → ℕ
rounded down numerator divisor = numerator / divisor
rounded up numerator divisor =
    if numerator % divisor == 0 then numerator / divisor else numerator / divisor + 1
rounded nearest numerator divisor =
    if leb divisor (numerator % divisor * 2) then numerator / divisor + 1 else numerator / divisor

-- No product or sum here passes 2^256: the magnitudes are at most 2^127.
unfoldable pub mul_div_i128 : ℤ → ℤ → ℤ → RoundingMode → Option ℤ
mul_div_i128 a b denom mode =
    if abs denom == 0
    then none
    else (let negative = xor (xor (is_negative a) (is_negative b)) (is_negative denom) in
        let magnitude = rounded mode (abs a * abs b) (abs denom) in
        if negative
        then (if ltb (i128_max + 1) magnitude then none else some (signed true magnitude))
        else (if ltb i128_max magnitude then none else some (signed false magnitude)))

unfoldable pub bps : ℤ → ℕ → Option ℤ
unfolding mul_i128 div_i128
bps amount rate = do
  numerator ← mul_i128 amount (pos rate)
  div_i128 numerator (pos bps_denominator)

unfoldable pub bps_round_up : ℤ → ℕ → Option ℤ
unfolding mul_div_i128
bps_round_up amount rate = mul_div_i128 amount (pos rate) (pos bps_denominator) up

unfoldable pub bps_u64 : ℕ → ℕ → Option ℕ
unfolding mul_u64
bps_u64 amount rate = do numerator ← mul_u64 amount rate; some (numerator / bps_denominator)

-- The pair of fee and rest.
unfoldable pub split_bps : ℤ → ℕ → Option (ℤ × ℤ)
unfolding bps sub_i128
split_bps amount rate = do fee ← bps amount rate; net ← sub_i128 amount fee; some (fee, net)
