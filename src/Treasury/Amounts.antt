-- ===== src/Treasury/Amounts.antt =====
-- The treasury's arithmetic (contracts/credence_treasury/src/treasury.rs): amounts that roll over,
-- and the share of a withdrawal that one source bears.
use credence_contracts.Prelude.{
  ℕ, ◌+◌, ◌-◌, ◌*◌, ◌/◌, ◌%◌, ◌^◌, leb, ltb, ◌==◌, ◌||◌, if◌then◌else◌,
}
use credence_contracts.Prelude.Int.{ℤ, pos, negsuc, pos_part, neg_part, abs, i128_max, is_negative}
use credence_contracts.Errors.{ContractError}
use credence_contracts.Host.{u64_max, Action, pure, ◌>>=◌, ◌>>◌, throw_if, checked_add, branch}
use credence_contracts.Treasury.State.{CumulativeAmount}

abbrev pub cumulative_segment : ℕ
cumulative_segment = i128_max + 1

-- `x as u128`
abbrev pub as_u128 : ℤ → ℕ
as_u128 (pos n) = n
as_u128 (negsuc n) = 2 ^ 128 - 1 - n

-- The sum stays far below 2^256.
unfoldable pub cumulative_to_u256 : CumulativeAmount → ℕ
cumulative_to_u256 amount = amount.rollovers * cumulative_segment + as_u128 amount.remainder

-- `u128::try_from(x)`
abbrev pub to_u128 : {S : Type 0} → ℤ → ContractError → Action S ℕ
to_u128 a err = throw_if (is_negative a) err >> pure (abs a)

unfoldable pub add_to_cumulative : {S : Type 0} → CumulativeAmount → ℤ → Action S CumulativeAmount
add_to_cumulative current amount = do
  current_remainder ← to_u128 current.remainder ContractError.underflow
  addend ← to_u128 amount ContractError.amount_must_be_positive
  let sum = current_remainder + addend
  let rollover_increment : ℕ = if leb cumulative_segment sum then 1 else 0
  let remainder = if rollover_increment == 0 then sum else sum - cumulative_segment
  rollovers ← checked_add u64_max current.rollovers rollover_increment ContractError.overflow
  throw_if (ltb i128_max remainder) ContractError.overflow
  pure (record { rollovers = rollovers; remainder = pos remainder })

-- `source * amount / total` over 256 bits, of which the last 128 are kept.
unfoldable pub proportional_deduction : {S : Type 0} → ℤ → ℤ → ℤ → Action S ℤ
proportional_deduction source_balance amount total =
    branch (abs source_balance == 0 || abs amount == 0) (pure (pos 0)) (
      branch (pos_part amount + neg_part total == pos_part total + neg_part amount)
        (pure source_balance)
        (do
          source ← to_u128 source_balance ContractError.amount_must_be_positive
          withdrawal ← to_u128 amount ContractError.amount_must_be_positive
          available ← to_u128 total ContractError.amount_must_be_positive
          let deduction = source * withdrawal / available % 2 ^ 128
          throw_if (ltb i128_max deduction) ContractError.overflow
          pure (pos deduction)))
