-- ===== src/Treasury/Settlement.antt =====
-- Settling a withdrawal keeps the accounts balanced
-- (contracts/credence_treasury/src/treasury.rs).
use credence_contracts.Prelude.{
  ℕ, ◌+◌, ◌-◌, ◌*◌, ◌/◌, ◌≤◌, ◌<◌, ◌≡◌, refl, true, false, some, arith,
}
use credence_contracts.Prelude.Int.{pos, abs, i128_max, is_negative, pos_abs, ◌-ℤ◌}
use credence_contracts.Host.{put, done}
use credence_contracts.Treasury.State.{
  Storage, protocol_fee, slashed_funds, put_source, WithdrawalProposal, get_balance,
  get_balance_by_source,
}
use credence_contracts.Treasury.Shares.{share_bounds, proportional_deduction_exact}
use credence_contracts.Treasury.Funds.{settle}

-- The total is the sum of the two sources, and none of the three is negative.
pub record IsBalanced (s : Storage) : Type 0 where
  pub total_nonneg : is_negative (get_balance s) ≡ false
  pub protocol_nonneg : is_negative (get_balance_by_source s protocol_fee) ≡ false
  pub slashed_nonneg : is_negative (get_balance_by_source s slashed_funds) ≡ false
  pub sum :
      abs (get_balance s)
      ≡ abs (get_balance_by_source s protocol_fee) + abs (get_balance_by_source s slashed_funds)
  pub bounded : abs (get_balance s) ≤ i128_max

-- The balances after a settlement, from those before.
abbrev pub settled : ℕ → WithdrawalProposal → ℕ → Storage → Storage
settled id p a s =
    let t = abs (get_balance s) in
    let protocol = abs (get_balance_by_source s protocol_fee) in
    let slashed = abs (get_balance_by_source s slashed_funds) in
    let share = protocol * a / t in
    record s {
      total_balance = some (pos (t - a));
      balance_by_source =
          put_source slashed_funds (some (pos (slashed - (a - share))))
            (put_source protocol_fee (some (pos (protocol - share))) s.balance_by_source);
      proposal = put id (some (record p { executed = true })) s.proposal;
    }

settle_numbers :
    (id : ℕ) (p : WithdrawalProposal) (a t x y : ℕ) (s : Storage)
    → get_balance s ≡ pos t
    → get_balance_by_source s protocol_fee ≡ pos x
    → get_balance_by_source s slashed_funds ≡ pos y
    → t ≡ x + y
    → t ≤ i128_max
    → 0 < t
    → a ≤ t
    → settle id p (pos a) s ≡ done tt (settled id p a s)
unfolding settle ◌-ℤ◌
settle_numbers id p a t x y s et ex ey sum small some_there ha =
    let bounds = share_bounds x a t (omega arith) ha some_there in
    let share = proportional_deduction_exact x a t s (omega arith) ha small in
    ground (arith, bounds, share)

-- With balanced accounts that hold something, an amount from zero to the total is settled, and never
-- fails: it leaves the total, and the two sources share it.
pub settle_lem :
    (id : ℕ) (p : WithdrawalProposal) (a : ℕ) (s : Storage)
    → IsBalanced s
    → 0 < abs (get_balance s)
    → a ≤ abs (get_balance s)
    → settle id p (pos a) s ≡ done tt (settled id p a s)
settle_lem id p a s v some_there ha =
    settle_numbers id p a (abs (get_balance s)) (abs (get_balance_by_source s protocol_fee))
      (abs (get_balance_by_source s slashed_funds)) s (pos_abs _ v.total_nonneg)
      (pos_abs _ v.protocol_nonneg) (pos_abs _ v.slashed_nonneg) v.sum v.bounded some_there ha

pub settled-IsBalanced :
    (id : ℕ) (p : WithdrawalProposal) (a : ℕ) (s : Storage)
    → IsBalanced s
    → 0 < abs (get_balance s)
    → a ≤ abs (get_balance s)
    → IsBalanced (settled id p a s)
settled-IsBalanced id p a s v some_there ha =
    let bounds =
      share_bounds (abs (get_balance_by_source s protocol_fee)) a (abs (get_balance s))
        (omega (arith, v.sum)) ha some_there in
    record {
      total_nonneg = refl;
      protocol_nonneg = refl;
      slashed_nonneg = refl;
      sum = omega (arith, v.sum, bounds);
      bounded = omega (arith, v.bounded);
    }

-- What was booked is what the total has lost.
pub settled_difference :
    (id : ℕ) (p : WithdrawalProposal) (a : ℕ) (s : Storage)
    → IsBalanced s
    → a ≤ abs (get_balance s)
    → get_balance s -ℤ get_balance (settled id p a s) ≡ pos a
unfolding ◌-ℤ◌
settled_difference id p a s v ha = ground (arith, pos_abs (get_balance s) v.total_nonneg)

pub settle_result :
    (id : ℕ) (p : WithdrawalProposal) (a : ℕ) (s t : Storage)
    → IsBalanced s
    → 0 < abs (get_balance s)
    → a ≤ abs (get_balance s)
    → settle id p (pos a) s ≡ done tt t
    → t ≡ settled id p a s
settle_result id p a s t v some_there ha h = cc (settle_lem id p a s v some_there ha)
