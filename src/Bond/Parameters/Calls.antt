-- ===== src/Bond/Parameters/Calls.antt =====
-- Sequences of calls on the parameters (contracts/credence_bond/src/parameters.rs).
use credence_contracts.Prelude.{ℕ, Option, none, List, [], ◌∷◌}
use credence_contracts.Prelude.Int.{ℤ, pos}
use credence_contracts.Host.{Address, Env, Action, after}
use credence_contracts.Bond.Parameters.{
  ParameterKey, protocol_fee_bps, attestation_fee_bps, withdrawal_cooldown_secs,
  slash_cooldown_secs, bronze_threshold, silver_threshold, gold_threshold, platinum_threshold,
  max_leverage, Category, fee, cooldown, tier, risk, GovernanceApproval, Storage,
  set_protocol_fee_bps_with_approval, set_protocol_fee_bps, set_attestation_fee_bps_with_approval,
  set_attestation_fee_bps, set_withdrawal_cooldown_secs_with_approval, set_withdrawal_cooldown_secs,
  set_slash_cooldown_secs_with_approval, set_slash_cooldown_secs,
  set_bronze_threshold_with_approval, set_bronze_threshold, set_silver_threshold_with_approval,
  set_silver_threshold, set_gold_threshold_with_approval, set_gold_threshold,
  set_platinum_threshold_with_approval, set_platinum_threshold, set_max_leverage_with_approval,
  set_max_leverage,
}

-- One call of a setter: which one, and the value.
pub data Setting : Type 0 where
  a_protocol_fee_bps : ℕ → Setting
  a_attestation_fee_bps : ℕ → Setting
  a_withdrawal_cooldown_secs : ℕ → Setting
  a_slash_cooldown_secs : ℕ → Setting
  a_bronze_threshold : ℤ → Setting
  a_silver_threshold : ℤ → Setting
  a_gold_threshold : ℤ → Setting
  a_platinum_threshold : ℤ → Setting
  a_max_leverage : ℕ → Setting

abbrev pub key_of : Setting → ParameterKey
key_of (a_protocol_fee_bps v) = protocol_fee_bps
key_of (a_attestation_fee_bps v) = attestation_fee_bps
key_of (a_withdrawal_cooldown_secs v) = withdrawal_cooldown_secs
key_of (a_slash_cooldown_secs v) = slash_cooldown_secs
key_of (a_bronze_threshold v) = bronze_threshold
key_of (a_silver_threshold v) = silver_threshold
key_of (a_gold_threshold v) = gold_threshold
key_of (a_platinum_threshold v) = platinum_threshold
key_of (a_max_leverage v) = max_leverage

abbrev pub value_of : Setting → ℤ
value_of (a_protocol_fee_bps v) = pos v
value_of (a_attestation_fee_bps v) = pos v
value_of (a_withdrawal_cooldown_secs v) = pos v
value_of (a_slash_cooldown_secs v) = pos v
value_of (a_bronze_threshold v) = v
value_of (a_silver_threshold v) = v
value_of (a_gold_threshold v) = v
value_of (a_platinum_threshold v) = v
value_of (a_max_leverage v) = pos v

abbrev pub category_of : ParameterKey → Category
category_of protocol_fee_bps = fee
category_of attestation_fee_bps = fee
category_of withdrawal_cooldown_secs = cooldown
category_of slash_cooldown_secs = cooldown
category_of bronze_threshold = tier
category_of silver_threshold = tier
category_of gold_threshold = tier
category_of platinum_threshold = tier
category_of max_leverage = risk

-- The setter with an approval, and the one without.
unfoldable pub set : Env → Address → Setting → GovernanceApproval → Action Storage (Unit {0})
set e admin (a_protocol_fee_bps v) approval = set_protocol_fee_bps_with_approval e admin v approval
set e admin (a_attestation_fee_bps v) approval =
    set_attestation_fee_bps_with_approval e admin v approval
set e admin (a_withdrawal_cooldown_secs v) approval =
    set_withdrawal_cooldown_secs_with_approval e admin v approval
set e admin (a_slash_cooldown_secs v) approval =
    set_slash_cooldown_secs_with_approval e admin v approval
set e admin (a_bronze_threshold v) approval = set_bronze_threshold_with_approval e admin v approval
set e admin (a_silver_threshold v) approval = set_silver_threshold_with_approval e admin v approval
set e admin (a_gold_threshold v) approval = set_gold_threshold_with_approval e admin v approval
set e admin (a_platinum_threshold v) approval =
    set_platinum_threshold_with_approval e admin v approval
set e admin (a_max_leverage v) approval = set_max_leverage_with_approval e admin v approval

unfoldable pub set_directly : Env → Address → Setting → Action Storage (Unit {0})
set_directly e admin (a_protocol_fee_bps v) = set_protocol_fee_bps e admin v
set_directly e admin (a_attestation_fee_bps v) = set_attestation_fee_bps e admin v
set_directly e admin (a_withdrawal_cooldown_secs v) = set_withdrawal_cooldown_secs e admin v
set_directly e admin (a_slash_cooldown_secs v) = set_slash_cooldown_secs e admin v
set_directly e admin (a_bronze_threshold v) = set_bronze_threshold e admin v
set_directly e admin (a_silver_threshold v) = set_silver_threshold e admin v
set_directly e admin (a_gold_threshold v) = set_gold_threshold e admin v
set_directly e admin (a_platinum_threshold v) = set_platinum_threshold e admin v
set_directly e admin (a_max_leverage v) = set_max_leverage e admin v

-- One call, which gives the admin that it names, the setting, and perhaps an approval.
pub data Call : Type 0 where
  with_approval : Address → Setting → GovernanceApproval → Call
  directly : Address → Setting → Call

unfoldable pub apply : Env → Call → Storage → Storage
apply e (with_approval admin c approval) s = after s (set e admin c approval s)
apply e (directly admin c) s = after s (set_directly e admin c s)

unfoldable pub run : List (Env × Call) → Storage → Storage
run [] s = s
run ((e, c) ∷ cs) s = run cs (apply e c s)

-- A contract with an admin, where no parameter is set.
abbrev pub fresh : Option Address → Storage
fresh a = record { admin = a; parameter = λ k. none }
