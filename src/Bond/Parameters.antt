-- ===== src/Bond/Parameters.antt =====
-- The parameters that governance sets (contracts/credence_bond/src/parameters.rs).
mod Tests
pub mod Calls
pub mod Setters
pub mod Bounds
use credence_contracts.Prelude.{
  ℕ, ◌+◌, Bool, true, false, Option, none, some, ltb, ◌==◌, not, ◌&&◌, if◌then◌else◌,
}
use credence_contracts.Prelude.Int.{ℤ, pos, leb_ℤ}
use credence_contracts.Host.{
  or_panic, panic_if, Address, Env, Action, done, panics, message, gets, modify, ◌>>=◌, ◌>>◌,
  unwrap_or, require_auth,
}

pub data ParameterKey : Type 0 where
  protocol_fee_bps attestation_fee_bps withdrawal_cooldown_secs slash_cooldown_secs bronze_threshold
        silver_threshold gold_threshold platinum_threshold max_leverage :
      ParameterKey

abbrev pub key_code : ParameterKey → ℕ
key_code protocol_fee_bps = 0
key_code attestation_fee_bps = 1
key_code withdrawal_cooldown_secs = 2
key_code slash_cooldown_secs = 3
key_code bronze_threshold = 4
key_code silver_threshold = 5
key_code gold_threshold = 6
key_code platinum_threshold = 7
key_code max_leverage = 8

-- The symbols that name a category; any other symbol names none.
pub data Category : Type 0 where
  fee cooldown tier risk : Category
  other : ℕ → Category

abbrev pub category_code : Category → ℕ
category_code fee = 0
category_code cooldown = 1
category_code tier = 2
category_code risk = 3
category_code (other n) = 4 + n

pub record GovernanceApproval : Type 0 where
  pub approver : Address
  pub expires_at : ℕ
  pub category : Category

-- A u32 or u64 is stored as an integer that is not negative.
pub record Storage : Type 0 where
  pub admin : Option Address
  pub parameter : ParameterKey → Option ℤ

abbrev pub put_key : ParameterKey → Option ℤ → (ParameterKey → Option ℤ) → ParameterKey → Option ℤ
put_key k v m j = if key_code j == key_code k then v else m j

abbrev pub min_protocol_fee_bps : ℤ
min_protocol_fee_bps = pos 0

abbrev pub max_protocol_fee_bps : ℤ
max_protocol_fee_bps = pos 1000

abbrev pub default_protocol_fee_bps : ℤ
default_protocol_fee_bps = pos 50

abbrev pub min_attestation_fee_bps : ℤ
min_attestation_fee_bps = pos 0

abbrev pub max_attestation_fee_bps : ℤ
max_attestation_fee_bps = pos 500

abbrev pub default_attestation_fee_bps : ℤ
default_attestation_fee_bps = pos 10

abbrev pub min_withdrawal_cooldown_secs : ℤ
min_withdrawal_cooldown_secs = pos 0

abbrev pub max_withdrawal_cooldown_secs : ℤ
max_withdrawal_cooldown_secs = pos 2592000

abbrev pub default_withdrawal_cooldown_secs : ℤ
default_withdrawal_cooldown_secs = pos 604800

abbrev pub min_slash_cooldown_secs : ℤ
min_slash_cooldown_secs = pos 0

abbrev pub max_slash_cooldown_secs : ℤ
max_slash_cooldown_secs = pos 604800

abbrev pub default_slash_cooldown_secs : ℤ
default_slash_cooldown_secs = pos 86400

abbrev pub min_bronze_threshold : ℤ
min_bronze_threshold = pos 0

abbrev pub max_bronze_threshold : ℤ
max_bronze_threshold = pos 1000000000000

abbrev pub default_bronze_threshold : ℤ
default_bronze_threshold = pos 100000000

abbrev pub min_silver_threshold : ℤ
min_silver_threshold = pos 100000000

abbrev pub max_silver_threshold : ℤ
max_silver_threshold = pos 10000000000000

abbrev pub default_silver_threshold : ℤ
default_silver_threshold = pos 1000000000

abbrev pub min_gold_threshold : ℤ
min_gold_threshold = pos 1000000000

abbrev pub max_gold_threshold : ℤ
max_gold_threshold = pos 100000000000000

abbrev pub default_gold_threshold : ℤ
default_gold_threshold = pos 10000000000

abbrev pub min_platinum_threshold : ℤ
min_platinum_threshold = pos 10000000000

abbrev pub max_platinum_threshold : ℤ
max_platinum_threshold = pos 1000000000000000

abbrev pub default_platinum_threshold : ℤ
default_platinum_threshold = pos 100000000000

abbrev pub min_max_leverage : ℤ
min_max_leverage = pos 1

abbrev pub max_max_leverage : ℤ
max_max_leverage = pos 100000000

abbrev pub default_max_leverage : ℤ
default_max_leverage = pos 100000

abbrev pub get_protocol_fee_bps : Storage → ℤ
get_protocol_fee_bps s = unwrap_or (s.parameter protocol_fee_bps) default_protocol_fee_bps

abbrev pub get_attestation_fee_bps : Storage → ℤ
get_attestation_fee_bps s = unwrap_or (s.parameter attestation_fee_bps) default_attestation_fee_bps

abbrev pub get_withdrawal_cooldown_secs : Storage → ℤ
get_withdrawal_cooldown_secs s =
    unwrap_or (s.parameter withdrawal_cooldown_secs) default_withdrawal_cooldown_secs

abbrev pub get_slash_cooldown_secs : Storage → ℤ
get_slash_cooldown_secs s = unwrap_or (s.parameter slash_cooldown_secs) default_slash_cooldown_secs

abbrev pub get_bronze_threshold : Storage → ℤ
get_bronze_threshold s = unwrap_or (s.parameter bronze_threshold) default_bronze_threshold

abbrev pub get_silver_threshold : Storage → ℤ
get_silver_threshold s = unwrap_or (s.parameter silver_threshold) default_silver_threshold

abbrev pub get_gold_threshold : Storage → ℤ
get_gold_threshold s = unwrap_or (s.parameter gold_threshold) default_gold_threshold

abbrev pub get_platinum_threshold : Storage → ℤ
get_platinum_threshold s = unwrap_or (s.parameter platinum_threshold) default_platinum_threshold

abbrev pub get_max_leverage : Storage → ℤ
get_max_leverage s = unwrap_or (s.parameter max_leverage) default_max_leverage

abbrev pub validate_admin : Env → Address → Action Storage (Unit {0})
validate_admin e caller = do
  require_auth e caller
  stored_admin ← gets (λ s. s.admin) >>= or_panic
  panic_if (not (caller == stored_admin))

-- A time of zero never passes.
abbrev pub validate_governance_approval :
    Env → Address → GovernanceApproval → Category → Action Storage (Unit {0})
validate_governance_approval e admin approval expected_category = do
  panic_if (not (approval.approver == admin))
  panic_if (ltb 0 approval.expires_at && ltb approval.expires_at e.timestamp)
  panic_if (not (category_code approval.category == category_code expected_category))

-- What the nine setters have in common.
unfoldable pub set_between :
    ParameterKey
    → Category
    → ℤ
    → ℤ
    → Env
    → Address
    → ℤ
    → GovernanceApproval
    → Action Storage (Unit {0})
set_between key category low high e admin value approval = do
  validate_admin e admin
  validate_governance_approval e admin approval category
  panic_if (not (leb_ℤ low value && leb_ℤ value high))
  modify (λ s. record s { parameter = put_key key (some value) s.parameter })

-- The approval that the setters without one make up.
abbrev pub own_approval : Address → Category → GovernanceApproval
own_approval admin category = record { approver = admin; expires_at = 0; category = category }

abbrev pub set_protocol_fee_bps_with_approval :
    Env → Address → ℕ → GovernanceApproval → Action Storage (Unit {0})
set_protocol_fee_bps_with_approval e admin value approval =
    set_between protocol_fee_bps fee min_protocol_fee_bps max_protocol_fee_bps e admin (pos value)
      approval

abbrev pub set_protocol_fee_bps : Env → Address → ℕ → Action Storage (Unit {0})
set_protocol_fee_bps e admin value =
    set_protocol_fee_bps_with_approval e admin value (own_approval admin fee)

abbrev pub set_attestation_fee_bps_with_approval :
    Env → Address → ℕ → GovernanceApproval → Action Storage (Unit {0})
set_attestation_fee_bps_with_approval e admin value approval =
    set_between attestation_fee_bps fee min_attestation_fee_bps max_attestation_fee_bps e admin
      (pos value) approval

abbrev pub set_attestation_fee_bps : Env → Address → ℕ → Action Storage (Unit {0})
set_attestation_fee_bps e admin value =
    set_attestation_fee_bps_with_approval e admin value (own_approval admin fee)

abbrev pub set_withdrawal_cooldown_secs_with_approval :
    Env → Address → ℕ → GovernanceApproval → Action Storage (Unit {0})
set_withdrawal_cooldown_secs_with_approval e admin value approval =
    set_between withdrawal_cooldown_secs cooldown min_withdrawal_cooldown_secs
      max_withdrawal_cooldown_secs e admin (pos value) approval

abbrev pub set_withdrawal_cooldown_secs : Env → Address → ℕ → Action Storage (Unit {0})
set_withdrawal_cooldown_secs e admin value =
    set_withdrawal_cooldown_secs_with_approval e admin value (own_approval admin cooldown)

abbrev pub set_slash_cooldown_secs_with_approval :
    Env → Address → ℕ → GovernanceApproval → Action Storage (Unit {0})
set_slash_cooldown_secs_with_approval e admin value approval =
    set_between slash_cooldown_secs cooldown min_slash_cooldown_secs max_slash_cooldown_secs e admin
      (pos value) approval

abbrev pub set_slash_cooldown_secs : Env → Address → ℕ → Action Storage (Unit {0})
set_slash_cooldown_secs e admin value =
    set_slash_cooldown_secs_with_approval e admin value (own_approval admin cooldown)

abbrev pub set_bronze_threshold_with_approval :
    Env → Address → ℤ → GovernanceApproval → Action Storage (Unit {0})
set_bronze_threshold_with_approval e admin value approval =
    set_between bronze_threshold tier min_bronze_threshold max_bronze_threshold e admin value
      approval

abbrev pub set_bronze_threshold : Env → Address → ℤ → Action Storage (Unit {0})
set_bronze_threshold e admin value =
    set_bronze_threshold_with_approval e admin value (own_approval admin tier)

abbrev pub set_silver_threshold_with_approval :
    Env → Address → ℤ → GovernanceApproval → Action Storage (Unit {0})
set_silver_threshold_with_approval e admin value approval =
    set_between silver_threshold tier min_silver_threshold max_silver_threshold e admin value
      approval

abbrev pub set_silver_threshold : Env → Address → ℤ → Action Storage (Unit {0})
set_silver_threshold e admin value =
    set_silver_threshold_with_approval e admin value (own_approval admin tier)

abbrev pub set_gold_threshold_with_approval :
    Env → Address → ℤ → GovernanceApproval → Action Storage (Unit {0})
set_gold_threshold_with_approval e admin value approval =
    set_between gold_threshold tier min_gold_threshold max_gold_threshold e admin value approval

abbrev pub set_gold_threshold : Env → Address → ℤ → Action Storage (Unit {0})
set_gold_threshold e admin value =
    set_gold_threshold_with_approval e admin value (own_approval admin tier)

abbrev pub set_platinum_threshold_with_approval :
    Env → Address → ℤ → GovernanceApproval → Action Storage (Unit {0})
set_platinum_threshold_with_approval e admin value approval =
    set_between platinum_threshold tier min_platinum_threshold max_platinum_threshold e admin value
      approval

abbrev pub set_platinum_threshold : Env → Address → ℤ → Action Storage (Unit {0})
set_platinum_threshold e admin value =
    set_platinum_threshold_with_approval e admin value (own_approval admin tier)

abbrev pub set_max_leverage_with_approval :
    Env → Address → ℕ → GovernanceApproval → Action Storage (Unit {0})
set_max_leverage_with_approval e admin value approval =
    set_between max_leverage risk min_max_leverage max_max_leverage e admin (pos value) approval

abbrev pub set_max_leverage : Env → Address → ℕ → Action Storage (Unit {0})
set_max_leverage e admin value =
    set_max_leverage_with_approval e admin value (own_approval admin risk)
