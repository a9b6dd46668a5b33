-- ===== src/Errors/Category.antt =====
-- The categories of the errors (contracts/credence_errors/src/lib.rs).
use credence_contracts.Prelude.{
  ◌⊎◌, ℕ, ◌≡◌, Bool, true, false, Option, some, none, ltb, if◌then◌else◌, arith,
}
use credence_contracts.Errors.{ContractError, wire_code}

pub data ErrorCategory : Type 0 where
  initialization authorization bond attestation registry delegation treasury arithmetic :
      ErrorCategory

unfoldable pub category : ContractError → ErrorCategory
category ContractError.not_initialized = ErrorCategory.initialization
category ContractError.already_initialized = ErrorCategory.initialization
category ContractError.not_admin = ErrorCategory.authorization
category ContractError.not_bond_owner = ErrorCategory.authorization
category ContractError.unauthorized_attester = ErrorCategory.authorization
category ContractError.not_original_attester = ErrorCategory.authorization
category ContractError.not_signer = ErrorCategory.authorization
category ContractError.unauthorized_depositor = ErrorCategory.authorization
category ContractError.contract_paused = ErrorCategory.authorization
category ContractError.invalid_pause_action = ErrorCategory.authorization
category ContractError.insufficient_signatures = ErrorCategory.authorization
category ContractError.signature_expired_109 = ErrorCategory.bond
category ContractError.admin_suspended = ErrorCategory.authorization
category ContractError.bond_not_found = ErrorCategory.bond
category ContractError.bond_not_active = ErrorCategory.bond
category ContractError.insufficient_balance = ErrorCategory.bond
category ContractError.slash_exceeds_bond = ErrorCategory.bond
category ContractError.storage_cap_reached = ErrorCategory.bond
category ContractError.lockup_not_expired = ErrorCategory.bond
category ContractError.not_rolling_bond = ErrorCategory.bond
category ContractError.withdrawal_already_requested = ErrorCategory.bond
category ContractError.reentrancy_detected = ErrorCategory.bond
category ContractError.invalid_nonce = ErrorCategory.bond
category ContractError.signature_expired = ErrorCategory.bond
category ContractError.negative_stake = ErrorCategory.bond
category ContractError.early_exit_config_not_set = ErrorCategory.bond
category ContractError.invalid_penalty_bps = ErrorCategory.bond
category ContractError.leverage_exceeded = ErrorCategory.bond
category ContractError.unsupported_token = ErrorCategory.bond
category ContractError.unsupported_decimals = ErrorCategory.bond
category ContractError.invalid_bond_amount = ErrorCategory.bond
category ContractError.invalid_bond_duration = ErrorCategory.bond
category ContractError.invalid_notice_period = ErrorCategory.bond
category ContractError.bond_already_exists = ErrorCategory.bond
category ContractError.unauthorized_token = ErrorCategory.bond
category ContractError.invariant_violation = ErrorCategory.bond
category ContractError.treasury_not_configured = ErrorCategory.bond
category ContractError.cursor_out_of_range = ErrorCategory.bond
category ContractError.batch_too_large = ErrorCategory.bond
category ContractError.empty_batch = ErrorCategory.bond
category ContractError.duplicate_attestation = ErrorCategory.attestation
category ContractError.attestation_not_found = ErrorCategory.attestation
category ContractError.attestation_already_revoked = ErrorCategory.attestation
category ContractError.invalid_attestation_weight = ErrorCategory.attestation
category ContractError.attestation_weight_exceeds_max = ErrorCategory.attestation
category ContractError.identity_already_registered = ErrorCategory.registry
category ContractError.bond_contract_already_registered = ErrorCategory.registry
category ContractError.identity_not_registered = ErrorCategory.registry
category ContractError.bond_contract_not_registered = ErrorCategory.registry
category ContractError.already_deactivated = ErrorCategory.registry
category ContractError.already_active = ErrorCategory.registry
category ContractError.invalid_contract_address = ErrorCategory.registry
category ContractError.contract_code_verification_failed = ErrorCategory.registry
category ContractError.unsupported_interface = ErrorCategory.registry
category ContractError.expiry_in_past = ErrorCategory.delegation
category ContractError.delegation_not_found = ErrorCategory.delegation
category ContractError.already_revoked = ErrorCategory.delegation
category ContractError.delegation_expiry_too_long = ErrorCategory.delegation
category ContractError.unknown_scheme = ErrorCategory.delegation
category ContractError.verifier_already_registered = ErrorCategory.delegation
category ContractError.verifier_not_registered = ErrorCategory.delegation
category ContractError.verification_failed = ErrorCategory.delegation
category ContractError.revocation_grace_expired = ErrorCategory.delegation
category ContractError.delegation_not_expired = ErrorCategory.delegation
category ContractError.domain_mismatch = ErrorCategory.delegation
category ContractError.owner_mismatch = ErrorCategory.delegation
category ContractError.target_mismatch = ErrorCategory.delegation
category ContractError.contract_id_mismatch = ErrorCategory.delegation
category ContractError.no_pending_admin = ErrorCategory.authorization
category ContractError.invalid_admin_address = ErrorCategory.authorization
category ContractError.admin_unchanged = ErrorCategory.authorization
category ContractError.timelock_not_ready = ErrorCategory.authorization
category ContractError.emergency_drain_not_permitted = ErrorCategory.authorization
category ContractError.amount_must_be_positive = ErrorCategory.treasury
category ContractError.threshold_exceeds_signers = ErrorCategory.treasury
category ContractError.insufficient_treasury_balance = ErrorCategory.treasury
category ContractError.proposal_not_found = ErrorCategory.treasury
category ContractError.proposal_already_executed = ErrorCategory.treasury
category ContractError.insufficient_approvals = ErrorCategory.treasury
category ContractError.invalid_flash_loan_callback = ErrorCategory.treasury
category ContractError.flash_loan_repayment_failed = ErrorCategory.treasury
category ContractError.proposal_expired = ErrorCategory.treasury
category ContractError.slippage_exceeded = ErrorCategory.treasury
category ContractError.overflow = ErrorCategory.arithmetic
category ContractError.underflow = ErrorCategory.arithmetic
category ContractError.division_by_zero = ErrorCategory.arithmetic

-- The documented layout of the codes: a hundred to a category.
abbrev pub category_of_code : ℕ → Option ErrorCategory
category_of_code n =
    if ltb n 1
    then none
    else (if ltb n 100
        then some ErrorCategory.initialization
        else (if ltb n 200
            then some ErrorCategory.authorization
            else (if ltb n 300
                then some ErrorCategory.bond
                else (if ltb n 400
                    then some ErrorCategory.attestation
                    else (if ltb n 500
                        then some ErrorCategory.registry
                        else (if ltb n 600
                            then some ErrorCategory.delegation
                            else (if ltb n 700
                                then some ErrorCategory.treasury
                                else (if ltb n 800
                                    then some ErrorCategory.arithmetic
                                    else none))))))))

-- The four errors for a signed payload that does not fit, which bonds and delegations share.
abbrev pub is_payload_mismatch : ContractError → Bool
is_payload_mismatch ContractError.domain_mismatch = true
is_payload_mismatch ContractError.owner_mismatch = true
is_payload_mismatch ContractError.target_mismatch = true
is_payload_mismatch ContractError.contract_id_mismatch = true
is_payload_mismatch x = false

-- How the code of an error may stand to its category.
abbrev pub Placed : ContractError → Type 0
Placed x =
    ((is_payload_mismatch x ≡ false) × (category_of_code (wire_code x) ≡ some (category x)))
    ⊎ ((is_payload_mismatch x ≡ true)
        × (category_of_code (wire_code x) ≡ some ErrorCategory.bond)
        × (category x ≡ ErrorCategory.delegation))
    ⊎ ((x ≡ ContractError.signature_expired_109)
        × (category_of_code (wire_code x) ≡ some ErrorCategory.authorization)
        × (category x ≡ ErrorCategory.bond))

-- Every error has a code in the documented range of its category, but for five: the four payload
-- mismatches have the category of delegations and codes in the range of bonds, and the first
-- declaration of SignatureExpired has the category of bonds and the code 109, in the range of
-- authorization.
pub category-wire_code : (x : ContractError) → Placed x
unfolding category wire_code
category-wire_code x = ground arith
