-- ===== src/Errors.antt =====
-- The error codes that the contracts panic with (contracts/credence_errors/src/lib.rs).
pub mod Category
mod Tests
use credence_contracts.Prelude.{ℕ}

-- `ContractError`, in the order of the source. The source declares `SignatureExpired` twice, with
-- the codes 109 and 222: the first is `signature_expired_109` here, and `signature_expired`, which
-- the contracts panic with, is the second, whose comment and code are those that the rest of the
-- source gives.
pub data ContractError : Type 0 where
  not_initialized already_initialized not_admin not_bond_owner unauthorized_attester
        not_original_attester not_signer unauthorized_depositor contract_paused invalid_pause_action
        insufficient_signatures signature_expired_109 admin_suspended bond_not_found bond_not_active
        insufficient_balance slash_exceeds_bond storage_cap_reached lockup_not_expired
        not_rolling_bond withdrawal_already_requested reentrancy_detected invalid_nonce
        signature_expired negative_stake early_exit_config_not_set invalid_penalty_bps
        leverage_exceeded unsupported_token unsupported_decimals invalid_bond_amount
        invalid_bond_duration invalid_notice_period bond_already_exists unauthorized_token
        invariant_violation treasury_not_configured cursor_out_of_range batch_too_large empty_batch
        duplicate_attestation attestation_not_found attestation_already_revoked
        invalid_attestation_weight attestation_weight_exceeds_max identity_already_registered
        bond_contract_already_registered identity_not_registered bond_contract_not_registered
        already_deactivated already_active invalid_contract_address
        contract_code_verification_failed unsupported_interface expiry_in_past delegation_not_found
        already_revoked delegation_expiry_too_long unknown_scheme verifier_already_registered
        verifier_not_registered verification_failed revocation_grace_expired delegation_not_expired
        domain_mismatch owner_mismatch target_mismatch contract_id_mismatch no_pending_admin
        invalid_admin_address admin_unchanged timelock_not_ready emergency_drain_not_permitted
        amount_must_be_positive threshold_exceeds_signers insufficient_treasury_balance
        proposal_not_found proposal_already_executed insufficient_approvals
        invalid_flash_loan_callback flash_loan_repayment_failed proposal_expired slippage_exceeded
        overflow underflow division_by_zero :
      ContractError

-- The number that goes over the wire (`#[repr(u32)]`).
unfoldable pub wire_code : ContractError → ℕ
wire_code not_initialized = 1
wire_code already_initialized = 2
wire_code not_admin = 100
wire_code not_bond_owner = 101
wire_code unauthorized_attester = 102
wire_code not_original_attester = 103
wire_code not_signer = 104
wire_code unauthorized_depositor = 105
wire_code contract_paused = 106
wire_code invalid_pause_action = 107
wire_code insufficient_signatures = 108
wire_code signature_expired_109 = 109
wire_code admin_suspended = 113
wire_code bond_not_found = 200
wire_code bond_not_active = 201
wire_code insufficient_balance = 202
wire_code slash_exceeds_bond = 203
wire_code storage_cap_reached = 224
wire_code lockup_not_expired = 204
wire_code not_rolling_bond = 205
wire_code withdrawal_already_requested = 206
wire_code reentrancy_detected = 207
wire_code invalid_nonce = 208
wire_code signature_expired = 222
wire_code negative_stake = 209
wire_code early_exit_config_not_set = 210
wire_code invalid_penalty_bps = 211
wire_code leverage_exceeded = 212
wire_code unsupported_token = 213
wire_code unsupported_decimals = 229
wire_code invalid_bond_amount = 214
wire_code invalid_bond_duration = 215
wire_code invalid_notice_period = 216
wire_code bond_already_exists = 217
wire_code unauthorized_token = 218
wire_code invariant_violation = 218
wire_code treasury_not_configured = 223
wire_code cursor_out_of_range = 226
wire_code batch_too_large = 227
wire_code empty_batch = 228
wire_code duplicate_attestation = 300
wire_code attestation_not_found = 301
wire_code attestation_already_revoked = 302
wire_code invalid_attestation_weight = 303
wire_code attestation_weight_exceeds_max = 304
wire_code identity_already_registered = 400
wire_code bond_contract_already_registered = 401
wire_code identity_not_registered = 402
wire_code bond_contract_not_registered = 403
wire_code already_deactivated = 404
wire_code already_active = 405
wire_code invalid_contract_address = 406
wire_code contract_code_verification_failed = 407
wire_code unsupported_interface = 408
wire_code expiry_in_past = 500
wire_code delegation_not_found = 501
wire_code already_revoked = 502
wire_code delegation_expiry_too_long = 503
wire_code unknown_scheme = 504
wire_code verifier_already_registered = 505
wire_code verifier_not_registered = 506
wire_code verification_failed = 507
wire_code revocation_grace_expired = 508
wire_code delegation_not_expired = 509
wire_code domain_mismatch = 225
wire_code owner_mismatch = 219
wire_code target_mismatch = 220
wire_code contract_id_mismatch = 221
wire_code no_pending_admin = 109
wire_code invalid_admin_address = 110
wire_code admin_unchanged = 111
wire_code timelock_not_ready = 112
wire_code emergency_drain_not_permitted = 113
wire_code amount_must_be_positive = 600
wire_code threshold_exceeds_signers = 601
wire_code insufficient_treasury_balance = 602
wire_code proposal_not_found = 603
wire_code proposal_already_executed = 604
wire_code insufficient_approvals = 605
wire_code invalid_flash_loan_callback = 606
wire_code flash_loan_repayment_failed = 607
wire_code proposal_expired = 608
wire_code slippage_exceeded = 609
wire_code overflow = 700
wire_code underflow = 701
wire_code division_by_zero = 702
