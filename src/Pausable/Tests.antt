-- ===== src/Pausable/Tests.antt =====
-- The pause module on concrete storages (contracts/credence_multisig/src/pausable.rs).
use credence_contracts.Prelude.{◌≡◌, refl, true, false, some, none, [], ◌∷◌, arith}
use credence_contracts.Host.{Env, put, put_pair, remove}
use credence_contracts.Pausable.{PauseStorage, threshold, set_pause_signer}
use credence_contracts.Pausable.Calls.{Call, apply}
use credence_contracts.Pausable.Signers.{PauseSignersAgree}
use credence_contracts.Pausable.Authority.{Authority}

abbrev env : Env
env = record { timestamp = 0; sequence = 0; current_contract = 0; authorized = λ _. true }

-- Two signers, 2 and 3, and a threshold of two; 2 proposed to pause and 3 approved.
abbrev approved_storage : PauseStorage
approved_storage = record {
  admin = some 1;
  paused = some false;
  pause_signer = put 3 (some true) (put 2 (some true) (λ _. none));
  pause_signer_count = some 2;
  pause_threshold = some 2;
  pause_proposal_counter = some 1;
  pause_proposal = put 0 (some 1) (λ _. none);
  pause_approval = put_pair 0 3 (some true) (put_pair 0 2 (some true) (λ _ _. none));
  pause_approval_count = put 0 (some 2) (λ _. none);
}

abbrev executed_storage : PauseStorage
executed_storage = record approved_storage {
  paused = some true;
  pause_proposal = remove 0 approved_storage.pause_proposal;
}

approved_signers : PauseSignersAgree approved_storage
approved_signers = record {
  counted = (3 ∷ 2 ∷ [], (refl, (refl, tt)), λ a. ground arith, refl);
  reachable = omega arith;
}

-- Without signer 3 the threshold falls to the one signer left.
threshold_falls : threshold (apply env (Call.set_signer 1 3 false) approved_storage) ≡ 1
unfolding apply set_pause_signer
threshold_falls = refl
