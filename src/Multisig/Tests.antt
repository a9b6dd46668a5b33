-- ===== src/Multisig/Tests.antt =====
-- The multi-signature contract on concrete storages
-- (contracts/credence_multisig/src/multisig.rs).
use credence_contracts.Prelude.{
  ◌↔◌, ℕ, ◌≤◌, ◌<◌, ◌≡◌, refl, true, false, some, none, List, [], ◌∷◌, arith, ◌&&◌,
}
use credence_contracts.Prelude.Counting.{Counts}
use credence_contracts.Host.{Env, succeeds, put, put_pair, Address}
use credence_contracts.Pausable.{PauseStorage}
use credence_contracts.Multisig.State.{
  ActionType, ProposalStatus, Proposal, Storage, is_signer, has_signed,
}
use credence_contracts.Multisig.Admin.{initial, remove_signer}
use credence_contracts.Multisig.Proposals.{
  Request, proposal_of, execute_proposal, submit_proposal, sign_proposal, count_active_signatures,
}
use credence_contracts.Multisig.Calls.{Call, apply, run}
use credence_contracts.Multisig.Signers.{SignersAgree, apply-SignersAgree}
use credence_contracts.Multisig.Execution.{
  MayExecute, execute_proposal_exact, execute_needs_signers,
}
use credence_contracts.Multisig.History.{operation_executes_once}

abbrev at : ℕ → Env
at now = record { timestamp = now; sequence = 0; current_contract = 0; authorized = λ _. true }

abbrev empty_pause : PauseStorage
empty_pause = record {
  admin = none;
  paused = none;
  pause_signer = λ _. none;
  pause_signer_count = none;
  pause_threshold = none;
  pause_proposal_counter = none;
  pause_proposal = λ _. none;
  pause_approval = λ _ _. none;
  pause_approval_count = λ _. none;
}

abbrev empty : Storage
empty = record {
  pause = empty_pause;
  signer = λ _. none;
  signer_count = none;
  threshold = none;
  proposal_counter = none;
  proposal = λ _. none;
  signature = λ _ _. none;
  signature_count = λ _. none;
  signer_list = none;
  executed_op = λ _. none;
}

abbrev three : List Address
three = 2 ∷ 3 ∷ 4 ∷ []

abbrev started : Storage
started = initial 1 three 2 empty

abbrev request : Request
request = record {
  action_type = ActionType.transfer;
  target = some 9;
  function_name = none;
  arguments = none;
  description = 65 ∷ [];
  expires_at = 100;
  metadata = none;
  op_hash = 7;
}

abbrev proposal : Proposal
proposal = proposal_of (at 5) 2 request 0

-- Proposed by 2, signed by 2 and 3.
abbrev signed : Storage
signed = record started {
  proposal_counter = some 1;
  proposal = put 0 (some proposal) (λ _. none);
  signature = put_pair 0 3 (some true) (put_pair 0 2 (some true) (λ _ _. none));
  signature_count = put 0 (some 2) (put 0 (some 1) (put 0 (some 0) (λ _. none)));
}

run-signed :
    run ((at 5, Call.submit 2 request) ∷ (at 6, Call.sign 2 0) ∷ (at 7, Call.sign 3 0) ∷ []) started
    ≡ signed
unfolding run apply submit_proposal sign_proposal
run-signed = refl

started-agree : SignersAgree started
started-agree = record {
  distinct = (refl, (refl, (refl, tt)));
  listed = λ a. ground arith;
  counted = refl;
  reachable = omega arith;
  positive = omega arith;
  bounded = omega arith;
}

signed-agree : SignersAgree signed
signed-agree = record {
  distinct = (refl, (refl, (refl, tt)));
  listed = λ a. ground arith;
  counted = refl;
  reachable = omega arith;
  positive = omega arith;
  bounded = omega arith;
}

apply-SignersAgree_example : SignersAgree (apply (at 8) (Call.drop 1 4) signed)
apply-SignersAgree_example = apply-SignersAgree (at 8) (Call.drop 1 4) signed tt signed-agree

execute_proposal_exact_example :
    (succeeds (execute_proposal (at 10) 0 signed) ≡ true)
    ↔ ((p : Proposal) × MayExecute (at 10) 0 p signed)
execute_proposal_exact_example = execute_proposal_exact (at 10) 0 signed signed-agree

execute_needs_signers_example :
    (n : ℕ) × Counts (λ a. is_signer signed a && has_signed signed 0 a) n × (2 ≤ n) × (0 < n)
unfolding execute_proposal count_active_signatures
execute_needs_signers_example =
    execute_needs_signers (at 10) 0 proposal signed signed-agree refl refl

-- After signer 3 is removed its signature does not count.
removed_signer_fails :
    succeeds (execute_proposal (at 10) 0 (apply (at 8) (Call.drop 1 3) signed)) ≡ false
unfolding apply execute_proposal count_active_signatures remove_signer
removed_signer_fails = refl

abbrev executed : Storage
executed = record signed {
  proposal = put 0 (some (record proposal { status = ProposalStatus.executed })) signed.proposal;
  executed_op = put 7 (some true) (λ _. none);
}

abbrev again : List (Env × Call)
again = (at 12, Call.submit 2 request) ∷ []

operation_executes_once_example : succeeds (execute_proposal (at 13) 1 (run again executed)) ≡ false
unfolding run apply submit_proposal execute_proposal count_active_signatures
operation_executes_once_example =
    operation_executes_once again (at 10) (at 13) 0 1 proposal (proposal_of (at 12) 2 request 1)
      signed executed refl refl refl refl

abbrev doubled : Storage
doubled = initial 1 (2 ∷ 2 ∷ []) 2 signed
