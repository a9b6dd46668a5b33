-- ===== src/Multisig/Proposals.antt =====
-- The life of a proposal (contracts/credence_multisig/src/multisig.rs).
use credence_contracts.Prelude.{
  ℕ, Bool, true, Option, some, List, [], ◌∷◌, ltb, leb, ◌==◌, ◌&&◌, not, length,
}
use credence_contracts.Errors.{ContractError}
use credence_contracts.Host.{
  Address, Hash, Env, u32_max, u64_max, put, put_pair, Action, pure, throw, gets, modify, ◌>>=◌,
  ◌>>◌, throw_if, or_throw, unwrap_or, require_auth, checked_add, branch,
}
use credence_contracts.Multisig.State.{
  Text, ActionType, ProposalStatus, is_pending, Proposal, Storage, require_not_paused,
  require_admin, require_signer, has_signed, get_signature_count, get_threshold, get_signers,
  is_operation_executed,
}

-- The arguments of `submit_proposal` but the proposer.
pub record Request : Type 0 where
  pub action_type : ActionType
  pub target : Option Address
  pub function_name : Option Text
  pub arguments : Option Text
  pub description : Text
  pub expires_at : ℕ
  pub metadata : Option Text
  pub op_hash : Hash

abbrev pub proposal_of : Env → Address → Request → ℕ → Proposal
proposal_of e proposer r id = record {
  id = id;
  action_type = r.action_type;
  target = r.target;
  function_name = r.function_name;
  arguments = r.arguments;
  description = r.description;
  proposed_at = e.timestamp;
  proposer = proposer;
  status = ProposalStatus.pending;
  expires_at = r.expires_at;
  metadata = r.metadata;
  op_hash = r.op_hash;
}

unfoldable pub submit_proposal : Env → Address → Request → Action Storage ℕ
submit_proposal e proposer r = do
  require_not_paused
  require_auth e proposer
  require_signer proposer
  throw_if (length r.description == 0) ContractError.invalid_pause_action
  id ← gets (λ s. unwrap_or s.proposal_counter 0)
  next_id ← checked_add u64_max id 1 ContractError.overflow
  modify (λ s. record s { proposal_counter = some next_id })
  modify (λ s. record s { proposal = put id (some (proposal_of e proposer r id)) s.proposal })
  modify (λ s. record s { signature_count = put id (some 0) s.signature_count })
  pure id

abbrev pub find_proposal : ℕ → Action Storage Proposal
find_proposal id = gets (λ s. s.proposal id) >>= λ p. or_throw p ContractError.proposal_not_found

-- `expires_at > 0 && now >= expires_at`
abbrev pub has_lapsed : Env → Proposal → Bool
has_lapsed e p = ltb 0 p.expires_at && leb p.expires_at e.timestamp

unfoldable pub sign_proposal : Env → Address → ℕ → Action Storage (Unit {0})
sign_proposal e signer proposal_id = do
  require_not_paused
  require_auth e signer
  require_signer signer
  p ← find_proposal proposal_id
  throw_if (not (is_pending p.status)) ContractError.proposal_already_executed
  throw_if (has_lapsed e p) ContractError.proposal_already_executed
  already_signed ← gets (λ s. has_signed s proposal_id signer)
  throw_if already_signed ContractError.already_active
  modify (λ s. record s { signature = put_pair proposal_id signer (some true) s.signature })
  count ← gets (λ s. get_signature_count s proposal_id)
  new_count ← checked_add u32_max count 1 ContractError.overflow
  modify (λ s. record s { signature_count = put proposal_id (some new_count) s.signature_count })

-- The loop of `count_active_signatures`.
unfoldable pub count_from : ℕ → List Address → ℕ → Action Storage ℕ
count_from id [] count = pure count
count_from id (x ∷ xs) count = do
  signed ← gets (λ s. has_signed s id x)
  next ← branch signed (checked_add u32_max count 1 ContractError.overflow) (pure count)
  count_from id xs next

unfoldable pub count_active_signatures : ℕ → Action Storage ℕ
unfolding count_from
count_active_signatures id = do signers ← gets get_signers; count_from id signers 0

abbrev pub store_proposal : ℕ → Proposal → Action Storage (Unit {0})
store_proposal id p = modify (λ s. record s { proposal = put id (some p) s.proposal })

abbrev pub expire_proposal : ℕ → Action Storage (Unit {0})
expire_proposal id = do
  p ← find_proposal id
  store_proposal id (record p { status = ProposalStatus.expired })

-- In the second guard the write of `expire_proposal` is lost with the panic that follows it.
unfoldable pub execute_proposal : Env → ℕ → Action Storage (Unit {0})
execute_proposal e proposal_id = do
  require_not_paused
  p ← find_proposal proposal_id
  throw_if (not (is_pending p.status)) ContractError.proposal_already_executed
  branch (has_lapsed e p)
      (do expire_proposal proposal_id; throw ContractError.proposal_already_executed) (pure tt)
  limit ← gets get_threshold
  signatures ← gets (λ s. get_signature_count s proposal_id)
  effective ← count_active_signatures proposal_id
  branch (effective == signatures) (pure tt) (
      modify
        (λ s. record s { signature_count = put proposal_id (some effective) s.signature_count }))
  throw_if (ltb effective limit) ContractError.insufficient_approvals
  already_executed ← gets (λ s. is_operation_executed s p.op_hash)
  throw_if already_executed ContractError.proposal_already_executed
  modify (λ s. record s { executed_op = put p.op_hash (some true) s.executed_op })
  store_proposal proposal_id (record p { status = ProposalStatus.executed })

unfoldable pub reject_proposal : Env → Address → ℕ → Action Storage (Unit {0})
reject_proposal e admin proposal_id = do
  require_not_paused
  require_admin e admin
  p ← find_proposal proposal_id
  throw_if (not (is_pending p.status)) ContractError.proposal_already_executed
  store_proposal proposal_id (record p { status = ProposalStatus.rejected })

unfoldable pub get_proposal : ℕ → Action Storage Proposal
get_proposal id = find_proposal id
