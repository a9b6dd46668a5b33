-- ===== src/Multisig/Calls.antt =====
-- Sequences of calls of the multi-signature contract
-- (contracts/credence_multisig/src/multisig.rs), those of the pause module among them.
use credence_contracts.Prelude.{ℕ, List, [], ◌∷◌}
use credence_contracts.Host.{Address, Env, after}
use credence_contracts.Pausable.Calls
use credence_contracts.Multisig.State.{Storage}
use credence_contracts.Multisig.Admin.{initialize, add_signer, remove_signer, set_threshold}
use credence_contracts.Multisig.Proposals.{
  Request, submit_proposal, sign_proposal, execute_proposal, reject_proposal,
}
use credence_contracts.Multisig.Prune.{prune_expired_proposals}

pub data Call : Type 0 where
  set_up : Address → List Address → ℕ → Call
  add : Address → Address → Call
  drop : Address → Address → Call
  set_limit : Address → ℕ → Call
  submit : Address → Request → Call
  sign : Address → ℕ → Call
  execute : ℕ → Call
  reject : Address → ℕ → Call
  prune : ℕ → ℕ → Call
  pausing : Calls.Call → Call

unfoldable pub apply : Env → Call → Storage → Storage
apply e (Call.set_up admin signers limit) s = after s (initialize e admin signers limit s)
apply e (Call.add admin signer) s = after s (add_signer e admin signer s)
apply e (Call.drop admin signer) s = after s (remove_signer e admin signer s)
apply e (Call.set_limit admin limit) s = after s (set_threshold e admin limit s)
apply e (Call.submit proposer r) s = after s (submit_proposal e proposer r s)
apply e (Call.sign signer id) s = after s (sign_proposal e signer id s)
apply e (Call.execute id) s = after s (execute_proposal e id s)
apply e (Call.reject admin id) s = after s (reject_proposal e admin id s)
apply e (Call.prune start_id max_iter) s = after s (prune_expired_proposals e start_id max_iter s)
apply e (Call.pausing c) s = record s { pause = Calls.apply e c s.pause }

unfoldable pub run : List (Env × Call) → Storage → Storage
run [] s = s
run ((e, c) ∷ cs) s = run cs (apply e c s)
