-- ===== src/Pausable/Calls.antt =====
-- Sequences of calls of the pause module (contracts/credence_multisig/src/pausable.rs).
use credence_contracts.Prelude.{ℕ, Bool, List, [], ◌∷◌}
use credence_contracts.Host.{Address, Env, after}
use credence_contracts.Pausable.{
  PauseStorage, set_pause_signer, set_pause_threshold, pause, unpause, approve_pause_proposal,
  execute_pause_proposal,
}

pub data Call : Type 0 where
  set_signer : Address → Address → Bool → Call
  set_limit : Address → ℕ → Call
  request_pause : Address → Call
  request_unpause : Address → Call
  approve : Address → ℕ → Call
  execute : ℕ → Call

unfoldable pub apply : Env → Call → PauseStorage → PauseStorage
apply e (Call.set_signer admin signer enabled) s =
    after s (set_pause_signer e admin signer enabled s)
apply e (Call.set_limit admin limit) s = after s (set_pause_threshold e admin limit s)
apply e (Call.request_pause caller) s = after s (pause e caller s)
apply e (Call.request_unpause caller) s = after s (unpause e caller s)
apply e (Call.approve signer id) s = after s (approve_pause_proposal e signer id s)
apply e (Call.execute id) s = after s (execute_pause_proposal id s)

unfoldable pub run : List (Env × Call) → PauseStorage → PauseStorage
run [] s = s
run ((e, c) ∷ cs) s = run cs (apply e c s)
