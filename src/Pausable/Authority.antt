-- ===== src/Pausable/Authority.antt =====
-- Who can pause and unpause (contracts/credence_multisig/src/pausable.rs).
use credence_contracts.Prelude.{
  ℕ, ◌≤◌, ◌<◌, ◌≡◌, ◌≢◌, true, false, some, none, arith, ◌==◌, List, [], ◌∷◌,
}
use credence_contracts.Prelude.Counting.{Counts}
use credence_contracts.Host.{Env, unwrap_or, done, succeeds, remove}
use credence_contracts.Pausable.{
  PauseAction, PauseStorage, action_code, pause_action, unpause_action, threshold, set_pause_signer,
  set_pause_threshold, pause, unpause, approve_pause_proposal, execute_pause_proposal,
}
use credence_contracts.Pausable.Calls.{Call, apply, run}
use credence_contracts.Pausable.Approvals.{ApprovalsAgree, has_approved, approval_count}

-- What stands behind a call that changes whether the contract is paused.
abbrev pub Authority : Env → Call → PauseStorage → Type 0
Authority e (Call.request_pause a) s =
    (threshold s ≡ 0) × (s.admin ≡ some a) × (e.authorized a ≡ true)
Authority e (Call.request_unpause a) s =
    (threshold s ≡ 0) × (s.admin ≡ some a) × (e.authorized a ≡ true)
Authority e (Call.execute id) s =
    (n : ℕ) × Counts (has_approved s id) n × (threshold s ≤ n) × (s.pause_proposal id ≢ none)
Authority e _ s = ⊥

-- For a stored proposal with a known action, `execute_pause_proposal` returns exactly when it has as
-- many approvals as the threshold; it then sets the flag as the action says, removes the proposal,
-- and changes nothing else.
pub execute_pause_exact :
    (id : ℕ) (a : PauseAction) (s : PauseStorage)
    → s.pause_proposal id ≡ some (action_code a)
    → (threshold s ≤ approval_count s id
        → execute_pause_proposal id s
          ≡ done tt (record s {
            paused = some (action_code a == 1);
            pause_proposal = remove id s.pause_proposal;
          }))
      × (succeeds (execute_pause_proposal id s) ≡ true → threshold s ≤ approval_count s id)
unfolding execute_pause_proposal
execute_pause_exact id pause_action s h = (λ k. ground arith, λ k. ground arith)
execute_pause_exact id unpause_action s h = (λ k. ground arith, λ k. ground arith)

-- The id was given out, and its proposal is no longer stored.
abbrev Gone : ℕ → PauseStorage → Type 0
Gone id s = (id < unwrap_or s.pause_proposal_counter 0) × (s.pause_proposal id ≡ none)

apply-Gone : (e : Env) (c : Call) (id : ℕ) (s : PauseStorage) → Gone id s → Gone id (apply e c s)
unfolding apply set_pause_signer set_pause_threshold pause unpause approve_pause_proposal
    execute_pause_proposal
apply-Gone e (Call.set_signer admin signer enabled) id s g = ground arith
apply-Gone e (Call.set_limit admin limit) id s g = ground arith
apply-Gone e (Call.request_pause a) id s g = ground arith
apply-Gone e (Call.request_unpause a) id s g = ground arith
apply-Gone e (Call.approve signer i) id s g = ground arith
apply-Gone e (Call.execute i) id s g = ground arith

run-Gone : (cs : List (Env × Call)) (id : ℕ) (s : PauseStorage) → Gone id s → Gone id (run cs s)
unfolding run
run-Gone [] id s g = g
run-Gone ((e, c) ∷ cs) id s g = run-Gone cs id (apply e c s) (apply-Gone e c id s g)

execute_leaves-Gone :
    (id : ℕ) (s t : PauseStorage)
    → ApprovalsAgree s
    → execute_pause_proposal id s ≡ done tt t
    → Gone id t
unfolding execute_pause_proposal
execute_leaves-Gone id s t v h = ground (arith, v.unknown id)

-- With the approvals in order, a proposal is executed once at most: after its execution and any further calls, executing it
-- fails.
pub pause_proposal_executes_once :
    (cs : List (Env × Call)) (id : ℕ) (s t : PauseStorage)
    → ApprovalsAgree s
    → execute_pause_proposal id s ≡ done tt t
    → succeeds (execute_pause_proposal id (run cs t)) ≡ false
unfolding execute_pause_proposal
pause_proposal_executes_once cs id s t v h =
    let g = run-Gone cs id t (execute_leaves-Gone id s t v h) in ground arith
