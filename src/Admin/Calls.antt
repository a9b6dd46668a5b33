-- ===== src/Admin/Calls.antt =====
-- Sequences of calls of the admin contract (contracts/admin/src/lib.rs).
use credence_contracts.Prelude.{ℕ, Bool, List, [], ◌∷◌}
use credence_contracts.Host.{Address, Env, after}
use credence_contracts.Admin.{AdminRole, Storage}
use credence_contracts.Admin.Roles.{
  initialize, add_admin, remove_admin, update_admin_role, deactivate_admin, reactivate_admin,
  suspend_admin,
}
use credence_contracts.Admin.Ownership.{transfer_ownership, accept_ownership}
use credence_contracts.Admin.Pausing.{
  set_pause_signer, set_pause_threshold, pause, unpause, approve_pause_proposal,
  execute_pause_proposal,
}

pub data Call : Type 0 where
  set_up : Address → ℕ → ℕ → Call
  add : Address → Address → AdminRole → Call
  take_out : Address → Address → Call
  change_role : Address → Address → AdminRole → Call
  switch_off : Address → Address → Call
  switch_on : Address → Address → Call
  suspend : Address → Address → ℕ → Call
  offer : Address → Address → Call
  accept : Address → Call
  set_signer : Address → Address → Bool → Call
  set_limit : Address → ℕ → Call
  request_pause : Address → Call
  request_unpause : Address → Call
  approve : Address → ℕ → Call
  execute : ℕ → Call

unfoldable pub apply : Env → Call → Storage → Storage
apply e (Call.set_up first low high) s = after s (initialize e first low high s)
apply e (Call.add caller a role) s = after s (add_admin e caller a role s)
apply e (Call.take_out caller a) s = after s (remove_admin e caller a s)
apply e (Call.change_role caller a role) s = after s (update_admin_role e caller a role s)
apply e (Call.switch_off caller a) s = after s (deactivate_admin e caller a s)
apply e (Call.switch_on caller a) s = after s (reactivate_admin e caller a s)
apply e (Call.suspend caller a until_ts) s = after s (suspend_admin e caller a until_ts s)
apply e (Call.offer caller a) s = after s (transfer_ownership e caller a s)
apply e (Call.accept caller) s = after s (accept_ownership e caller s)
apply e (Call.set_signer a signer enabled) s = after s (set_pause_signer e a signer enabled s)
apply e (Call.set_limit a limit) s = after s (set_pause_threshold e a limit s)
apply e (Call.request_pause caller) s = after s (pause e caller s)
apply e (Call.request_unpause caller) s = after s (unpause e caller s)
apply e (Call.approve signer id) s = after s (approve_pause_proposal e signer id s)
apply e (Call.execute id) s = after s (execute_pause_proposal id s)

unfoldable pub run : List (Env × Call) → Storage → Storage
run [] s = s
run ((e, c) ∷ cs) s = run cs (apply e c s)
