-- ===== src/Admin/Pausing.antt =====
-- Pausing in the admin contract (contracts/admin/src/pausable.rs): the pause module with another check
-- of the admin, and of the address of a signer.
use credence_contracts.Prelude.{ℕ, Bool, Option, none, ◌==◌, not}
use credence_contracts.Errors.{ContractError}
use credence_contracts.Host.{
  Address, Env, Action, pure, gets, ◌>>=◌, ◌>>◌, throw_if, require_auth, branch,
}
use credence_contracts.Pausable
use credence_contracts.Pausable.{
  threshold, switch_signer, change_threshold, propose_action, pause_action, unpause_action,
  do_pause, do_unpause,
}
use credence_contracts.Admin.{
  Storage, super_admin, same_role, on_pause, get_role, require_valid_admin_address,
}

abbrev pub require_admin_auth : Env → Address → Action Storage (Unit {0})
require_admin_auth e a = do
  caller_role ← get_role a
  throw_if (not (same_role caller_role super_admin)) ContractError.not_admin
  require_auth e a

unfoldable pub set_pause_signer : Env → Address → Address → Bool → Action Storage (Unit {0})
set_pause_signer e a signer enabled = do
  require_admin_auth e a
  require_valid_admin_address e signer
  on_pause (switch_signer signer enabled)

unfoldable pub set_pause_threshold : Env → Address → ℕ → Action Storage (Unit {0})
set_pause_threshold e a limit = do require_admin_auth e a; on_pause (change_threshold limit)

unfoldable pub pause : Env → Address → Action Storage (Option ℕ)
pause e caller = do
  limit ← gets (λ s. threshold s.pause)
  branch (limit == 0) (do require_admin_auth e caller; on_pause do_pause; pure none)
      (on_pause (propose_action e caller pause_action))

unfoldable pub unpause : Env → Address → Action Storage (Option ℕ)
unpause e caller = do
  limit ← gets (λ s. threshold s.pause)
  branch (limit == 0) (do require_admin_auth e caller; on_pause do_unpause; pure none)
      (on_pause (propose_action e caller unpause_action))

abbrev pub approve_pause_proposal : Env → Address → ℕ → Action Storage (Unit {0})
approve_pause_proposal e signer id = on_pause (Pausable.approve_pause_proposal e signer id)

abbrev pub execute_pause_proposal : ℕ → Action Storage (Unit {0})
execute_pause_proposal id = on_pause (Pausable.execute_pause_proposal id)
