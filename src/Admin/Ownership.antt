-- ===== src/Admin/Ownership.antt =====
-- The transfer of ownership in two steps (contracts/admin/src/lib.rs).
use credence_contracts.Prelude.{none, some, ◌==◌, not}
use credence_contracts.Errors.{ContractError}
use credence_contracts.Host.{
  Address, Env, Action, gets, modify, ◌>>=◌, ◌>>◌, throw_if, or_throw, require_auth,
}
use credence_contracts.Admin.{
  Storage, super_admin, same_role, require_not_paused, require_valid_admin_address, get_admin_info,
}

unfoldable pub transfer_ownership : Env → Address → Address → Action Storage (Unit {0})
transfer_ownership e caller new_owner = do
  require_not_paused
  require_auth e caller
  require_valid_admin_address e new_owner
  current_owner ← gets (λ s. s.owner) >>= λ o. or_throw o ContractError.not_initialized
  throw_if (not (caller == current_owner)) ContractError.not_admin
  throw_if (new_owner == current_owner) ContractError.invalid_pause_action
  info ← get_admin_info new_owner
  throw_if (not (same_role info.role super_admin)) ContractError.not_admin
  throw_if (not info.active) ContractError.already_deactivated
  modify (λ s. record s { pending_owner = some new_owner })

unfoldable pub accept_ownership : Env → Address → Action Storage (Unit {0})
accept_ownership e caller = do
  require_not_paused
  require_auth e caller
  pending ← gets (λ s. s.pending_owner) >>= λ o. or_throw o ContractError.not_initialized
  throw_if (not (caller == pending)) ContractError.not_admin
  gets (λ s. s.owner) >>= λ o. or_throw o ContractError.not_initialized
  modify (λ s. record s { owner = some pending })
  modify (λ s. record s { pending_owner = none })
