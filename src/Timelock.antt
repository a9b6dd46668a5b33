-- ===== src/Timelock.antt =====
-- The timelock contract (contracts/timelock/src/lib.rs): operations are queued by the admin, wait
-- for their delay, and are executed once inside their grace period.
pub mod Calls
pub mod Invariant
pub mod History
pub mod Guarantees
mod Tests
use credence_contracts.Prelude.{ℕ, Bool, true, false, Option, some, ltb, leb, ◌==◌, not}
use credence_contracts.Errors.{ContractError}
use credence_contracts.Host.{
  Address, Hash, Env, u64_max, Entries, put, Action, pure, gets, modify, ◌>>=◌, ◌>>◌, throw_if,
  or_throw, unwrap_or, is_some, require_auth, checked_add,
}

abbrev pub min_delay_seconds : ℕ
min_delay_seconds = 86400

abbrev pub grace_period : ℕ
grace_period = 86400

unfoldable pub is_ready : ℕ → ℕ → Bool
is_ready eta now = leb eta now

pub data OperationStatus : Type 0 where
  pending executed cancelled : OperationStatus

abbrev is_pending : OperationStatus → Bool
is_pending pending = true
is_pending _ = false

pub record QueuedOperation : Type 0 where
  pub id : ℕ
  pub op_hash : Hash
  pub eta : ℕ
  pub expires_at : ℕ
  pub status : OperationStatus

-- The contract's storage, a field for each constructor of `DataKey`.
pub record Storage : Type 0 where
  pub admin : Option Address
  pub operation_counter : Option ℕ
  pub operation : Entries QueuedOperation
  pub executed_op : Entries Bool

unfoldable pub initialize : Address → Action Storage (Unit {0})
initialize admin = do
  throw_if (is_some (← gets (λ s. s.admin))) ContractError.already_initialized
  modify (λ s. record s { admin = some admin })
  modify (λ s. record s { operation_counter = some 0 })

-- The two admin checks of `queue_operation` and `cancel_operation`.
abbrev require_admin : Env → Address → Action Storage (Unit {0})
require_admin e caller = do
  require_auth e caller
  admin ← gets (λ s. s.admin) >>= λ a. or_throw a ContractError.not_initialized
  throw_if (not (caller == admin)) ContractError.not_admin

unfoldable pub queue_operation : Env → Address → Hash → ℕ → Action Storage ℕ
queue_operation e proposer op_hash delay = do
  require_admin e proposer
  throw_if (ltb delay min_delay_seconds) ContractError.timelock_not_ready
  replayed ← gets (λ s. unwrap_or (s.executed_op op_hash) false)
  throw_if replayed ContractError.proposal_already_executed
  op_id ← gets (λ s. unwrap_or s.operation_counter 0)
  next_op_id ← checked_add u64_max op_id 1 ContractError.overflow
  modify (λ s. record s { operation_counter = some next_op_id })
  eta ← checked_add u64_max e.timestamp delay ContractError.overflow
  expires_at ← checked_add u64_max eta grace_period ContractError.overflow
  let op : QueuedOperation = record {
    id = op_id;
    op_hash = op_hash;
    eta = eta;
    expires_at = expires_at;
    status = pending;
  }
  modify (λ s. record s { operation = put op_id (some op) s.operation })
  pure op_id

unfoldable pub execute_operation : Env → ℕ → Action Storage (Unit {0})
unfolding is_ready
execute_operation e op_id = do
  op ← gets (λ s. s.operation op_id) >>= λ o. or_throw o ContractError.proposal_not_found
  throw_if (not (is_pending op.status)) ContractError.proposal_already_executed
  throw_if (not (is_ready op.eta e.timestamp)) ContractError.timelock_not_ready
  throw_if (ltb op.expires_at e.timestamp) ContractError.signature_expired
  replayed ← gets (λ s. unwrap_or (s.executed_op op.op_hash) false)
  throw_if replayed ContractError.proposal_already_executed
  modify (λ s. record s { executed_op = put op.op_hash (some true) s.executed_op })
  modify
      (λ s. record s { operation = put op_id (some (record op { status = executed })) s.operation })

unfoldable pub cancel_operation : Env → Address → ℕ → Action Storage (Unit {0})
cancel_operation e admin op_id = do
  require_admin e admin
  op ← gets (λ s. s.operation op_id) >>= λ o. or_throw o ContractError.proposal_not_found
  throw_if (not (is_pending op.status)) ContractError.proposal_already_executed
  modify (λ s. record s {
    operation = put op_id (some (record op { status = cancelled })) s.operation;
  })

pub get_operation : ℕ → Action Storage (Option QueuedOperation)
get_operation op_id = gets (λ s. s.operation op_id)

pub is_operation_executed : Hash → Action Storage Bool
is_operation_executed op_hash = gets (λ s. unwrap_or (s.executed_op op_hash) false)

pub get_admin : Action Storage Address
get_admin = gets (λ s. s.admin) >>= λ a. or_throw a ContractError.not_initialized
