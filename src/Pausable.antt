-- ===== src/Pausable.antt =====
-- Pausing with several signers (contracts/credence_multisig/src/pausable.rs; the treasury, the
-- registry and the arbitration contract hold the same file). The functions run on the part of the
-- contract's storage that they touch, which the contracts embed.

pub mod Calls
pub mod Signers
pub mod Approvals
pub mod Authority
mod Tests
use credence_contracts.Prelude.{
  ℕ, ◌+◌, ◌-◌, Bool, true, false, Option, none, some, ltb, ◌==◌, not, if◌then◌else◌, min,
}
use credence_contracts.Errors.{ContractError}
use credence_contracts.Host.{
  Address, Env, u32_max, u64_max, Entries, put, put_pair, remove, Action, pure, throw, gets, modify,
  ◌>>=◌, ◌>>◌, throw_if, or_throw, unwrap_or, is_some, require_auth, checked_add, branch,
}

pub data PauseAction : Type 0 where
  pause_action unpause_action : PauseAction

-- `action as u32`
abbrev pub action_code : PauseAction → ℕ
action_code pause_action = 1
action_code unpause_action = 2

-- The keys of `DataKey` that this module reads and writes; `admin` belongs to the contract.
pub record PauseStorage : Type 0 where
  pub admin : Option Address
  pub paused : Option Bool
  pub pause_signer : Entries Bool
  pub pause_signer_count : Option ℕ
  pub pause_threshold : Option ℕ
  pub pause_proposal_counter : Option ℕ
  pub pause_proposal : Entries ℕ
  pub pause_approval : ℕ → Entries Bool
  pub pause_approval_count : Entries ℕ

abbrev pub require_admin_auth : Env → Address → Action PauseStorage (Unit {0})
require_admin_auth e admin = do
  stored_admin ← gets (λ s. s.admin) >>= λ a. or_throw a ContractError.not_initialized
  throw_if (not (stored_admin == admin)) ContractError.not_admin
  require_auth e admin

abbrev pub is_paused : PauseStorage → Bool
is_paused s = unwrap_or s.paused false

abbrev pub require_not_paused : Action PauseStorage (Unit {0})
require_not_paused = do throw_if (← gets is_paused) ContractError.contract_paused

-- The counters of the storage, with the defaults that every read gives.
abbrev pub signer_count : PauseStorage → ℕ
signer_count s = unwrap_or s.pause_signer_count 0

abbrev pub threshold : PauseStorage → ℕ
threshold s = unwrap_or s.pause_threshold 0

abbrev pub is_pause_signer : PauseStorage → Address → Bool
is_pause_signer s a = unwrap_or (s.pause_signer a) false

abbrev enable_signer : Address → Action PauseStorage (Unit {0})
enable_signer signer = do
  modify (λ s. record s { pause_signer = put signer (some true) s.pause_signer })
  count ← gets signer_count
  modify (λ s. record s { pause_signer_count = some (min (count + 1) u32_max) })

abbrev disable_signer : Address → Action PauseStorage (Unit {0})
disable_signer signer = do
  modify (λ s. record s { pause_signer = remove signer s.pause_signer })
  count ← gets signer_count
  modify (λ s. record s { pause_signer_count = some (count - 1) })
  limit ← gets threshold
  new_count ← gets signer_count
  branch (ltb new_count limit) (modify (λ s. record s { pause_threshold = some new_count }))
      (pure tt)

-- What `set_pause_signer` does once it has checked its caller.
abbrev pub switch_signer : Address → Bool → Action PauseStorage (Unit {0})
switch_signer signer enabled = do
  existing ← gets (λ s. is_pause_signer s signer)
  branch enabled (branch existing (pure tt) (enable_signer signer))
      (branch existing (disable_signer signer) (pure tt))

unfoldable pub set_pause_signer : Env → Address → Address → Bool → Action PauseStorage (Unit {0})
set_pause_signer e admin signer enabled = do
  require_admin_auth e admin
  switch_signer signer enabled

abbrev pub change_threshold : ℕ → Action PauseStorage (Unit {0})
change_threshold limit = do
  count ← gets signer_count
  throw_if (ltb count limit) ContractError.threshold_exceeds_signers
  modify (λ s. record s { pause_threshold = some limit })

unfoldable pub set_pause_threshold : Env → Address → ℕ → Action PauseStorage (Unit {0})
set_pause_threshold e admin limit = do require_admin_auth e admin; change_threshold limit

abbrev pub require_pause_signer : Env → Address → Action PauseStorage (Unit {0})
require_pause_signer e signer = do
  require_auth e signer
  ok ← gets (λ s. is_pause_signer s signer)
  throw_if (not ok) ContractError.not_signer

abbrev pub next_proposal_id : Action PauseStorage ℕ
next_proposal_id = do
  id ← gets (λ s. unwrap_or s.pause_proposal_counter 0)
  next ← checked_add u64_max id 1 ContractError.overflow
  modify (λ s. record s { pause_proposal_counter = some next })
  pure id

abbrev pub record_approval : ℕ → Address → Action PauseStorage (Unit {0})
record_approval proposal_id signer = do
  approved ← gets (λ s. is_some (s.pause_approval proposal_id signer))
  branch approved (pure tt) (do
    modify (λ s. record s {
      pause_approval = put_pair proposal_id signer (some true) s.pause_approval;
    })
    count ← gets (λ s. unwrap_or (s.pause_approval_count proposal_id) 0)
    new_count ← checked_add u32_max count 1 ContractError.overflow
    modify (λ s. record s {
      pause_approval_count = put proposal_id (some new_count) s.pause_approval_count;
    }))

abbrev pub do_pause : Action PauseStorage (Unit {0})
do_pause = modify (λ s. record s { paused = some true })

abbrev pub do_unpause : Action PauseStorage (Unit {0})
do_unpause = modify (λ s. record s { paused = some false })

unfoldable pub propose_action : Env → Address → PauseAction → Action PauseStorage (Option ℕ)
propose_action e caller action = do
  require_pause_signer e caller
  id ← next_proposal_id
  modify (λ s. record s { pause_proposal = put id (some (action_code action)) s.pause_proposal })
  modify (λ s. record s { pause_approval_count = put id (some 0) s.pause_approval_count })
  record_approval id caller
  pure (some id)

unfoldable pub pause : Env → Address → Action PauseStorage (Option ℕ)
unfolding propose_action
pause e caller = do
  limit ← gets threshold
  branch (limit == 0) (do require_admin_auth e caller; do_pause; pure none)
      (propose_action e caller pause_action)

unfoldable pub unpause : Env → Address → Action PauseStorage (Option ℕ)
unfolding propose_action
unpause e caller = do
  limit ← gets threshold
  branch (limit == 0) (do require_admin_auth e caller; do_unpause; pure none)
      (propose_action e caller unpause_action)

unfoldable pub approve_pause_proposal : Env → Address → ℕ → Action PauseStorage (Unit {0})
approve_pause_proposal e signer proposal_id = do
  require_pause_signer e signer
  gets (λ s. s.pause_proposal proposal_id) >>= λ p. or_throw p ContractError.proposal_not_found
  record_approval proposal_id signer

-- The last step of `execute_pause_proposal`, by the stored code.
abbrev perform : ℕ → Action PauseStorage (Unit {0})
perform action =
    branch (action == 1) do_pause
      (branch (action == 2) do_unpause (throw ContractError.invalid_pause_action))

unfoldable pub execute_pause_proposal : ℕ → Action PauseStorage (Unit {0})
execute_pause_proposal proposal_id = do
  action ←
      gets (λ s. s.pause_proposal proposal_id) >>= λ p. or_throw p ContractError.proposal_not_found
  limit ← gets threshold
  approvals ← gets (λ s. unwrap_or (s.pause_approval_count proposal_id) 0)
  throw_if (ltb approvals limit) ContractError.insufficient_approvals
  perform action
  modify (λ s. record s { pause_proposal = remove proposal_id s.pause_proposal })
