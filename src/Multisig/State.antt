-- ===== src/Multisig/State.antt =====
-- What the multi-signature contract stores (contracts/credence_multisig/src/multisig.rs), and the
-- checks that its functions share.
use credence_contracts.Prelude.{ℕ, Bool, true, false, Option, List, [], ◌==◌, not}
use credence_contracts.Errors.{ContractError}
use credence_contracts.Host.{
  Address, Hash, Env, Entries, done, panics, Action, gets, ◌>>=◌, ◌>>◌, throw_if, or_throw,
  unwrap_or, require_auth,
}
use credence_contracts.Pausable
use credence_contracts.Pausable.{PauseStorage}

-- The bytes of a `String` or of `Bytes`.
abbrev pub Text : Type 0
Text = List ℕ

pub data ActionType : Type 0 where
  contract_call transfer config_change signer_management custom : ActionType

pub data ProposalStatus : Type 0 where
  pending executed rejected expired : ProposalStatus

abbrev pub is_pending : ProposalStatus → Bool
is_pending pending = true
is_pending _ = false

abbrev pub is_executed : ProposalStatus → Bool
is_executed executed = true
is_executed _ = false

abbrev pub is_expired : ProposalStatus → Bool
is_expired expired = true
is_expired _ = false

pub record Proposal : Type 0 where
  pub id : ℕ
  pub action_type : ActionType
  pub target : Option Address
  pub function_name : Option Text
  pub arguments : Option Text
  pub description : Text
  pub proposed_at : ℕ
  pub proposer : Address
  pub status : ProposalStatus
  pub expires_at : ℕ
  pub metadata : Option Text
  pub op_hash : Hash

-- The keys of `DataKey`; those of the pause module and `Admin` stand in `pause`.
pub record Storage : Type 0 where
  pub pause : PauseStorage
  pub signer : Entries Bool
  pub signer_count : Option ℕ
  pub threshold : Option ℕ
  pub proposal_counter : Option ℕ
  pub proposal : Entries Proposal
  pub signature : ℕ → Entries Bool
  pub signature_count : Entries ℕ
  pub signer_list : Option (List Address)
  pub executed_op : Entries Bool

-- A call of the pause module.
abbrev pub on_pause : {A : Type 0} → Action PauseStorage A → Action Storage A
on_pause m s = elim (m s.pause) [ done a p ↦ done a (record s { pause = p }) | panics x ↦ panics x ]

abbrev pub require_not_paused : Action Storage (Unit {0})
require_not_paused = on_pause Pausable.require_not_paused

abbrev pub require_admin : Env → Address → Action Storage (Unit {0})
require_admin e admin = do
  require_auth e admin
  stored_admin ← gets (λ s. s.pause.admin) >>= λ a. or_throw a ContractError.not_initialized
  throw_if (not (stored_admin == admin)) ContractError.not_admin

-- The queries, each with the default that every read gives.
abbrev pub is_signer : Storage → Address → Bool
is_signer s a = unwrap_or (s.signer a) false

abbrev pub has_signed : Storage → ℕ → Address → Bool
has_signed s id a = unwrap_or (s.signature id a) false

abbrev pub get_signature_count : Storage → ℕ → ℕ
get_signature_count s id = unwrap_or (s.signature_count id) 0

abbrev pub get_threshold : Storage → ℕ
get_threshold s = unwrap_or s.threshold 0

abbrev pub get_signer_count : Storage → ℕ
get_signer_count s = unwrap_or s.signer_count 0

abbrev pub get_signers : Storage → List Address
get_signers s = unwrap_or s.signer_list []

abbrev pub is_operation_executed : Storage → Hash → Bool
is_operation_executed s h = unwrap_or (s.executed_op h) false

abbrev pub require_signer : Address → Action Storage (Unit {0})
require_signer signer = do
  found ← gets (λ s. is_signer s signer)
  throw_if (not found) ContractError.not_signer
