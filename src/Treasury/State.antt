-- ===== src/Treasury/State.antt =====
-- What the treasury stores (contracts/credence_treasury/src/treasury.rs), and the checks that its
-- functions share.
use credence_contracts.Prelude.{ℕ, Bool, false, Option, not}
use credence_contracts.Prelude.Int.{ℤ, pos, fits_i128}
use credence_contracts.Errors.{ContractError}
use credence_contracts.Host.{
  Address, Entries, done, panics, Action, pure, gets, ◌>>=◌, ◌>>◌, throw_if, or_throw, unwrap_or,
}
use credence_contracts.Pausable
use credence_contracts.Pausable.{PauseStorage}

abbrev pub default_proposal_ttl : ℕ
default_proposal_ttl = 604800

pub data FundSource : Type 0 where
  protocol_fee slashed_funds : FundSource

abbrev pub put_source : {A : Type 0} → FundSource → A → (FundSource → A) → FundSource → A
put_source protocol_fee v m protocol_fee = v
put_source protocol_fee v m slashed_funds = m slashed_funds
put_source slashed_funds v m protocol_fee = m protocol_fee
put_source slashed_funds v m slashed_funds = v

pub record WithdrawalProposal : Type 0 where
  pub recipient : Address
  pub amount : ℤ
  pub proposed_at : ℕ
  pub expires_at : ℕ
  pub proposer : Address
  pub executed : Bool

pub record CumulativeAmount : Type 0 where
  pub rollovers : ℕ
  pub remainder : ℤ

abbrev pub zero_cumulative_amount : CumulativeAmount
zero_cumulative_amount = record { rollovers = 0; remainder = pos 0 }

-- The keys of `DataKey`; those of the pause module and `Admin` stand in `pause`.
pub record Storage : Type 0 where
  pub pause : PauseStorage
  pub total_balance : Option ℤ
  pub balance_by_source : FundSource → Option ℤ
  pub cumulative_received : Option CumulativeAmount
  pub cumulative_received_by_source : FundSource → Option CumulativeAmount
  pub depositor : Entries Bool
  pub signer : Entries Bool
  pub signer_count : Option ℕ
  pub threshold : Option ℕ
  pub proposal_counter : Option ℕ
  pub proposal : Entries WithdrawalProposal
  pub approval : ℕ → Entries Bool
  pub approval_count : Entries ℕ
  pub min_liquidity : Option ℤ
  pub token : Option Address
  pub proposal_ttl : Option ℕ

-- The treasury's storage beside the ledgers of the tokens.
pub record World (L : Type 0) : Type 0 where
  pub storage : Storage
  pub ledger : L

abbrev pub on_pause : {A : Type 0} → Action PauseStorage A → Action Storage A
on_pause m s = elim (m s.pause) [ done a p ↦ done a (record s { pause = p }) | panics x ↦ panics x ]

abbrev pub on_storage : {L A : Type 0} → Action Storage A → Action (World L) A
on_storage m w = elim (m w.storage) [
  | done a s ↦ done a (record w { storage = s })
  | panics x ↦ panics x
]

abbrev pub require_not_paused : Action Storage (Unit {0})
require_not_paused = on_pause Pausable.require_not_paused

-- `checked_add`, `checked_sub` and `try_from` on i128.
abbrev pub checked_ℤ : {S : Type 0} → ℤ → ContractError → Action S ℤ
checked_ℤ a err = throw_if (not (fits_i128 a)) err >> pure a

abbrev pub get_admin : Action Storage Address
get_admin = gets (λ s. s.pause.admin) >>= λ a. or_throw a ContractError.not_initialized

abbrev pub get_token : Action Storage Address
get_token = gets (λ s. s.token) >>= λ a. or_throw a ContractError.not_initialized

abbrev pub get_balance : Storage → ℤ
get_balance s = unwrap_or s.total_balance (pos 0)

abbrev pub get_balance_by_source : Storage → FundSource → ℤ
get_balance_by_source s f = unwrap_or (s.balance_by_source f) (pos 0)

abbrev pub get_cumulative_received : Storage → CumulativeAmount
get_cumulative_received s = unwrap_or s.cumulative_received zero_cumulative_amount

abbrev pub get_cumulative_by_source : Storage → FundSource → CumulativeAmount
get_cumulative_by_source s f = unwrap_or (s.cumulative_received_by_source f) zero_cumulative_amount

abbrev pub get_min_liquidity : Storage → ℤ
get_min_liquidity s = unwrap_or s.min_liquidity (pos 0)

abbrev pub get_proposal_ttl : Storage → ℕ
get_proposal_ttl s = unwrap_or s.proposal_ttl default_proposal_ttl

abbrev pub is_depositor : Storage → Address → Bool
is_depositor s a = unwrap_or (s.depositor a) false

abbrev pub is_signer : Storage → Address → Bool
is_signer s a = unwrap_or (s.signer a) false

abbrev pub get_signer_count : Storage → ℕ
get_signer_count s = unwrap_or s.signer_count 0

abbrev pub get_threshold : Storage → ℕ
get_threshold s = unwrap_or s.threshold 0

abbrev pub get_approval_count : Storage → ℕ → ℕ
get_approval_count s id = unwrap_or (s.approval_count id) 0

abbrev pub has_approved : Storage → ℕ → Address → Bool
has_approved s id a = unwrap_or (s.approval id a) false
