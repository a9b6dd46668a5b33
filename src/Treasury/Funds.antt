-- ===== src/Treasury/Funds.antt =====
-- Money in and out of the treasury (contracts/credence_treasury/src/treasury.rs).
use credence_contracts.Prelude.{ℕ, true, false, none, some, leb, ltb, ◌==◌, ◌&&◌, not}
use credence_contracts.Prelude.Int.{ℤ, pos, ltb_ℤ, leb_ℤ, ◌+ℤ◌, ◌-ℤ◌}
use credence_contracts.Errors.{ContractError}
use credence_contracts.Host.{
  Address, Env, u32_max, u64_max, put, put_pair, done, panics, message, Action, pure, gets, modify,
  ◌>>=◌, ◌>>◌, throw_if, or_throw, unwrap_or, require_auth, checked_add, branch,
}
use credence_contracts.Host.Token.{Tokens}
use credence_contracts.Treasury.State.{
  Storage, World, FundSource, protocol_fee, slashed_funds, put_source, WithdrawalProposal,
  on_storage, require_not_paused, checked_ℤ, get_admin, get_token, get_balance,
  get_balance_by_source, get_cumulative_received, get_cumulative_by_source, get_min_liquidity,
  get_proposal_ttl, is_depositor, is_signer, get_threshold, get_approval_count, has_approved,
}
use credence_contracts.Treasury.Amounts.{add_to_cumulative, proportional_deduction}

-- `receive_fee` up to its transfer.
unfoldable pub record_fee : Env → Address → ℤ → FundSource → Action Storage (Unit {0})
record_fee e from amount source = do
  require_not_paused
  require_auth e from
  throw_if (leb_ℤ amount (pos 0)) ContractError.amount_must_be_positive
  admin ← get_admin
  depositor ← gets (λ s. is_depositor s from)
  throw_if (not (from == admin) && not depositor) ContractError.unauthorized_depositor
  total ← gets get_balance
  new_total ← checked_ℤ (total +ℤ amount) ContractError.overflow
  source_balance ← gets (λ s. get_balance_by_source s source)
  new_source ← checked_ℤ (source_balance +ℤ amount) ContractError.overflow
  cumulative_total ← gets get_cumulative_received
  new_cumulative_total ← add_to_cumulative cumulative_total amount
  cumulative_source ← gets (λ s. get_cumulative_by_source s source)
  new_cumulative_source ← add_to_cumulative cumulative_source amount
  modify (λ s. record s {
    total_balance = some new_total;
    balance_by_source = put_source source (some new_source) s.balance_by_source;
    cumulative_received = some new_cumulative_total;
    cumulative_received_by_source =
        put_source source (some new_cumulative_source) s.cumulative_received_by_source;
  })

unfoldable pub propose_withdrawal : Env → Address → Address → ℤ → Action Storage ℕ
propose_withdrawal e proposer recipient amount = do
  require_not_paused
  require_auth e proposer
  signer ← gets (λ s. is_signer s proposer)
  throw_if (not signer) ContractError.not_signer
  throw_if (leb_ℤ amount (pos 0)) ContractError.amount_must_be_positive
  total ← gets get_balance
  throw_if (ltb_ℤ total amount) ContractError.insufficient_treasury_balance
  id ← gets (λ s. unwrap_or s.proposal_counter 0)
  next_id ← checked_add u64_max id 1 ContractError.overflow
  modify (λ s. record s { proposal_counter = some next_id })
  ttl ← gets get_proposal_ttl
  expires_at ←
      branch (ttl == 0) (pure u64_max) (checked_add u64_max e.timestamp ttl ContractError.overflow)
  let p : WithdrawalProposal = record {
    recipient = recipient;
    amount = amount;
    proposed_at = e.timestamp;
    expires_at = expires_at;
    proposer = proposer;
    executed = false;
  }
  modify (λ s. record s { proposal = put id (some p) s.proposal })
  modify (λ s. record s { approval_count = put id (some 0) s.approval_count })
  pure id

abbrev pub find_proposal : ℕ → Action Storage WithdrawalProposal
find_proposal id = gets (λ s. s.proposal id) >>= λ p. or_throw p ContractError.proposal_not_found

unfoldable pub approve_withdrawal : Env → Address → ℕ → Action Storage (Unit {0})
approve_withdrawal e approver proposal_id = do
  require_not_paused
  require_auth e approver
  signer ← gets (λ s. is_signer s approver)
  throw_if (not signer) ContractError.not_signer
  p ← find_proposal proposal_id
  throw_if p.executed ContractError.proposal_already_executed
  throw_if (leb p.expires_at e.timestamp) ContractError.proposal_expired
  already ← gets (λ s. has_approved s proposal_id approver)
  branch already (pure tt) (do
    modify (λ s. record s { approval = put_pair proposal_id approver (some true) s.approval })
    count ← gets (λ s. get_approval_count s proposal_id)
    new_count ← checked_add u32_max count 1 ContractError.overflow
    modify (λ s. record s { approval_count = put proposal_id (some new_count) s.approval_count }))

-- `execute_withdrawal` up to its transfer.
unfoldable pub check_withdrawal : Env → ℕ → Action Storage WithdrawalProposal
check_withdrawal e proposal_id = do
  require_not_paused
  p ← find_proposal proposal_id
  throw_if (leb p.expires_at e.timestamp) ContractError.proposal_expired
  throw_if p.executed ContractError.proposal_already_executed
  limit ← gets get_threshold
  approvals ← gets (λ s. get_approval_count s proposal_id)
  throw_if (ltb approvals limit) ContractError.insufficient_approvals
  total ← gets get_balance
  throw_if (ltb_ℤ total p.amount) ContractError.insufficient_treasury_balance
  floor ← gets get_min_liquidity
  remaining ← checked_ℤ (total -ℤ p.amount) ContractError.underflow
  throw_if (ltb_ℤ remaining floor) ContractError.insufficient_treasury_balance
  pure p

-- `execute_withdrawal` after its transfer, with the amount that has arrived.
unfoldable pub settle : ℕ → WithdrawalProposal → ℤ → Action Storage (Unit {0})
settle proposal_id p actual = do
  total ← gets get_balance
  new_total ← checked_ℤ (total -ℤ actual) ContractError.underflow
  protocol ← gets (λ s. get_balance_by_source s protocol_fee)
  slashed ← gets (λ s. get_balance_by_source s slashed_funds)
  protocol_deduction ← proportional_deduction protocol actual total
  slashed_deduction ← checked_ℤ (actual -ℤ protocol_deduction) ContractError.underflow
  new_protocol ← checked_ℤ (protocol -ℤ protocol_deduction) ContractError.underflow
  new_slashed ← checked_ℤ (slashed -ℤ slashed_deduction) ContractError.underflow
  modify (λ s. record s {
    total_balance = some new_total;
    balance_by_source =
        put_source slashed_funds (some new_slashed)
          (put_source protocol_fee (some new_protocol) s.balance_by_source);
    proposal = put proposal_id (some (record p { executed = true })) s.proposal;
  })

module _ {L : Type 0} (tokens : Tokens L) where
  open tokens use {balance, transfer}

  -- A transfer of the token contract, which panics or gives the new ledgers.
  abbrev pub move : Address → Address → Address → ℤ → Action (World L) (Unit {0})
  move token from to amount w = elim (transfer token w.ledger from to amount) [
    | none ↦ panics message
    | some l ↦ done tt (record w { ledger = l })
  ]

  unfoldable pub receive_fee : Env → Address → ℤ → FundSource → Action (World L) (Unit {0})
  receive_fee e from amount source = do
    on_storage (record_fee e from amount source)
    token ← on_storage get_token
    move token from e.current_contract amount

  unfoldable pub execute_withdrawal : Env → ℕ → ℤ → Action (World L) (Unit {0})
  execute_withdrawal e proposal_id min_amount_out = do
    p ← on_storage (check_withdrawal e proposal_id)
    token ← on_storage get_token
    before ← gets (λ w. balance token w.ledger p.recipient)
    move token e.current_contract p.recipient p.amount
    after ← gets (λ w. balance token w.ledger p.recipient)
    actual ← checked_ℤ (after -ℤ before) ContractError.underflow
    throw_if (ltb_ℤ actual min_amount_out) ContractError.slippage_exceeded
    on_storage (settle proposal_id p actual)

  unfoldable pub rescue_native : Env → Address → Address → ℤ → Action (World L) (Unit {0})
  rescue_native e admin to amount = do
    on_storage require_not_paused
    require_auth e admin
    stored_admin ← on_storage get_admin
    throw_if (not (stored_admin == admin)) ContractError.not_admin
    throw_if (leb_ℤ amount (pos 0)) ContractError.amount_must_be_positive
    token ← on_storage get_token
    actual_balance ← gets (λ w. balance token w.ledger e.current_contract)
    total ← gets (λ w. get_balance w.storage)
    excess ← checked_ℤ (actual_balance -ℤ total) ContractError.underflow
    throw_if (ltb_ℤ excess amount) ContractError.insufficient_treasury_balance
    move token e.current_contract to amount
