-- ===== src/Treasury/Calls.antt =====
-- Sequences of calls of the treasury (contracts/credence_treasury/src/treasury.rs).
use credence_contracts.Prelude.{ℕ, List, [], ◌∷◌}
use credence_contracts.Prelude.Int.{ℤ}
use credence_contracts.Host.{Address, Env, after}
use credence_contracts.Host.Token.{Tokens}
use credence_contracts.Pausable.Calls
use credence_contracts.Treasury.State.{Storage, World, FundSource}
use credence_contracts.Treasury.Config.{
  initialize, add_depositor, remove_depositor, add_signer, remove_signer, set_threshold, set_token,
  set_min_liquidity, set_proposal_ttl,
}
use credence_contracts.Treasury.Funds.{
  propose_withdrawal, approve_withdrawal, receive_fee, execute_withdrawal, rescue_native,
}

-- The calls that touch the treasury's storage alone.
pub data LocalCall : Type 0 where
  set_up : Address → Address → LocalCall
  allow : Address → LocalCall
  disallow : Address → LocalCall
  add : Address → LocalCall
  drop : Address → LocalCall
  set_limit : ℕ → LocalCall
  replace_token : Address → Address → LocalCall
  set_floor : Address → ℤ → LocalCall
  set_ttl : Address → ℕ → LocalCall
  propose : Address → Address → ℤ → LocalCall
  approve : Address → ℕ → LocalCall
  pausing : Calls.Call → LocalCall

unfoldable pub apply_local : Env → LocalCall → Storage → Storage
apply_local e (LocalCall.set_up admin token) s = after s (initialize e admin token s)
apply_local e (LocalCall.allow a) s = after s (add_depositor e a s)
apply_local e (LocalCall.disallow a) s = after s (remove_depositor e a s)
apply_local e (LocalCall.add a) s = after s (add_signer e a s)
apply_local e (LocalCall.drop a) s = after s (remove_signer e a s)
apply_local e (LocalCall.set_limit limit) s = after s (set_threshold e limit s)
apply_local e (LocalCall.replace_token admin token) s = after s (set_token e admin token s)
apply_local e (LocalCall.set_floor admin floor) s = after s (set_min_liquidity e admin floor s)
apply_local e (LocalCall.set_ttl admin ttl) s = after s (set_proposal_ttl e admin ttl s)
apply_local e (LocalCall.propose proposer recipient amount) s =
    after s (propose_withdrawal e proposer recipient amount s)
apply_local e (LocalCall.approve approver id) s = after s (approve_withdrawal e approver id s)
apply_local e (LocalCall.pausing c) s = record s { pause = Calls.apply e c s.pause }

pub data Call : Type 0 where
  local : LocalCall → Call
  receive : Address → ℤ → FundSource → Call
  withdraw : ℕ → ℤ → Call
  rescue : Address → Address → ℤ → Call

module _ {L : Type 0} (tokens : Tokens L) where
  unfoldable pub apply : Env → Call → World L → World L
  apply e (Call.local c) w = record w { storage = apply_local e c w.storage }
  apply e (Call.receive from amount source) w = after w (receive_fee tokens e from amount source w)
  apply e (Call.withdraw id least) w = after w (execute_withdrawal tokens e id least w)
  apply e (Call.rescue admin to amount) w = after w (rescue_native tokens e admin to amount w)

  unfoldable pub run : List (Env × Call) → World L → World L
  run [] w = w
  run ((e, c) ∷ cs) w = run cs (apply e c w)
