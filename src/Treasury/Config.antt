-- ===== src/Treasury/Config.antt =====
-- Setting the treasury up: depositors, signers, threshold and limits
-- (contracts/credence_treasury/src/treasury.rs).
use credence_contracts.Prelude.{ℕ, ◌-◌, true, false, some, ltb, ◌==◌, not}
use credence_contracts.Prelude.Int.{ℤ, pos}
use credence_contracts.Errors.{ContractError}
use credence_contracts.Host.{
  Address, Env, u32_max, put, remove, Action, pure, gets, modify, ◌>>=◌, ◌>>◌, throw_if, unwrap_or,
  require_auth, checked_add, branch,
}
use credence_contracts.Treasury.State.{
  Storage, zero_cumulative_amount, default_proposal_ttl, require_not_paused, get_admin,
  is_depositor, is_signer, get_signer_count, get_threshold,
}

-- What `initialize` writes; entries of depositors, signers and proposals stay.
abbrev pub initial : Address → Address → Storage → Storage
initial admin token s = record s {
  pause = record s.pause {
    admin = some admin;
    paused = some false;
    pause_signer_count = some 0;
    pause_threshold = some 0;
    pause_proposal_counter = some 0;
  };
  token = some token;
  total_balance = some (pos 0);
  balance_by_source = λ _. some (pos 0);
  cumulative_received = some zero_cumulative_amount;
  cumulative_received_by_source = λ _. some zero_cumulative_amount;
  signer_count = some 0;
  threshold = some 0;
  proposal_counter = some 0;
  min_liquidity = some (pos 0);
  proposal_ttl = some default_proposal_ttl;
}

unfoldable pub initialize : Env → Address → Address → Action Storage (Unit {0})
initialize e admin token = do require_auth e admin; modify (initial admin token)

-- The admin of the treasury authorises the call.
abbrev pub by_admin : Env → Action Storage (Unit {0})
by_admin e = do require_not_paused; admin ← get_admin; require_auth e admin

unfoldable pub add_depositor : Env → Address → Action Storage (Unit {0})
add_depositor e depositor = do
  by_admin e
  already ← gets (λ s. is_depositor s depositor)
  branch already (pure tt)
      (modify (λ s. record s { depositor = put depositor (some true) s.depositor }))

unfoldable pub remove_depositor : Env → Address → Action Storage (Unit {0})
remove_depositor e depositor = do
  by_admin e
  modify (λ s. record s { depositor = remove depositor s.depositor })

unfoldable pub add_signer : Env → Address → Action Storage (Unit {0})
add_signer e signer = do
  by_admin e
  already ← gets (λ s. is_signer s signer)
  branch already (pure tt) (do
    modify (λ s. record s { signer = put signer (some true) s.signer })
    count ← gets get_signer_count
    new_count ← checked_add u32_max count 1 ContractError.overflow
    modify (λ s. record s { signer_count = some new_count }))

unfoldable pub remove_signer : Env → Address → Action Storage (Unit {0})
remove_signer e signer = do
  by_admin e
  exists ← gets (λ s. is_signer s signer)
  branch exists
      (do
        modify (λ s. record s { signer = remove signer s.signer })
        count ← gets (λ s. unwrap_or s.signer_count 1)
        modify (λ s. record s { signer_count = some (count - 1) })
        limit ← gets get_threshold
        branch (ltb (count - 1) limit) (modify (λ s. record s { threshold = some (count - 1) }))
            (pure tt))
      (pure tt)

unfoldable pub set_threshold : Env → ℕ → Action Storage (Unit {0})
set_threshold e limit = do
  by_admin e
  count ← gets get_signer_count
  throw_if (ltb count limit) ContractError.threshold_exceeds_signers
  modify (λ s. record s { threshold = some limit })

-- The check of the three setters below.
abbrev pub require_admin : Env → Address → Action Storage (Unit {0})
require_admin e admin = do
  require_not_paused
  stored_admin ← get_admin
  throw_if (not (admin == stored_admin)) ContractError.not_admin
  require_auth e admin

unfoldable pub set_token : Env → Address → Address → Action Storage (Unit {0})
set_token e admin token = do require_admin e admin; modify (λ s. record s { token = some token })

unfoldable pub set_min_liquidity : Env → Address → ℤ → Action Storage (Unit {0})
set_min_liquidity e admin min_liquidity = do
  require_admin e admin
  modify (λ s. record s { min_liquidity = some min_liquidity })

unfoldable pub set_proposal_ttl : Env → Address → ℕ → Action Storage (Unit {0})
set_proposal_ttl e admin ttl = do
  require_admin e admin
  modify (λ s. record s { proposal_ttl = some ttl })
