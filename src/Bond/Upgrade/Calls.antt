-- ===== src/Bond/Upgrade/Calls.antt =====
-- Sequences of calls on upgrades (contracts/credence_bond/src/upgrade_auth.rs).
use credence_contracts.Prelude.{ℕ, Option, List, [], ◌∷◌}
use credence_contracts.Host.{Address, Env, after}
use credence_contracts.Bond.Upgrade.{
  UpgradeRole, Storage, initialize_upgrade_auth, grant_upgrade_auth, revoke_upgrade_auth,
  propose_upgrade, approve_upgrade_proposal, execute_upgrade, transfer_upgrade_admin,
  accept_upgrade_admin,
}

pub data Call : Type 0 where
  set_up : Address → Call
  grant : Address → Address → UpgradeRole → ℕ → Call
  revoke : Address → Address → Call
  propose : Address → Address → List ℕ → ℕ → Call
  approve : Address → ℕ → Call
  execute : Address → Address → Option ℕ → Call
  offer : Address → Address → Call
  accept : Address → Call

unfoldable pub apply : Env → Call → Storage → Storage
apply e (Call.set_up admin) s = after s (initialize_upgrade_auth e admin s)
apply e (Call.grant admin a role expires_at) s =
    after s (grant_upgrade_auth e admin a role expires_at s)
apply e (Call.revoke admin a) s = after s (revoke_upgrade_auth e admin a s)
apply e (Call.propose a new_implementation upgrade_data required) s =
    after s (propose_upgrade e a new_implementation upgrade_data required s)
apply e (Call.approve a id) s = after s (approve_upgrade_proposal e a id s)
apply e (Call.execute a new_implementation id) s =
    after s (execute_upgrade e a new_implementation id s)
apply e (Call.offer admin a) s = after s (transfer_upgrade_admin e admin a s)
apply e (Call.accept caller) s = after s (accept_upgrade_admin e caller s)

unfoldable pub run : List (Env × Call) → Storage → Storage
run [] s = s
run ((e, c) ∷ cs) s = run cs (apply e c s)
