-- ===== src/Bond/Upgrade/Stuck.antt =====
-- Upgrades of a contract that has no implementation (contracts/credence_bond/src/upgrade_auth.rs).
use credence_contracts.Prelude.{ℕ, ◌≡◌, refl, ap, ◌∙◌, false, Option, none, List, [], ◌∷◌, arith}
use credence_contracts.Host.{Address, Env, Outcome, after, done, panics, succeeds}
use credence_contracts.Bond.Upgrade.{
  Storage, initialize_upgrade_auth, grant_upgrade_auth, revoke_upgrade_auth, propose_upgrade,
  approve_upgrade_proposal, execute_upgrade, transfer_upgrade_admin, accept_upgrade_admin,
}
use credence_contracts.Bond.Upgrade.Calls.{Call, apply, run}
use credence_contracts.Bond.Upgrade.Execution.{execute_upgrade-Executed}

failed : (o : Outcome Storage (Unit {0})) → ((t : Storage) → ¬ (o ≡ done tt t)) → succeeds o ≡ false
failed (done a t) h = absurd (h t refl)
failed (panics x) h = refl

execute_fails :
    (e : Env) (a new_implementation : Address) (id : Option ℕ) (s : Storage)
    → s.implementation ≡ none
    → succeeds (execute_upgrade e a new_implementation id s) ≡ false
execute_fails e a new_implementation id s h =
    failed (execute_upgrade e a new_implementation id s) (λ t k.
      let w = execute_upgrade-Executed e a new_implementation id s t k in
      absurd (ground (arith, h, w.before)))

failed_after : (s : Storage) (o : Outcome Storage (Unit {0})) → succeeds o ≡ false → after s o ≡ s
failed_after s o h = ground arith

stays_none :
    (e : Env) (c : Call) (s : Storage)
    → s.implementation ≡ none
    → (apply e c s).implementation ≡ none
unfolding apply initialize_upgrade_auth grant_upgrade_auth revoke_upgrade_auth propose_upgrade
    approve_upgrade_proposal transfer_upgrade_admin accept_upgrade_admin
stays_none e (Call.set_up admin) s h = ground arith
stays_none e (Call.grant admin a r until) s h = ground arith
stays_none e (Call.revoke admin a) s h = ground arith
stays_none e (Call.propose a new_implementation text required) s h = ground arith
stays_none e (Call.approve a id) s h = ground arith
stays_none e (Call.execute a new_implementation id) s h =
    ap (λ (z : Storage). z.implementation)
      (failed_after s (execute_upgrade e a new_implementation id s)
        (execute_fails e a new_implementation id s h))
    ∙ h
stays_none e (Call.offer admin a) s h = ground arith
stays_none e (Call.accept caller) s h = ground arith

run_stays_none :
    (cs : List (Env × Call)) (s : Storage)
    → s.implementation ≡ none
    → (run cs s).implementation ≡ none
unfolding run
run_stays_none [] s h = h
run_stays_none ((e, c) ∷ cs) s h = run_stays_none cs (apply e c s) (stays_none e c s h)

-- From a storage without an implementation, such as that of a new contract, no sequence of calls on
-- upgrades stores one, and after any such calls every execution of an upgrade fails, whoever calls
-- it, with a proposal or without.
pub upgrades_always_fail :
    (cs : List (Env × Call)) (s : Storage) (e : Env) (a new_implementation : Address)
    (id : Option ℕ)
    → s.implementation ≡ none
    → ((run cs s).implementation ≡ none)
      × (succeeds (execute_upgrade e a new_implementation id (run cs s)) ≡ false)
upgrades_always_fail cs s e a new_implementation id h =
    let still = run_stays_none cs s h in
    (still, execute_fails e a new_implementation id (run cs s) still)
