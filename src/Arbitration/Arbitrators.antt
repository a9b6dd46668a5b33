-- ===== src/Arbitration/Arbitrators.antt =====
-- Setup, arbitrators and quorum (contracts/arbitration/src/lib.rs).
use credence_contracts.Prelude.{ℕ, false, some, List, [], ◌∷◌, ◌++◌, elem, ◌==◌, not, if◌then◌else◌}
use credence_contracts.Prelude.Int.{ℤ, pos, leb_ℤ}
use credence_contracts.Host.{
  Address, Env, put, remove, Action, pure, gets, modify, ◌>>=◌, ◌>>◌, is_some, require_auth, branch,
}
use credence_contracts.Arbitration.Status.{ArbitrationError, fail_if}
use credence_contracts.Arbitration.State.{Storage, require_not_paused, get_admin, get_registry}

unfoldable pub initialize : Address → Action Storage (Unit {0})
initialize admin = do
  fail_if (is_some (← gets (λ s. s.pause.admin))) ArbitrationError.already_initialized
  modify (λ s. record s {
    pause = record s.pause {
      admin = some admin;
      paused = some false;
      pause_signer_count = some 0;
      pause_threshold = some 0;
      pause_proposal_counter = some 0;
    };
  })

unfoldable pub register_arbitrator : Env → Address → ℤ → Action Storage (Unit {0})
register_arbitrator e arbitrator weight = do
  require_not_paused
  admin ← get_admin
  require_auth e admin
  fail_if (leb_ℤ weight (pos 0)) ArbitrationError.weight_not_positive
  modify (λ s. record s { arbitrator = put arbitrator (some weight) s.arbitrator })
  registry ← gets get_registry
  branch (elem arbitrator registry) (pure tt)
      (modify (λ s. record s { arbitrator_registry = some (registry ++ arbitrator ∷ []) }))

-- The loop that copies the registry without one address.
unfoldable pub without : Address → List Address → List Address
without a [] = []
without a (x ∷ xs) = let rest = without a xs in if x == a then rest else x ∷ rest

unfoldable pub unregister_arbitrator : Env → Address → Action Storage (Unit {0})
unregister_arbitrator e arbitrator = do
  require_not_paused
  admin ← get_admin
  require_auth e admin
  modify (λ s. record s { arbitrator = remove arbitrator s.arbitrator })
  modify (λ s. record s { arbitrator_registry = some (without arbitrator (get_registry s)) })

unfoldable pub set_quorum : Env → Address → ℤ → ℕ → Action Storage (Unit {0})
set_quorum e admin min_total_weight min_voters = do
  require_not_paused
  stored_admin ← get_admin
  require_auth e admin
  fail_if (not (admin == stored_admin)) ArbitrationError.not_admin
  modify (λ s. record s { min_total_weight = some min_total_weight; min_voters = some min_voters })
