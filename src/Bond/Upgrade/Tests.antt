-- ===== src/Bond/Upgrade/Tests.antt =====
-- Upgrades on concrete storages (contracts/credence_bond/src/upgrade_auth.rs).
use credence_contracts.Prelude.{◌≡◌, refl, true, false, none, some, [], ◌∷◌, arith}
use credence_contracts.Host.{Env, put, succeeds}
use credence_contracts.Bond.Upgrade.{
  pending, approved, own_auth, UpgradeProposal, Storage, approve_upgrade_proposal, execute_upgrade,
}
use credence_contracts.Bond.Upgrade.Calls.{Call, apply, run}
use credence_contracts.Bond.Upgrade.Order.{ProposalsInOrder, put-EachBacked, apply-ProposalsInOrder}
use credence_contracts.Bond.Upgrade.Stuck.{upgrades_always_fail}

abbrev host : Env
host = record { timestamp = 50; sequence = 1; current_contract = 9; authorized = λ a. true }

-- Proposal 1 for implementation 80 has the approval of 3, and requires another.
abbrev waiting : UpgradeProposal
waiting = record {
  proposal_id = 1;
  proposer_address = 3;
  new_implementation = 80;
  upgrade_data = [];
  created_at = 10;
  status = pending;
  approvals = 3 ∷ [];
  required_approvals = 2;
}

abbrev before : Storage
before = record {
  auth = put 4 (some (own_auth host 4)) (put 3 (some (own_auth host 3)) (λ a. none));
  authorized_upgraders = some (3 ∷ 4 ∷ []);
  implementation = none;
  upgrade_admin = some 3;
  pending_upgrade_admin = none;
  proposal = put 1 (some waiting) (λ i. none);
  next_proposal_id = some 2;
  history = some [];
}

abbrev after_approval : Storage
after_approval = record before {
  proposal =
      put 1 (some (record waiting { approvals = 3 ∷ 4 ∷ []; status = approved })) before.proposal;
}

before-ProposalsInOrder : ProposalsInOrder before
before-ProposalsInOrder = record {
  fresh = λ id h. ground arith;
  backed = λ id.
      put-EachBacked (λ i. none) 1 waiting id ((refl, tt), λ m. absurd (ground (arith, m))) tt;
  no_auths = λ m a. absurd (ground arith);
  no_proposals = λ m id. absurd (ground arith);
}

apply-ProposalsInOrder_example : ProposalsInOrder (apply host (Call.approve 4 1) before)
apply-ProposalsInOrder_example =
    apply-ProposalsInOrder host (Call.approve 4 1) before before-ProposalsInOrder

-- The second approval makes the proposal ready.
approves : apply host (Call.approve 4 1) before ≡ after_approval
unfolding apply approve_upgrade_proposal
approves = refl

upgrades_always_fail_example :
    ((run ((host, Call.approve 4 1) ∷ []) before).implementation ≡ none)
    × (succeeds (execute_upgrade host 3 80 (some 1) (run ((host, Call.approve 4 1) ∷ []) before))
        ≡ false)
upgrades_always_fail_example =
    upgrades_always_fail ((host, Call.approve 4 1) ∷ []) before host 3 80 (some 1) refl
