-- ===== src/Bond/Governance/Tests.antt =====
-- Votes of governors on concrete storages (contracts/credence_bond/src/governance_approval.rs).
use credence_contracts.Prelude.{
  ◌↔◌, ◌≡◌, refl, true, false, none, some, [], ◌∷◌, arith, ◌==◌, ==_iff, ◌&&◌, ◌||◌, if◌then◌else◌,
}
use credence_contracts.Prelude.Int.{pos}
use credence_contracts.Host.{Env, put, done, after, succeeds}
use credence_contracts.Bond.Governance.{
  opened, executed, SlashProposal, Storage, initialize_governance, propose_slash, vote, count_votes,
  is_approved, execute_slash_if_approved, close, cast, propose, run,
}
use credence_contracts.Bond.Governance.Execution.{Executed, Refused, execute_slash_exact}
use credence_contracts.Bond.Governance.Once.{InOrder, decided_once}

abbrev host : Env
host = record { timestamp = 50; sequence = 1; current_contract = 9; authorized = λ a. true }

abbrev slash : SlashProposal
slash = record { id = 0; amount = pos 500; proposed_by = 1; proposed_at = 50; status = opened }

-- Governor 3 has delegated to 4, who has approved, as has governor 1.
abbrev voted : Storage
voted = record {
  next_id = some 1;
  proposal = put 0 (some slash) (λ i. none);
  votes = λ i a. if i == 0 && (a == 1 || a == 4) then some true else none;
  delegated = put 3 (some 4) (λ a. none);
  governors = some (1 ∷ 2 ∷ 3 ∷ []);
  quorum_bps = some 6000;
  min_governors = some 2;
}

abbrev after_execution : Storage
after_execution = close 0 slash executed voted

execute_slash_exact_example :
    ((execute_slash_if_approved 0 voted ≡ done true after_execution)
      ↔ Executed 0 voted after_execution)
    × ((execute_slash_if_approved 0 voted ≡ done false after_execution)
        ↔ Refused 0 voted after_execution)
execute_slash_exact_example = execute_slash_exact 0 voted after_execution

executes : execute_slash_if_approved 0 voted ≡ done true after_execution
unfolding execute_slash_if_approved is_approved count_votes
executes = refl

voted-InOrder : InOrder voted
voted-InOrder id p found = ground (arith, found, ==_iff id 0)

decided_once_example :
    (succeeds (
        execute_slash_if_approved 0
          (run ((host, propose 1 (pos 7)) ∷ (host, cast 2 1 true) ∷ []) after_execution))
      ≡ false)
    × (succeeds (
          vote 2 0 true
            (run ((host, propose 1 (pos 7)) ∷ (host, cast 2 1 true) ∷ []) after_execution))
        ≡ false)
decided_once_example =
    decided_once 0 true true 2 voted after_execution
      ((host, propose 1 (pos 7)) ∷ (host, cast 2 1 true) ∷ []) voted-InOrder executes

-- A new initialisation starts the ids at zero and keeps the votes: the next proposal has them.
abbrev renewed : Storage
renewed = after voted (
    propose_slash host 2 (pos 900)
      (after voted (initialize_governance (1 ∷ 2 ∷ 3 ∷ []) 6000 2 voted)))

old_votes_count : succeeds (execute_slash_if_approved 0 renewed) ≡ true
unfolding execute_slash_if_approved is_approved count_votes propose_slash initialize_governance
old_votes_count = refl

old_votes_carry : is_approved 0 renewed ≡ done true renewed
unfolding is_approved count_votes propose_slash initialize_governance
old_votes_carry = refl
