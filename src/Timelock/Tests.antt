-- ===== src/Timelock/Tests.antt =====
-- The timelock on concrete storages (contracts/timelock/src/lib.rs).
use credence_contracts.Prelude.{
  ◌↔◌, ℕ, ◌+◌, ◌≤◌, ◌≡◌, refl, some, none, true, false, List, [], ◌∷◌, arith,
}
use credence_contracts.Host.{Env, done, succeeds, put}
use credence_contracts.Timelock
use credence_contracts.Timelock.{
  pending, executed, QueuedOperation, Storage, min_delay_seconds, grace_period, queue_operation,
  execute_operation, cancel_operation, initialize,
}
use credence_contracts.Timelock.Calls.{Call, run, deployed, apply}
use credence_contracts.Timelock.Guarantees.{
  MayExecute, executed_storage, execute_operation_exact, queued_operation_waits,
  executed_at_most_once,
}

abbrev at : ℕ → Env
at now = record { timestamp = now; sequence = 0; current_contract = 0; authorized = λ _. true }

abbrev started : List (Env × Call)
started = (at 5, Call.initialize_with 1) ∷ []

abbrev proposal : QueuedOperation
proposal = record { id = 0; op_hash = 7; eta = 86410; expires_at = 172810; status = pending }

abbrev with_proposal : Storage
with_proposal = record {
  admin = some 1;
  operation_counter = some 1;
  operation = put 0 (some proposal) (λ _. none);
  executed_op = λ _. none;
}

abbrev queued : List (Env × Call)
queued = (at 5, Call.initialize_with 1) ∷ (at 10, Call.queue 1 7 86400) ∷ []

run-queued : run queued deployed ≡ with_proposal
unfolding run apply initialize queue_operation
run-queued = refl

may : MayExecute (at 100000) 0 proposal with_proposal
may = ground arith

execute_operation_exact_example :
    (execute_operation (at 100000) 0 with_proposal
      ≡ done tt (executed_storage 0 proposal with_proposal))
    ↔ ((op : QueuedOperation) × MayExecute (at 100000) 0 op with_proposal
        × (executed_storage 0 proposal with_proposal ≡ executed_storage 0 op with_proposal))
execute_operation_exact_example =
    execute_operation_exact (at 100000) 0 with_proposal (executed_storage 0 proposal with_proposal)

queued_operation_waits_example :
    (10 + min_delay_seconds ≤ 100000) × (10 + 86400 ≤ 100000) × (100000 ≤ 10 + 86400 + grace_period)
unfolding run apply initialize queue_operation execute_operation
queued_operation_waits_example =
    queued_operation_waits started [] (at 10) (at 100000) 1 7 86400 0 with_proposal refl refl

executed_at_most_once_example :
    (succeeds (execute_operation (at 100001) 0 (run [] (executed_storage 0 proposal with_proposal)))
      ≡ false)
    × (succeeds (
          queue_operation
            (at 100001)
            1
            7
            86400
            (run [] (executed_storage 0 proposal with_proposal)))
        ≡ false)
unfolding run apply initialize queue_operation execute_operation
executed_at_most_once_example =
    executed_at_most_once queued [] (at 100000) (at 100001) 0 0 proposal
      (record proposal { status = executed }) (executed_storage 0 proposal with_proposal) 1 86400
      refl refl refl refl

abbrev cancelled_storage : Storage
cancelled_storage = record with_proposal {
  operation =
      put 0 (some (record proposal { status = Timelock.cancelled })) with_proposal.operation;
}
