-- ===== src/Timelock/Calls.antt =====
-- Sequences of calls of the timelock (contracts/timelock/src/lib.rs), each in the environment that
-- the host gives it. A call that panics leaves the storage as it was.
use credence_contracts.Prelude.{ℕ, List, [], ◌∷◌, none}
use credence_contracts.Host.{Address, Hash, Env, after}
use credence_contracts.Timelock.{
  Storage, initialize, queue_operation, execute_operation, cancel_operation,
}

-- The entry points that write.
pub data Call : Type 0 where
  initialize_with : Address → Call
  queue : Address → Hash → ℕ → Call
  execute : ℕ → Call
  cancel : Address → ℕ → Call

unfoldable pub apply : Env → Call → Storage → Storage
apply e (Call.initialize_with admin) s = after s (initialize admin s)
apply e (Call.queue proposer op_hash delay) s = after s (queue_operation e proposer op_hash delay s)
apply e (Call.execute op_id) s = after s (execute_operation e op_id s)
apply e (Call.cancel admin op_id) s = after s (cancel_operation e admin op_id s)

unfoldable pub run : List (Env × Call) → Storage → Storage
run [] s = s
run ((e, c) ∷ cs) s = run cs (apply e c s)

-- Storage of a contract that was just deployed.
abbrev pub deployed : Storage
deployed = record {
  admin = none;
  operation_counter = none;
  operation = λ _. none;
  executed_op = λ _. none;
}
