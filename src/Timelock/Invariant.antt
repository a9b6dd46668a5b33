-- ===== src/Timelock/Invariant.antt =====
-- What holds of the timelock's storage between two calls, and how an entry may change
-- (contracts/timelock/src/lib.rs).
use credence_contracts.Prelude.{ℕ, ◌+◌, ◌≤◌, ◌≡◌, refl, none, some, true, List, [], ◌∷◌, arith}
use credence_contracts.Host.{Address, Hash, Env, unwrap_or, after}
use credence_contracts.Timelock.{
  executed, QueuedOperation, Storage, grace_period, initialize, queue_operation, execute_operation,
  cancel_operation,
}
use credence_contracts.Timelock.Calls.{Call, apply, run, deployed}

-- Ids are given out once; an entry carries its id, expires a grace period after its time, and is
-- marked executed only together with its hash.
pub record Inv (s : Storage) : Type 0 where
  pub fresh : (id : ℕ) → unwrap_or s.operation_counter 0 ≤ id → s.operation id ≡ none
  pub closed : s.admin ≡ none → (id : ℕ) → s.operation id ≡ none
  pub named : (id : ℕ) (op : QueuedOperation) → s.operation id ≡ some op → op.id ≡ id
  pub expiry :
      (id : ℕ) (op : QueuedOperation)
      → s.operation id ≡ some op
      → op.expires_at ≡ op.eta + grace_period
  pub recorded :
      (id : ℕ) (op : QueuedOperation)
      → s.operation id ≡ some op
      → op.status ≡ executed
      → s.executed_op op.op_hash ≡ some true

pub deployed-Inv : Inv deployed
deployed-Inv = record {
  fresh = λ id h. refl;
  closed = λ h id. refl;
  named = λ id op h. ground arith;
  expiry = λ id op h. ground arith;
  recorded = λ id op h k. ground arith;
}

initialize-Inv : (a : Address) (s : Storage) → Inv s → Inv (after s (initialize a s))
unfolding initialize
initialize-Inv a s v = record {
  fresh = λ id h. grind (arith, v.closed);
  closed = λ h id. grind (arith, v.closed);
  named = λ id op h. ground (arith, v.named id op);
  expiry = λ id op h. ground (arith, v.expiry id op);
  recorded = λ id op h k. ground (arith, v.recorded id op);
}

pub queue-Inv :
    (e : Env) (p : Address) (h : Hash) (d : ℕ) (s : Storage)
    → Inv s
    → Inv (after s (queue_operation e p h d s))
unfolding queue_operation
queue-Inv e p h d s v = record {
  fresh = λ id k. ground (arith, v.fresh id);
  closed = λ k id. grind (arith, v.closed);
  named = λ id op k. ground (arith, v.named id op);
  expiry = λ id op k. ground (arith, v.expiry id op);
  recorded = λ id op k l. ground (arith, v.recorded id op);
}

pub execute-Inv : (e : Env) (i : ℕ) (s : Storage) → Inv s → Inv (after s (execute_operation e i s))
unfolding execute_operation
execute-Inv e i s v = record {
  fresh = λ id k. ground (arith, v.fresh id);
  closed = λ k id. grind (arith, v.closed);
  named = λ id op k. grind (arith, v.named id);
  expiry = λ id op k. grind (arith, v.expiry id);
  recorded = λ id op k l. grind (arith, v.recorded id);
}

pub cancel-Inv :
    (e : Env) (a : Address) (i : ℕ) (s : Storage) → Inv s → Inv (after s (cancel_operation e a i s))
unfolding cancel_operation
cancel-Inv e a i s v = record {
  fresh = λ id k. ground (arith, v.fresh id);
  closed = λ k id. grind (arith, v.closed);
  named = λ id op k. grind (arith, v.named id);
  expiry = λ id op k. grind (arith, v.expiry id);
  recorded = λ id op k l. grind (arith, v.recorded id);
}

-- Every call, whether it returns or panics, keeps the invariant.
pub apply-Inv : (e : Env) (c : Call) (s : Storage) → Inv s → Inv (apply e c s)
unfolding apply
apply-Inv e (Call.initialize_with a) s v = initialize-Inv a s v
apply-Inv e (Call.queue p h d) s v = queue-Inv e p h d s v
apply-Inv e (Call.execute i) s v = execute-Inv e i s v
apply-Inv e (Call.cancel a i) s v = cancel-Inv e a i s v

pub run-Inv : (cs : List (Env × Call)) (s : Storage) → Inv s → Inv (run cs s)
unfolding run
run-Inv [] s v = v
run-Inv ((e, c) ∷ cs) s v = run-Inv cs (apply e c s) (apply-Inv e c s v)
