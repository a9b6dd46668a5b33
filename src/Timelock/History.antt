-- ===== src/Timelock/History.antt =====
-- How calls of the timelock may change what is stored (contracts/timelock/src/lib.rs).
use credence_contracts.Prelude.{ℕ, ◌≡◌, refl, ◌⊎◌, inr, some, true, List, [], ◌∷◌, arith}
use credence_contracts.Host.{Env, after, unwrap_or}
use credence_contracts.Timelock.{
  OperationStatus, pending, QueuedOperation, Storage, initialize, queue_operation,
  execute_operation, cancel_operation,
}
use credence_contracts.Timelock.Calls.{Call, apply, run}
use credence_contracts.Timelock.Invariant.{Inv, apply-Inv}

-- What a later storage still says of an entry: only its status may differ, and only if it was
-- pending.
abbrev pub Kept : QueuedOperation → ℕ → Storage → Type 0
Kept op id s =
    (st : OperationStatus) × (s.operation id ≡ some (record op { status = st }))
    × ((op.status ≡ pending) ⊎ (st ≡ op.status))

-- No hash is forgotten, and every entry is kept.
pub record Evolves (s t : Storage) : Type 0 where
  pub hashes : (h : ℕ) → s.executed_op h ≡ some true → t.executed_op h ≡ some true
  pub entries : (id : ℕ) (op : QueuedOperation) → s.operation id ≡ some op → Kept op id t

pub Evolves-refl : (s : Storage) → Evolves s s
Evolves-refl s = record { hashes = λ h k. k; entries = λ id op k. (op.status, k, inr refl) }

joined :
    (a b c : OperationStatus)
    → (a ≡ pending) ⊎ (b ≡ a)
    → (b ≡ pending) ⊎ (c ≡ b)
    → (a ≡ pending) ⊎ (c ≡ a)
joined a b c h k = ground arith

pub Evolves-trans : (s t u : Storage) → Evolves s t → Evolves t u → Evolves s u
Evolves-trans s t u f g = record {
  hashes = λ h k. g.hashes h (f.hashes h k);
  entries = λ id op k.
      let (b, e, p) = f.entries id op k in
      let (c, e', q) = g.entries id (record op { status = b }) e in
      (c, e', joined op.status b c p q);
}

initialize-Evolves : (a : ℕ) (s : Storage) → Evolves s (after s (initialize a s))
unfolding initialize
initialize-Evolves a s = record {
  hashes = λ h k. ground arith;
  entries = λ id op k. (op.status, ground arith, ground arith);
}

queue-Evolves :
    (e : Env) (p h d : ℕ) (s : Storage) → Inv s → Evolves s (after s (queue_operation e p h d s))
unfolding queue_operation
queue-Evolves e p h d s v = record {
  hashes = λ h' k. ground arith;
  entries = λ id op k. (op.status, grind (arith, v.fresh id), ground arith);
}

execute-Evolves :
    (e : Env) (i : ℕ) (s : Storage) → Inv s → Evolves s (after s (execute_operation e i s))
unfolding execute_operation
execute-Evolves e i s v = record {
  hashes = λ h' k. ground arith;
  entries = λ id op k.
      let t = after s (execute_operation e i s) in
      ((unwrap_or (t.operation id) op).status, ground arith, ground arith);
}

cancel-Evolves :
    (e : Env) (a i : ℕ) (s : Storage) → Inv s → Evolves s (after s (cancel_operation e a i s))
unfolding cancel_operation
cancel-Evolves e a i s v = record {
  hashes = λ h' k. ground arith;
  entries = λ id op k.
      let t = after s (cancel_operation e a i s) in
      ((unwrap_or (t.operation id) op).status, ground arith, ground arith);
}

apply-Evolves : (e : Env) (c : Call) (s : Storage) → Inv s → Evolves s (apply e c s)
unfolding apply
apply-Evolves e (Call.initialize_with a) s v = initialize-Evolves a s
apply-Evolves e (Call.queue p h d) s v = queue-Evolves e p h d s v
apply-Evolves e (Call.execute i) s v = execute-Evolves e i s v
apply-Evolves e (Call.cancel a i) s v = cancel-Evolves e a i s v

pub run-Evolves : (cs : List (Env × Call)) (s : Storage) → Inv s → Evolves s (run cs s)
unfolding run
run-Evolves [] s v = Evolves-refl s
run-Evolves ((e, c) ∷ cs) s v =
    let t = apply e c s in
    Evolves-trans s t (run cs t) (apply-Evolves e c s v) (run-Evolves cs t (apply-Inv e c s v))
