-- ===== src/Timelock/Guarantees.antt =====
-- What the timelock promises (contracts/timelock/src/lib.rs): the delay, the window of execution,
-- execution at most once, and cancellation for good.
use credence_contracts.Prelude.{
  ◌↔◌, ◌∙◌, ap, sym, refl, none, ℕ, ◌+◌, ◌≤◌, ◌≡◌, ◌≢◌, some, true, false, List, subst,
  Option-cases, inl, inr, arith,
}
use credence_contracts.Host.{Outcome, panics, Env, Hash, Address, after, done, succeeds, put}
use credence_contracts.Timelock.{
  pending, executed, cancelled, QueuedOperation, Storage, min_delay_seconds, grace_period,
  queue_operation, execute_operation, cancel_operation,
}
use credence_contracts.Timelock.Calls.{Call, run, deployed}
use credence_contracts.Timelock.Invariant.{
  Inv, deployed-Inv, run-Inv, queue-Inv, execute-Inv, cancel-Inv,
}
use credence_contracts.Timelock.History.{run-Evolves}

returned : (o : Outcome Storage (Unit {0})) → succeeds o ≡ true → (t : Storage) × (o ≡ done tt t)
returned (done a t) h = (t, refl)
returned (panics x) h = absurd (ground (arith, h))

-- When `execute_operation` may return.
pub record MayExecute (e : Env) (id : ℕ) (op : QueuedOperation) (s : Storage) : Type 0 where
  pub stored : s.operation id ≡ some op
  pub waiting : op.status ≡ pending
  pub ripe : op.eta ≤ e.timestamp
  pub alive : e.timestamp ≤ op.expires_at
  pub unused : s.executed_op op.op_hash ≢ some true

-- The storage that it leaves.
abbrev pub executed_storage : ℕ → QueuedOperation → Storage → Storage
executed_storage id op s = record s {
  executed_op = put op.op_hash (some true) s.executed_op;
  operation = put id (some (record op { status = executed })) s.operation;
}

-- What `execute_operation` checks of the entry that it finds.
may_execute :
    (e : Env) (id : ℕ) (op : QueuedOperation) (s t : Storage)
    → s.operation id ≡ some op
    → execute_operation e id s ≡ done tt t
    → MayExecute e id op s × (t ≡ executed_storage id op s)
unfolding execute_operation
may_execute e id op s t k h = (ground arith, ground arith)

unknown_refused :
    (e : Env) (id : ℕ) (s : Storage)
    → s.operation id ≡ none
    → succeeds (execute_operation e id s) ≡ false
unfolding execute_operation
unknown_refused e id s k = ground arith

executes :
    (e : Env) (id : ℕ) (op : QueuedOperation) (s : Storage)
    → MayExecute e id op s
    → execute_operation e id s ≡ done tt (executed_storage id op s)
unfolding execute_operation
executes e id op s m = ground arith

-- Whoever calls it, `execute_operation` returns exactly when the id is stored, pending, not before
-- its time and not after its expiry, and its hash was not executed; it then marks the entry and the
-- hash as executed and changes nothing else. So it fails for an id that is not stored.
pub execute_operation_exact :
    (e : Env) (id : ℕ) (s t : Storage)
    → (execute_operation e id s ≡ done tt t)
      ↔ ((op : QueuedOperation) × MayExecute e id op s × (t ≡ executed_storage id op s))
execute_operation_exact e id s t = (
  λ h. elim (Option-cases (s.operation id)) [
    | inl missing ↦ absurd (ground (arith, h, unknown_refused e id s missing))
    | inr (op, found) ↦ let (m, stored) = may_execute e id op s t found h in (op, m, stored)
  ],
  λ (op, m, stored). executes e id op s m ∙ ap (λ z. done tt z) (sym stored),
)

-- What `queue_operation` has checked and stored when it returns.
pub record Queued (e : Env) (p : Address) (h : Hash) (d id : ℕ) (s t : Storage) : Type 0 where
  pub by_admin : s.admin ≡ some p
  pub long_enough : min_delay_seconds ≤ d
  pub unused : s.executed_op h ≢ some true
  pub entry :
      t.operation id
      ≡ some (record {
        id = id;
        op_hash = h;
        eta = e.timestamp + d;
        expires_at = e.timestamp + d + grace_period;
        status = pending;
      })
  pub hashes_kept : t.executed_op ≡ s.executed_op

pub queue-Queued :
    (e : Env) (p : Address) (h : Hash) (d id : ℕ) (s t : Storage)
    → queue_operation e p h d s ≡ done id t
    → Queued e p h d id s t
unfolding queue_operation
queue-Queued e p h d id s t k = ground arith

queue_after-Inv :
    (e : Env) (p : Address) (h : Hash) (d id : ℕ) (s t : Storage)
    → Inv s
    → queue_operation e p h d s ≡ done id t
    → Inv t
queue_after-Inv e p h d id s t v k = subst (λ o. Inv (after s o)) k (queue-Inv e p h d s v)

-- In any storage that calls have led to: if an operation is queued at one time, and executed after
-- any further calls, then at least a day and the requested delay have passed, and at most a day
-- beyond that delay.
pub queued_operation_waits :
    (before later : List (Env × Call)) (e e' : Env) (p : Address) (h : Hash) (d id : ℕ)
    (t : Storage)
    → queue_operation e p h d (run before deployed) ≡ done id t
    → succeeds (execute_operation e' id (run later t)) ≡ true
    → (e.timestamp + min_delay_seconds ≤ e'.timestamp)
      × (e.timestamp + d ≤ e'.timestamp)
      × (e'.timestamp ≤ e.timestamp + d + grace_period)
queued_operation_waits before later e e' p h d id t k x =
    let v = queue_after-Inv e p h d id _ t (run-Inv before deployed deployed-Inv) k in
    let q = queue-Queued e p h d id _ t k in
    let (st, kept, _) = (run-Evolves later t v).entries id _ q.entry in
    let (u, returns) = returned (execute_operation e' id (run later t)) x in
    let (m, _) = may_execute e' id _ (run later t) u kept returns in
    (omega (arith, m.ripe, q.long_enough), m.ripe, m.alive)

execute_after-Inv :
    (e : Env) (id : ℕ) (s t : Storage) → Inv s → execute_operation e id s ≡ done tt t → Inv t
execute_after-Inv e id s t v k = subst (λ o. Inv (after s o)) k (execute-Inv e id s v)

execute_uses_hash :
    (e : Env) (id : ℕ) (op : QueuedOperation) (s t : Storage)
    → s.operation id ≡ some op
    → execute_operation e id s ≡ done tt t
    → t.executed_op op.op_hash ≡ some true
unfolding execute_operation
execute_uses_hash e id op s t k x = ground arith

used_hash_refused :
    (e : Env) (id : ℕ) (p : Address) (d : ℕ) (op : QueuedOperation) (s : Storage)
    → s.operation id ≡ some op
    → s.executed_op op.op_hash ≡ some true
    → succeeds (execute_operation e id s) ≡ false
unfolding execute_operation
used_hash_refused e id p d op s k x = ground arith

used_hash_not_queued :
    (e : Env) (p : Address) (h : Hash) (d : ℕ) (s : Storage)
    → s.executed_op h ≡ some true
    → succeeds (queue_operation e p h d s) ≡ false
unfolding queue_operation
used_hash_not_queued e p h d s x = ground arith

-- In any storage that calls have led to: once an operation was executed, after any further calls no
-- entry with its hash can be executed, and its hash can not be queued.
pub executed_at_most_once :
    (before later : List (Env × Call)) (e e' : Env) (i j : ℕ) (op op' : QueuedOperation)
    (t : Storage) (p : Address) (d : ℕ)
    → (run before deployed).operation i ≡ some op
    → execute_operation e i (run before deployed) ≡ done tt t
    → (run later t).operation j ≡ some op'
    → op'.op_hash ≡ op.op_hash
    → (succeeds (execute_operation e' j (run later t)) ≡ false)
      × (succeeds (queue_operation e' p op.op_hash d (run later t)) ≡ false)
executed_at_most_once before later e e' i j op op' t p d k x k' same =
    let v = execute_after-Inv e i _ t (run-Inv before deployed deployed-Inv) x in
    let used = (run-Evolves later t v).hashes op.op_hash (execute_uses_hash e i op _ t k x) in
    (
      used_hash_refused e' j p d op' (run later t) k' (rw same used),
      used_hash_not_queued e' p op.op_hash d (run later t) used,
    )

cancel_after-Inv :
    (e : Env) (a : Address) (id : ℕ) (s t : Storage)
    → Inv s
    → cancel_operation e a id s ≡ done tt t
    → Inv t
cancel_after-Inv e a id s t v k = subst (λ o. Inv (after s o)) k (cancel-Inv e a id s v)

cancel_marks :
    (e : Env) (a : Address) (id : ℕ) (s t : Storage)
    → cancel_operation e a id s ≡ done tt t
    → (op : QueuedOperation) × (t.operation id ≡ some op)
      × (op.status ≡ cancelled)
      × (s.admin ≡ some a)
unfolding cancel_operation
cancel_marks e a id s t k = elim (Option-cases (t.operation id)) [
  | inl missing ↦ absurd (ground arith)
  | inr (op, at) ↦ (op, at, ground arith, ground arith)
]

not_pending_refused :
    (e : Env) (a : Address) (id : ℕ) (op : QueuedOperation) (s : Storage)
    → s.operation id ≡ some op
    → op.status ≢ pending
    → (succeeds (execute_operation e id s) ≡ false) × (succeeds (cancel_operation e a id s) ≡ false)
unfolding execute_operation cancel_operation
not_pending_refused e a id op s k n = (ground arith, ground arith)

-- In any storage that calls have led to: `cancel_operation` returns for the admin alone, and after
-- it and any further calls, the operation can be neither executed nor cancelled again.
pub cancelled_for_good :
    (before later : List (Env × Call)) (e e' : Env) (a a' : Address) (id : ℕ) (t : Storage)
    → cancel_operation e a id (run before deployed) ≡ done tt t
    → ((run before deployed).admin ≡ some a)
      × (succeeds (execute_operation e' id (run later t)) ≡ false)
      × (succeeds (cancel_operation e' a' id (run later t)) ≡ false)
cancelled_for_good before later e e' a a' id t k =
    let v = cancel_after-Inv e a id _ t (run-Inv before deployed deployed-Inv) k in
    let (op, at, marked, by) = cancel_marks e a id _ t k in
    let (st, kept, choice) = (run-Evolves later t v).entries id op at in
    let no = not_pending_refused e' a' id _ (run later t) kept (ground arith) in (by, no.0, no.1)
