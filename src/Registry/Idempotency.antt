-- ===== src/Registry/Idempotency.antt =====
-- Transactions that run once (contracts/credence_registry/src/idempotency.rs).
use credence_contracts.Prelude.{
  ℕ, ◌≡◌, refl, ap, ◌∙◌, inl, inr, Option, none, some, List, [], ◌∷◌, ◌==◌, ==_iff, not,
  if◌then◌else◌, arith, Option-cases,
}
use credence_contracts.Host.{
  Address, Hash, Env, Entries, done, panics, put, Action, gets, modify, pure, ◌>>=◌, ◌>>◌, branch,
  after, Outcome-cases,
}
use credence_contracts.Registry.Hashes.{Bytes}

pub record StoredResult : Type 0 where
  pub caller : Address
  pub result : Bytes
  pub timestamp : ℕ

-- The results under `StorageKey`, beside what the transactions themselves work on.
pub record Store (S : Type 0) : Type 0 where
  pub idempotent : Entries StoredResult
  pub rest : S

-- `Result<Bytes, IdempotencyError>`
pub data Reply : Type 0 where
  ok : Bytes → Reply
  duplicate_different_caller : Reply

-- A transaction: what the host answers, its id, its caller, and what it does.
pub record Request (S : Type 0) : Type 0 where
  pub host : Env
  pub tx_id : Hash
  pub caller : Address
  pub execute : Action S Bytes

module _ {S : Type 0} where
  abbrev pub execute_on_rest : Action S Bytes → Action (Store S) Bytes
  execute_on_rest execute w = elim (execute w.rest) [
    | done a s ↦ done a (record w { rest = s })
    | panics x ↦ panics x
  ]

  abbrev pub execute_first : Env → Hash → Address → Action S Bytes → Action (Store S) Reply
  execute_first e tx_id caller execute = do
    result ← execute_on_rest execute
    modify (λ w. record w {
      idempotent =
          put tx_id (some (record { caller = caller; result = result; timestamp = e.timestamp }))
            w.idempotent;
    })
    pure (ok result)

  abbrev pub replay : Address → StoredResult → Action (Store S) Reply
  replay caller existing =
      branch (not (existing.caller == caller)) (pure duplicate_different_caller)
        (pure (ok existing.result))

  abbrev pub handle_existing :
      Env → Hash → Address → Action S Bytes → Option StoredResult → Action (Store S) Reply
  handle_existing e tx_id caller execute none = execute_first e tx_id caller execute
  handle_existing e tx_id caller execute (some existing) = replay caller existing

  unfoldable pub handle : Env → Hash → Address → Action S Bytes → Action (Store S) Reply
  handle e tx_id caller execute = do
    existing ← gets (λ w. w.idempotent tx_id)
    handle_existing e tx_id caller execute existing

  unfoldable pub handle_all : List (Request S) → Store S → Store S
  handle_all [] w = w
  handle_all (r ∷ rs) w = handle_all rs (after w (handle r.host r.tx_id r.caller r.execute w))

  stays :
      (r : Request S) (tx : Hash) (x : StoredResult) (w : Store S)
      → w.idempotent tx ≡ some x
      → (after w (handle r.host r.tx_id r.caller r.execute w)).idempotent tx ≡ some x
  unfolding handle
  stays r tx x w h = elim (Option-cases (w.idempotent r.tx_id)) [
    | inl fresh ↦ elim (Outcome-cases (r.execute w.rest)) [
      | inl (y, failed) ↦ ground arith
      | inr (b, s, done_it) ↦ ground (arith, ap w.idempotent)
    ]
    | inr (y, found) ↦ ground arith
  ]

  stored_stays :
      (rs : List (Request S)) (tx : Hash) (x : StoredResult) (w : Store S)
      → w.idempotent tx ≡ some x
      → (handle_all rs w).idempotent tx ≡ some x
  unfolding handle_all handle
  stored_stays [] tx x w h = h
  stored_stays (r ∷ rs) tx x w h =
      stored_stays rs tx x (after w (handle r.host r.tx_id r.caller r.execute w)) (stays r tx x w h)

  -- What the answer to a known transaction is.
  replayed :
      (e : Env) (tx : Hash) (caller : Address) (execute : Action S Bytes) (x : StoredResult)
      (w : Store S)
      → w.idempotent tx ≡ some x
      → handle e tx caller execute w
        ≡ done (if caller == x.caller then ok x.result else duplicate_different_caller) w
  unfolding handle
  replayed e tx caller execute x w h =
      ground (arith, ==_iff caller x.caller, ==_iff x.caller caller)

  recorded :
      (e : Env) (tx : Hash) (caller : Address) (execute : Action S Bytes) (result : Bytes)
      (w w' : Store S)
      → handle e tx caller execute w ≡ done (ok result) w'
      → (x : StoredResult) × (w'.idempotent tx ≡ some x) × (x.caller ≡ caller) × (x.result ≡ result)
  unfolding handle
  recorded e tx caller execute result w w' h = elim (Option-cases (w.idempotent tx)) [
    | inl fresh ↦ elim (Outcome-cases (execute w.rest)) [
      | inl (y, failed) ↦ absurd (ground arith)
      | inr (b, s, done_it) ↦ (
        record { caller = caller; result = b; timestamp = e.timestamp },
        ground arith,
        refl,
        ground arith,
      )
    ]
    | inr (y, found) ↦ (y, ground arith, ground (arith, ==_iff y.caller caller), ground arith)
  ]

  -- A transaction that was answered with a result is not run again: whatever transactions are handled
  -- in between, handling its id once more changes nothing and returns the same result to the same
  -- caller, and an error to any other.
  pub handled_once :
      (e : Env) (tx : Hash) (caller : Address) (execute : Action S Bytes) (result : Bytes)
      (w w' : Store S) (later : List (Request S)) (e' : Env) (caller' : Address)
      (execute' : Action S Bytes)
      → handle e tx caller execute w ≡ done (ok result) w'
      → let end = handle_all later w' in
        handle e' tx caller' execute' end
        ≡ done (if caller' == caller then ok result else duplicate_different_caller) end
  handled_once e tx caller execute result w w' later e' caller' execute' h =
      let (x, found, by, what) = recorded e tx caller execute result w w' h in
      let end = handle_all later w' in
      replayed e' tx caller' execute' x end (stored_stays later tx x w' found)
      ∙ ap
          (λ (a : Address).
            done (if caller' == a then ok x.result else duplicate_different_caller) end)
          by
      ∙ ap
          (λ (b : Bytes). done (if caller' == caller then ok b else duplicate_different_caller) end)
          what
