-- ===== src/Multisig/History.antt =====
-- What no sequence of calls of the multi-signature contract can bring about
-- (contracts/credence_multisig/src/multisig.rs).
use credence_contracts.Prelude.{ℕ, ◌≤◌, ◌≡◌, ◌≢◌, true, false, some, List, [], ◌∷◌, arith}
use credence_contracts.Host.{Address, Hash, Env, after, done, succeeds}
use credence_contracts.Multisig.State.{
  ProposalStatus, Proposal, Storage, has_signed, get_signers, is_operation_executed,
}
use credence_contracts.Multisig.Admin.{initialize, add_signer, remove_signer, set_threshold}
use credence_contracts.Multisig.Proposals.{
  submit_proposal, sign_proposal, count_active_signatures, execute_proposal, reject_proposal,
}
use credence_contracts.Multisig.Prune.{effective_max, prune_one, prune_expired_proposals}
use credence_contracts.Multisig.Calls.{Call, apply, run}
use credence_contracts.Multisig.Counting.{signed_of, count_from_outcome}
use credence_contracts.Multisig.Pruning.{prune_from_keeps}

module _ (h : Hash) where
  abbrev Used : Storage → Type 0
  Used s = is_operation_executed s h ≡ true

  prune_one-Used :
      (e : Env) (id : ℕ) (signers : List Address) (acc : Storage × ℕ)
      → Used acc.0
      → Used (prune_one e id signers acc).0
  unfolding prune_one
  prune_one-Used e id signers acc u = ground arith

  prune-Used :
      (e : Env) (start_id max_iter : ℕ) (s : Storage)
      → Used s
      → Used (after s (prune_expired_proposals e start_id max_iter s))
  unfolding prune_expired_proposals
  prune-Used e start_id max_iter s u = ground (
    arith,
    prune_from_keeps Used e (get_signers s) (λ id acc k. prune_one-Used e id (get_signers s) acc k)
        (effective_max max_iter) start_id (s, 0) u,
  )

  execute-Used :
      (e : Env) (id : ℕ) (s : Storage) → Used s → Used (after s (execute_proposal e id s))
  unfolding execute_proposal count_active_signatures
  execute-Used e id s u = ground (arith, count_from_outcome id 0 (get_signers s) s)

  apply-Used : (e : Env) (c : Call) (s : Storage) → Used s → Used (apply e c s)
  unfolding apply initialize add_signer remove_signer set_threshold submit_proposal sign_proposal
      reject_proposal
  apply-Used e (Call.set_up admin signers limit) s u = ground arith
  apply-Used e (Call.add admin signer) s u = ground arith
  apply-Used e (Call.drop admin signer) s u = ground arith
  apply-Used e (Call.set_limit admin limit) s u = ground arith
  apply-Used e (Call.submit proposer r) s u = ground arith
  apply-Used e (Call.sign signer id) s u = ground arith
  apply-Used e (Call.execute id) s u = execute-Used e id s u
  apply-Used e (Call.reject admin id) s u = ground arith
  apply-Used e (Call.prune start_id max_iter) s u = prune-Used e start_id max_iter s u
  apply-Used e (Call.pausing c) s u = u

  run-Used : (cs : List (Env × Call)) (s : Storage) → Used s → Used (run cs s)
  unfolding run
  run-Used [] s u = u
  run-Used ((e, c) ∷ cs) s u = run-Used cs (apply e c s) (apply-Used e c s u)

execute_uses :
    (e : Env) (id : ℕ) (p : Proposal) (s t : Storage)
    → s.proposal id ≡ some p
    → execute_proposal e id s ≡ done tt t
    → is_operation_executed t p.op_hash ≡ true
unfolding execute_proposal count_active_signatures
execute_uses e id p s t k h = ground (arith, count_from_outcome id 0 (get_signers s) s)

used_refused :
    (e : Env) (id : ℕ) (p : Proposal) (s : Storage)
    → s.proposal id ≡ some p
    → is_operation_executed s p.op_hash ≡ true
    → succeeds (execute_proposal e id s) ≡ false
unfolding execute_proposal count_active_signatures
used_refused e id p s k u = ground (arith, count_from_outcome id 0 (get_signers s) s)

-- An operation is executed once at most: after the execution of a proposal and any further calls, a
-- new setup of the contract among them, no proposal with the same hash can be executed.
pub operation_executes_once :
    (cs : List (Env × Call)) (e e' : Env) (id j : ℕ) (p p' : Proposal) (s t : Storage)
    → s.proposal id ≡ some p
    → execute_proposal e id s ≡ done tt t
    → (run cs t).proposal j ≡ some p'
    → p'.op_hash ≡ p.op_hash
    → succeeds (execute_proposal e' j (run cs t)) ≡ false
operation_executes_once cs e e' id j p p' s t k h k' same =
    used_refused e' j p' (run cs t) k'
      (rw same (run-Used p.op_hash cs t (execute_uses e id p s t k h)))

-- No stored proposal is marked as expired.
abbrev pub NoneExpired : Storage → Type 0
NoneExpired s = (id : ℕ) (p : Proposal) → s.proposal id ≡ some p → p.status ≢ ProposalStatus.expired

prune_one-NoneExpired :
    (e : Env) (id : ℕ) (signers : List Address) (acc : Storage × ℕ)
    → NoneExpired acc.0
    → NoneExpired (prune_one e id signers acc).0
unfolding prune_one
prune_one-NoneExpired e id signers acc n i p k = ground (arith, n i p)

prune-NoneExpired :
    (e : Env) (start_id max_iter : ℕ) (s : Storage)
    → NoneExpired s
    → NoneExpired (after s (prune_expired_proposals e start_id max_iter s))
unfolding prune_expired_proposals
prune-NoneExpired e start_id max_iter s n i p k = ground (
  arith,
  n i p,
  prune_from_keeps NoneExpired e (get_signers s)
      (λ id acc. prune_one-NoneExpired e id (get_signers s) acc) (effective_max max_iter) start_id
      (s, 0) n i p,
)

execute-NoneExpired :
    (e : Env) (id : ℕ) (s : Storage)
    → NoneExpired s
    → NoneExpired (after s (execute_proposal e id s))
unfolding execute_proposal count_active_signatures
execute-NoneExpired e id s n i p k =
    ground (arith, n i p, count_from_outcome id 0 (get_signers s) s)

apply-NoneExpired : (e : Env) (c : Call) (s : Storage) → NoneExpired s → NoneExpired (apply e c s)
unfolding apply initialize add_signer remove_signer set_threshold submit_proposal sign_proposal
    reject_proposal
apply-NoneExpired e (Call.set_up admin signers limit) s n i p k = ground (arith, n i p)
apply-NoneExpired e (Call.add admin signer) s n i p k = ground (arith, n i p)
apply-NoneExpired e (Call.drop admin signer) s n i p k = ground (arith, n i p)
apply-NoneExpired e (Call.set_limit admin limit) s n i p k = ground (arith, n i p)
apply-NoneExpired e (Call.submit proposer r) s n i p k = ground (arith, n i p)
apply-NoneExpired e (Call.sign signer id) s n i p k = ground (arith, n i p)
apply-NoneExpired e (Call.execute id) s n i p k = execute-NoneExpired e id s n i p k
apply-NoneExpired e (Call.reject admin id) s n i p k = ground (arith, n i p)
apply-NoneExpired e (Call.prune start_id max_iter) s n i p k =
    prune-NoneExpired e start_id max_iter s n i p k
apply-NoneExpired e (Call.pausing c) s n i p k = n i p k

-- The status `Expired` is never stored, whatever the calls: the call that writes it panics, which
-- takes the write back.
pub expired_never_stored :
    (cs : List (Env × Call)) (s : Storage) → NoneExpired s → NoneExpired (run cs s)
unfolding run
expired_never_stored [] s n = n
expired_never_stored ((e, c) ∷ cs) s n =
    expired_never_stored cs (apply e c s) (apply-NoneExpired e c s n)

-- A signer that `initialize` was given twice counts twice: its signature alone meets a threshold of
-- two.
pub listed_twice_counts_twice :
    (e : Env) (admin a : Address) (l : List Address) (limit id : ℕ) (s t : Storage)
    → initialize e admin (a ∷ a ∷ l) limit s ≡ done tt t
    → has_signed t id a ≡ true
    → 2 ≤ signed_of t id (get_signers t)
unfolding initialize signed_of
listed_twice_counts_twice e admin a l limit id s t h k = ground arith
