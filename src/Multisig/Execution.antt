-- ===== src/Multisig/Execution.antt =====
-- What an execution of a proposal rests on (contracts/credence_multisig/src/multisig.rs).
use credence_contracts.Prelude.{
  ◌↔◌, none, Option-cases, inl, inr, ℕ, ◌≤◌, ◌<◌, ◌≡◌, ◌⊎◌, true, false, some, ◌&&◌, length, elem,
  arith,
}
use credence_contracts.Prelude.Counting.{Counts, Counts-same}
use credence_contracts.Host.{Env, u32_max, done, succeeds, put}
use credence_contracts.Pausable
use credence_contracts.Multisig.State.{
  ProposalStatus, Proposal, Storage, is_signer, has_signed, get_signers, get_threshold,
  get_signature_count, is_operation_executed,
}
use credence_contracts.Multisig.Proposals.{execute_proposal}
use credence_contracts.Multisig.Counting.{signed_of, signed_of-Counts, count_active_lem}
use credence_contracts.Multisig.Signers.{SignersAgree}

-- When `execute_proposal` may return.
pub record MayExecute (e : Env) (id : ℕ) (p : Proposal) (s : Storage) : Type 0 where
  pub stored : s.proposal id ≡ some p
  pub running : Pausable.is_paused s.pause ≡ false
  pub waiting : p.status ≡ ProposalStatus.pending
  pub in_time : (p.expires_at ≡ 0) ⊎ (e.timestamp < p.expires_at)
  pub enough : get_threshold s ≤ signed_of s id (get_signers s)
  pub unused : is_operation_executed s p.op_hash ≡ false

-- What it leaves: the count of signatures is that of the current signers.
pub record Executed (id : ℕ) (p : Proposal) (s t : Storage) : Type 0 where
  pub proposal :
      t.proposal ≡ put id (some (record p { status = ProposalStatus.executed })) s.proposal
  pub hash : t.executed_op ≡ put p.op_hash (some true) s.executed_op
  pub count : get_signature_count t id ≡ signed_of s id (get_signers s)
  pub signatures : t.signature ≡ s.signature

short_list : (s : Storage) → SignersAgree s → length (get_signers s) ≤ u32_max
short_list s v = omega (arith, v.counted, v.bounded)

may_execute :
    (e : Env) (id : ℕ) (p : Proposal) (s : Storage)
    → SignersAgree s
    → s.proposal id ≡ some p
    → succeeds (execute_proposal e id s) ≡ true
    → MayExecute e id p s
unfolding execute_proposal
may_execute e id p s v k h = ground (arith, count_active_lem s id (short_list s v))

unknown_refused :
    (e : Env) (id : ℕ) (s : Storage)
    → s.proposal id ≡ none
    → succeeds (execute_proposal e id s) ≡ false
unfolding execute_proposal
unknown_refused e id s k = ground arith

executes :
    (e : Env) (id : ℕ) (p : Proposal) (s : Storage)
    → SignersAgree s
    → MayExecute e id p s
    → succeeds (execute_proposal e id s) ≡ true
unfolding execute_proposal
executes e id p s v m = ground (arith, count_active_lem s id (short_list s v))

-- With the signers in order, `execute_proposal` returns exactly for a stored, pending proposal that
-- has not lapsed, in a contract that is not paused, if the current signers that have signed reach
-- the threshold and the operation was not executed before. So it fails for an id that is not stored.
pub execute_proposal_exact :
    (e : Env) (id : ℕ) (s : Storage)
    → SignersAgree s
    → (succeeds (execute_proposal e id s) ≡ true) ↔ ((p : Proposal) × MayExecute e id p s)
execute_proposal_exact e id s v = (
  λ h. elim (Option-cases (s.proposal id)) [
    | inl missing ↦ absurd (ground (arith, h, unknown_refused e id s missing))
    | inr (p, found) ↦ (p, may_execute e id p s v found h)
  ],
  λ (p, m). executes e id p s v m,
)

-- What an execution that returns leaves.
pub execute_leaves :
    (e : Env) (id : ℕ) (p : Proposal) (s t : Storage)
    → SignersAgree s
    → s.proposal id ≡ some p
    → execute_proposal e id s ≡ done tt t
    → Executed id p s t
unfolding execute_proposal
execute_leaves e id p s t v k h = ground (arith, count_active_lem s id (short_list s v))

-- With the signers in order: an execution that returns was signed by at least as many distinct current signers as the
-- threshold, which is not zero.
pub execute_needs_signers :
    (e : Env) (id : ℕ) (p : Proposal) (s : Storage)
    → SignersAgree s
    → s.proposal id ≡ some p
    → succeeds (execute_proposal e id s) ≡ true
    → (n : ℕ) × Counts (λ a. is_signer s a && has_signed s id a) n × (get_threshold s ≤ n) × (0 < n)
execute_needs_signers e id p s v k h =
    let m = may_execute e id p s v k h in
    (
      signed_of s id (get_signers s),
      Counts-same (λ a. elem a (get_signers s) && has_signed s id a)
          (λ a. is_signer s a && has_signed s id a) (signed_of s id (get_signers s))
          (λ a. rw (v.listed a)) (signed_of-Counts s id (get_signers s) v.distinct),
      m.enough,
      omega (arith, m.enough, v.positive),
    )
