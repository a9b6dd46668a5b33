-- ===== src/Pausable/Approvals.antt =====
-- The approvals of a pause proposal are distinct, and ids are not given out twice
-- (contracts/credence_multisig/src/pausable.rs).
use credence_contracts.Prelude.{
  ℕ, ◌+◌, ◌≤◌, ◌≡◌, sym, subst, ap, ◌∙◌, Bool, inl, inr, none, Option, arith, Bool-cases, ◌==◌,
  if◌then◌else◌,
}
use credence_contracts.Prelude.Counting.{Counts, bit, Counts-same, Counts-zero, Counts-update}
use credence_contracts.Host.{Address, Env, after, unwrap_or, is_some}
use credence_contracts.Pausable.{
  PauseAction, pause_action, unpause_action, PauseStorage, threshold, set_pause_signer,
  set_pause_threshold, propose_action, pause, unpause, approve_pause_proposal,
  execute_pause_proposal,
}
use credence_contracts.Pausable.Calls.{Call, apply}

-- Has this address approved that proposal?
abbrev pub has_approved : PauseStorage → ℕ → Address → Bool
has_approved s id a = is_some (s.pause_approval id a)

abbrev pub approval_count : PauseStorage → ℕ → ℕ
approval_count s id = unwrap_or (s.pause_approval_count id) 0

-- Every count is the number of addresses that approved; an id not yet given out has no proposal and
-- no approvals.
pub record ApprovalsAgree (s : PauseStorage) : Type 0 where
  pub counted : (id : ℕ) → Counts (has_approved s id) (approval_count s id)
  pub fresh :
      (id : ℕ) (a : Address)
      → unwrap_or s.pause_proposal_counter 0 ≤ id
      → s.pause_approval id a ≡ none
  pub unknown : (id : ℕ) → unwrap_or s.pause_proposal_counter 0 ≤ id → s.pause_proposal id ≡ none

fresh_count :
    (s : PauseStorage)
    → ApprovalsAgree s
    → (id : ℕ) → unwrap_or s.pause_proposal_counter 0 ≤ id
    → approval_count s id ≡ 0
fresh_count s v id h =
    Counts-zero (has_approved s id) (approval_count s id)
      (λ a. ap (is_some {A = Bool}) (v.fresh id a h)) (v.counted id)

-- A call that changes the approvals of one address at most, on one proposal, with the count.
abbrev Moves : Address → PauseStorage → PauseStorage → Type 0
Moves who s t =
    (id : ℕ)
    → ((b : Address)
        → has_approved t id b ≡ (if b == who then has_approved t id who else has_approved s id b))
      × (approval_count t id + bit (has_approved s id who)
          ≡ approval_count s id + bit (has_approved t id who))

Moves-counted :
    (who : Address) (s t : PauseStorage)
    → Moves who s t
    → (id : ℕ) → Counts (has_approved s id) (approval_count s id)
    → Counts (has_approved t id) (approval_count t id)
Moves-counted who s t m id =
    Counts-update (has_approved s id) (has_approved t id) (approval_count s id)
      (approval_count t id) who (m id).0 (m id).1

propose-agree :
    (e : Env) (caller : Address) (act : PauseAction) (s : PauseStorage)
    → ApprovalsAgree s
    → ApprovalsAgree (after s (propose_action e caller act s))
unfolding propose_action
propose-agree e caller act s v = record {
  counted = λ id.
      Moves-counted caller s (after s (propose_action e caller act s))
        (λ i.
          (λ b. ground (arith, v.fresh i b), ground (arith, v.fresh i caller, fresh_count s v i)))
        id (v.counted id);
  fresh = λ id a h. ground (arith, v.fresh id a);
  unknown = λ id h. ground (arith, v.unknown id);
}

approve-agree :
    (e : Env) (signer : Address) (id : ℕ) (s : PauseStorage)
    → ApprovalsAgree s
    → ApprovalsAgree (after s (approve_pause_proposal e signer id s))
unfolding approve_pause_proposal
approve-agree e signer id s v = record {
  counted = λ i.
      Moves-counted signer s (after s (approve_pause_proposal e signer id s))
        (λ j. (λ b. ground arith, ground arith)) i (v.counted i);
  fresh = λ i a h. ground (arith, v.fresh i a, v.unknown i);
  unknown = λ i h. ground (arith, v.unknown i);
}

abbrev SameApprovals : PauseStorage → PauseStorage → Type 0
SameApprovals s t =
    (t.pause_approval ≡ s.pause_approval)
    × (t.pause_approval_count ≡ s.pause_approval_count)
    × (t.pause_proposal_counter ≡ s.pause_proposal_counter)
    × ((id : ℕ) → s.pause_proposal id ≡ none → t.pause_proposal id ≡ none)

SameApprovals-agree : (s t : PauseStorage) → SameApprovals s t → ApprovalsAgree s → ApprovalsAgree t
SameApprovals-agree s t (p, q, r, g) v = record {
  counted = λ id.
      Counts-same (has_approved s id) (has_approved t id) (approval_count t id)
        (λ a. ap (λ (f : ℕ → ℕ → Option Bool). is_some (f id a)) (sym p))
        (subst (Counts (has_approved s id)) (ap (λ (f : ℕ → Option ℕ). unwrap_or (f id) 0) (sym q))
          (v.counted id));
  fresh = λ id a h. ap (λ (f : ℕ → ℕ → Option Bool). f id a) p ∙ v.fresh id a (rw (← r) h);
  unknown = λ id h. g id (v.unknown id (rw (← r) h));
}

set_pause_signer-SameApprovals :
    (e : Env) (admin signer : Address) (enabled : Bool) (s : PauseStorage)
    → SameApprovals s (after s (set_pause_signer e admin signer enabled s))
unfolding set_pause_signer
set_pause_signer-SameApprovals e admin signer enabled s =
    (ground arith, ground arith, ground arith, λ id h. ground arith)

set_pause_threshold-SameApprovals :
    (e : Env) (admin : Address) (limit : ℕ) (s : PauseStorage)
    → SameApprovals s (after s (set_pause_threshold e admin limit s))
unfolding set_pause_threshold
set_pause_threshold-SameApprovals e admin limit s =
    (ground arith, ground arith, ground arith, λ id h. ground arith)

execute-SameApprovals :
    (id : ℕ) (s : PauseStorage) → SameApprovals s (after s (execute_pause_proposal id s))
unfolding execute_pause_proposal
execute-SameApprovals id s = (ground arith, ground arith, ground arith, λ i h. ground arith)

pause-agree :
    (e : Env) (caller : Address) (s : PauseStorage)
    → ApprovalsAgree s
    → ApprovalsAgree (after s (pause e caller s))
unfolding pause
pause-agree e caller s v = elim (Bool-cases (threshold s == 0)) [
  | inl direct ↦
      SameApprovals-agree s (after s (pause e caller s))
        (ground arith, ground arith, ground arith, λ i h. ground arith) v
  | inr voted ↦ rw voted (propose-agree e caller pause_action s v)
]

unpause-agree :
    (e : Env) (caller : Address) (s : PauseStorage)
    → ApprovalsAgree s
    → ApprovalsAgree (after s (unpause e caller s))
unfolding unpause
unpause-agree e caller s v = elim (Bool-cases (threshold s == 0)) [
  | inl direct ↦
      SameApprovals-agree s (after s (unpause e caller s))
        (ground arith, ground arith, ground arith, λ i h. ground arith) v
  | inr voted ↦ rw voted (propose-agree e caller unpause_action s v)
]

-- Every call keeps each approval count equal to the number of addresses that approved, and gives no
-- proposal and no approval to an id that is still to come.
pub apply-ApprovalsAgree :
    (e : Env) (c : Call) (s : PauseStorage) → ApprovalsAgree s → ApprovalsAgree (apply e c s)
unfolding apply
apply-ApprovalsAgree e (Call.set_signer admin signer enabled) s v =
    SameApprovals-agree s _ (set_pause_signer-SameApprovals e admin signer enabled s) v
apply-ApprovalsAgree e (Call.set_limit admin limit) s v =
    SameApprovals-agree s _ (set_pause_threshold-SameApprovals e admin limit s) v
apply-ApprovalsAgree e (Call.request_pause caller) s v = pause-agree e caller s v
apply-ApprovalsAgree e (Call.request_unpause caller) s v = unpause-agree e caller s v
apply-ApprovalsAgree e (Call.approve signer id) s v = approve-agree e signer id s v
apply-ApprovalsAgree e (Call.execute id) s v =
    SameApprovals-agree s _ (execute-SameApprovals id s) v
