-- ===== src/Bond/Governance/Once.antt =====
-- A proposal is decided once (contracts/credence_bond/src/governance_approval.rs).
use credence_contracts.Prelude.{
  ◌+◌, ◌⊎◌, ◌∙◌, sym, ap, subst, if◌then◌else◌, ℕ, ◌<◌, ◌≡◌, refl, Bool, false, some, List, [], ◌∷◌,
  ◌==◌, ==_iff, Bool-cases, inl, inr, arith,
}
use credence_contracts.Prelude.Int.{ℤ}
use credence_contracts.Host.{Address, Env, Outcome-cases, done, after, succeeds, unwrap_or, put}
use credence_contracts.Bond.Governance.{
  new_proposal, executed, rejected, is_open, SlashProposal, Storage, close, propose_slash, vote,
  delegate, execute_slash_if_approved, Call, propose, cast, hand_over, execute, apply, run,
}
use credence_contracts.Bond.Governance.Execution.{opened_before, ends}

-- Ids are given out in order.
abbrev pub InOrder : Storage → Type 0
InOrder s = (id : ℕ) (p : SlashProposal) → s.proposal id ≡ some p → id < unwrap_or s.next_id 0

abbrev pub Closed : ℕ → Storage → Type 0
Closed id s = (p : SlashProposal) × (s.proposal id ≡ some p) × (is_open p.status ≡ false)

-- A call that keeps this keeps the decision on every proposal.
abbrev Keeps : Storage → Storage → Type 0
Keeps s t = InOrder s → InOrder t × ((id : ℕ) → Closed id s → Closed id t)

abbrev added : Env → Address → ℤ → Storage → Storage
added e a m s = record s {
  next_id = some (unwrap_or s.next_id 0 + 1);
  proposal =
      put (unwrap_or s.next_id 0) (some (new_proposal e (unwrap_or s.next_id 0) a m)) s.proposal;
}

propose_effect :
    (e : Env) (a : Address) (m : ℤ) (s : Storage)
    → (after s (propose_slash e a m s) ≡ s) ⊎ (after s (propose_slash e a m s) ≡ added e a m s)
unfolding propose_slash
propose_effect e a m s = ground arith

vote_effect :
    (a : Address) (i : ℕ) (b : Bool) (s : Storage)
    → ((after s (vote a i b s)).proposal ≡ s.proposal)
      × ((after s (vote a i b s)).next_id ≡ s.next_id)
unfolding vote
vote_effect a i b s = ground arith

delegate_effect :
    (e : Env) (a b : Address) (s : Storage)
    → ((after s (delegate e a b s)).proposal ≡ s.proposal)
      × ((after s (delegate e a b s)).next_id ≡ s.next_id)
unfolding delegate
delegate_effect e a b s = ground arith

Keeps-same : (s t : Storage) → (t.proposal ≡ s.proposal) × (t.next_id ≡ s.next_id) → Keeps s t
Keeps-same s t (same, next) inside = (
  (λ id p found.
      subst (λ n. id < unwrap_or n 0) (sym next) (inside id p (sym (ap (λ f. f id) same) ∙ found))),
  (λ id (p, found, shut). (p, ap (λ f. f id) same ∙ found, shut)),
)

Keeps-added : (e : Env) (a : Address) (m : ℤ) (s : Storage) → Keeps s (added e a m s)
Keeps-added e a m s inside = (
  (λ id p found. elim (Bool-cases (id == unwrap_or s.next_id 0)) [
    | inl new ↦ ground (arith, ==_iff id (unwrap_or s.next_id 0), new)
    | inr old ↦ omega (arith, inside id p (ground (arith, found, old)))
  ]),
  (λ id (p, found, shut).
      (p, ground (arith, inside id p found, ==_iff id (unwrap_or s.next_id 0), found), shut)),
)

Keeps-close :
    (i : ℕ) (p : SlashProposal) (b : Bool) (s : Storage)
    → s.proposal i ≡ some p
    → Keeps s (close i p (if b then executed else rejected) s)
Keeps-close i p b s here inside = (
  (λ id q found. elim (Bool-cases (id == i)) [
    | inl same ↦ inside id p (ground (arith, ==_iff id i, same, here))
    | inr other ↦ inside id q (ground (arith, found, other))
  ]),
  (λ id (q, found, shut). elim (Bool-cases (id == i)) [
    | inl same ↦
        (record p { status = if b then executed else rejected }, ground (arith, same), ground arith)
    | inr other ↦ (q, ground (arith, found, other), shut)
  ]),
)

execute-Keeps : (i : ℕ) (s : Storage) → Keeps s (after s (execute_slash_if_approved i s))
execute-Keeps i s = elim (Outcome-cases (execute_slash_if_approved i s)) [
  | inl (q, fails) ↦ subst (λ o. Keeps s (after s o)) (sym fails) (Keeps-same s s (refl, refl))
  | inr (b, t, returns) ↦
      let (p, found, is_opened, approved) = opened_before i b s t returns in
      subst (λ o. Keeps s (after s o)) (sym (ends i p b s found is_opened approved))
        (Keeps-close i p b s found)
]

apply-Keeps : (e : Env) (c : Call) (s : Storage) → Keeps s (apply e c s)
unfolding apply
apply-Keeps e (propose a m) s = elim (propose_effect e a m s) [
  | inl same ↦ subst (Keeps s) (sym same) (Keeps-same s s (refl, refl))
  | inr new ↦ subst (Keeps s) (sym new) (Keeps-added e a m s)
]
apply-Keeps e (cast a i b) s = Keeps-same s (after s (vote a i b s)) (vote_effect a i b s)
apply-Keeps e (hand_over a b) s =
    Keeps-same s (after s (delegate e a b s)) (delegate_effect e a b s)
apply-Keeps e (execute i) s = execute-Keeps i s

run-Closed :
    (cs : List (Env × Call)) (id : ℕ) (s : Storage) → InOrder s → Closed id s → Closed id (run cs s)
unfolding run
run-Closed [] id s inside closed = closed
run-Closed ((e, c) ∷ cs) id s inside closed =
    let (inside', closes) = apply-Keeps e c s inside in
    run-Closed cs id (apply e c s) inside' (closes id closed)

Closed-refused :
    (id : ℕ) (s : Storage) (a : Address) (b : Bool)
    → Closed id s
    → (succeeds (execute_slash_if_approved id s) ≡ false) × (succeeds (vote a id b s) ≡ false)
unfolding execute_slash_if_approved vote
Closed-refused id s a b (p, found, shut) =
    (ground (arith, found, shut), ground (arith, found, shut))

-- Where every proposal has an id below the next one, a call of execute_slash_if_approved that
-- returns, with whatever answer, decides its proposal for good: after any calls on proposals, votes
-- and delegates, it is neither executed again nor voted on. The calls do not include
-- initialize_governance, which starts the ids again at zero.
pub decided_once :
    (id : ℕ) (b approve : Bool) (a : Address) (s t : Storage) (cs : List (Env × Call))
    → InOrder s
    → execute_slash_if_approved id s ≡ done b t
    → (succeeds (execute_slash_if_approved id (run cs t)) ≡ false)
      × (succeeds (vote a id approve (run cs t)) ≡ false)
decided_once id b approve a s t cs inside returns =
    let (p, found, is_opened, approved) = opened_before id b s t returns in
    let stored : t ≡ close id p (if b then executed else rejected) s =
      ground (arith, returns, ends id p b s found is_opened approved) in
    let (inside', _) = Keeps-close id p b s found inside in
    Closed-refused id (run cs t) a approve (
      run-Closed cs id t (subst InOrder (sym stored) inside') (
        subst (Closed id) (sym stored) (
          record p { status = if b then executed else rejected },
          ground (arith, ==_iff id id),
          ground arith,
        )))
