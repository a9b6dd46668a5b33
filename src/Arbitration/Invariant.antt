-- ===== src/Arbitration/Invariant.antt =====
-- The votes stay in order, and a decided dispute stays as it is (contracts/arbitration/src/lib.rs).
use credence_contracts.Prelude.{
  ℕ, ◌≤◌, ◌≡◌, refl, sym, subst, ap, ◌∙◌, ◌⊎◌, inl, inr, Bool, Option, none, some, [], Bool-cases,
  Option-cases, arith, ◌==◌, ==_iff,
}
use credence_contracts.Prelude.Counting.{Counts, Counts-same, Counts-insert}
use credence_contracts.Prelude.Int.{ℤ, pos, ◌≤ℤ◌, ◌+ℤ◌, int_laws}
use credence_contracts.Host.{Address, Env, put, after, Outcome-cases, unwrap_or, is_some}
use credence_contracts.Arbitration.Status.{voting, resolved, tied}
use credence_contracts.Arbitration.State.{
  Votes, votes_get, Dispute, Storage, get_votes, get_tally, get_voter_count,
}
use credence_contracts.Arbitration.Arbitrators.{
  initialize, register_arbitrator, unregister_arbitrator, set_quorum,
}
use credence_contracts.Arbitration.Disputes.{create_dispute, cancel_dispute, vote, resolve_dispute}
use credence_contracts.Arbitration.Tally.{IsTally, votes_set-IsTally, votes_get_bounds}
use credence_contracts.Arbitration.Calls.{Call, apply}
use credence_contracts.Arbitration.Resolution.{resolve-Resolves}
use credence_contracts.Arbitration.Voting.{Voted, vote-Voted}

-- The votes of each dispute are a map of positive weights, every arbitrator has a positive weight,
-- each counter of voters is the number of addresses that voted, and an id that is still to come has
-- no dispute.
pub record IsOrderly (s : Storage) : Type 0 where
  pub tallies : (id : ℕ) → IsTally (get_votes s id)
  pub weights : (a : Address) (w : ℤ) → s.arbitrator a ≡ some w → pos 1 ≤ℤ w
  pub voters : (id : ℕ) → Counts (λ a. is_some (s.voter_casted id a)) (get_voter_count s id)
  pub fresh : (id : ℕ) → unwrap_or s.dispute_counter 0 ≤ id → s.dispute id ≡ none

-- Calls that leave the votes alone.
abbrev pub SameVotes : Storage → Storage → Type 0
SameVotes s t =
    (t.dispute_votes ≡ s.dispute_votes)
    × (t.voter_casted ≡ s.voter_casted)
    × (t.voter_counter ≡ s.voter_counter)

abbrev pub IsVote : Call → Type 0
IsVote (Call.cast voter id outcome) = Unit
IsVote c = ⊥

pub resolve-outcome :
    (e : Env) (id : ℕ) (s : Storage)
    → IsTally (get_votes s id)
    → (after s (resolve_dispute e id s) ≡ s)
      ⊎ ((d : Dispute) × (d' : Dispute) × (s.dispute id ≡ some d)
          × (d.status ≡ voting)
          × (after s (resolve_dispute e id s) ≡ record s { dispute = put id (some d') s.dispute }))
resolve-outcome e id s v = elim (Outcome-cases (resolve_dispute e id s)) [
  | inl (x, failed) ↦ inl (ap (after s) failed)
  | inr (o, t, ok) ↦
      let r = resolve-Resolves e id o s t v ok in
      elim r.decided [
        | inl (a_tie, zero, result) ↦ inr (
          r.d,
          record r.d { status = tied; outcome = 0 },
          r.stored,
          r.waiting,
          ap (after s) ok ∙ result,
        )
        | inr (no_tie, same, result) ↦ inr (
          r.d,
          record r.d { status = resolved; outcome = o },
          r.stored,
          r.waiting,
          ap (after s) ok ∙ result,
        )
      ]
]

pub apply-SameVotes :
    (e : Env) (c : Call) (s : Storage)
    → ((id : ℕ) → IsTally (get_votes s id))
    → (IsVote c → ⊥)
    → SameVotes s (apply e c s)
unfolding apply initialize register_arbitrator unregister_arbitrator set_quorum create_dispute
    cancel_dispute
apply-SameVotes e (Call.set_up admin) s v n = ground arith
apply-SameVotes e (Call.register arbitrator weight) s v n = ground arith
apply-SameVotes e (Call.unregister arbitrator) s v n = ground arith
apply-SameVotes e (Call.limit admin weight voters) s v n = ground arith
apply-SameVotes e (Call.create creator description duration) s v n = ground arith
apply-SameVotes e (Call.cancel caller id reason) s v n = ground arith
apply-SameVotes e (Call.cast voter id outcome) s v n = absurd (n tt)
apply-SameVotes e (Call.resolve id) s v n = elim (resolve-outcome e id s (v id)) [
  | inl same ↦ rw same (refl, refl, refl)
  | inr (d, d', stored, waiting, result) ↦ rw result (refl, refl, refl)
]
apply-SameVotes e (Call.pausing c) s v n = (refl, refl, refl)

apply-weights :
    (e : Env) (c : Call) (s : Storage)
    → ((id : ℕ) → IsTally (get_votes s id))
    → ((a : Address) (w : ℤ) → s.arbitrator a ≡ some w → pos 1 ≤ℤ w)
    → (a : Address) (w : ℤ) → (apply e c s).arbitrator a ≡ some w
    → pos 1 ≤ℤ w
unfolding apply initialize register_arbitrator unregister_arbitrator set_quorum create_dispute
    cancel_dispute vote
apply-weights e (Call.set_up admin) s v h a w k = ground (arith, h a w)
apply-weights e (Call.register arbitrator weight) s v h a w k = ground (arith, h a w)
apply-weights e (Call.unregister arbitrator) s v h a w k = ground (arith, h a w)
apply-weights e (Call.limit admin weight voters) s v h a w k = ground (arith, h a w)
apply-weights e (Call.create creator description duration) s v h a w k = ground (arith, h a w)
apply-weights e (Call.cancel caller id reason) s v h a w k = ground (arith, h a w)
apply-weights e (Call.cast voter id outcome) s v h a w k = ground (arith, h a w)
apply-weights e (Call.resolve id) s v h a w k = elim (resolve-outcome e id s (v id)) [
  | inl same ↦ h a w (ap (λ (t : Storage). t.arbitrator a) (sym same) ∙ k)
  | inr (d, d', stored, waiting, result) ↦
      h a w (ap (λ (t : Storage). t.arbitrator a) (sym result) ∙ k)
]
apply-weights e (Call.pausing c) s v h a w k = h a w k

apply-fresh :
    (e : Env) (c : Call) (s : Storage)
    → ((id : ℕ) → IsTally (get_votes s id))
    → ((id : ℕ) → unwrap_or s.dispute_counter 0 ≤ id → s.dispute id ≡ none)
    → (id : ℕ) → unwrap_or (apply e c s).dispute_counter 0 ≤ id
    → (apply e c s).dispute id ≡ none
unfolding apply initialize register_arbitrator unregister_arbitrator set_quorum create_dispute
    cancel_dispute vote
apply-fresh e (Call.set_up admin) s v h id k = ground (arith, h id)
apply-fresh e (Call.register arbitrator weight) s v h id k = ground (arith, h id)
apply-fresh e (Call.unregister arbitrator) s v h id k = ground (arith, h id)
apply-fresh e (Call.limit admin weight voters) s v h id k = ground (arith, h id)
apply-fresh e (Call.create creator description duration) s v h id k = ground (arith, h id)
apply-fresh e (Call.cancel caller i reason) s v h id k = ground (arith, h id)
apply-fresh e (Call.cast voter i outcome) s v h id k = ground (arith, h id)
apply-fresh e (Call.resolve i) s v h id k = elim (resolve-outcome e i s (v i)) [
  | inl same ↦ rw same (h id (subst (λ (t : Storage). unwrap_or t.dispute_counter 0 ≤ id) same k))
  | inr (d, d', stored, waiting, result) ↦
      let old = h id (subst (λ (t : Storage). unwrap_or t.dispute_counter 0 ≤ id) result k) in
      ap (λ (t : Storage). t.dispute id) result ∙ ground (arith, ==_iff id i)
]
apply-fresh e (Call.pausing c) s v h id k = h id k

vote_grows :
    (xs : Votes) (o : ℕ) (w : ℤ)
    → IsTally xs
    → pos 1 ≤ℤ w
    → pos 1 ≤ℤ unwrap_or (votes_get xs o) (pos 0) +ℤ w
vote_grows xs o w h p = elim (Option-cases (votes_get xs o)) [
  | inl missing ↦ rw missing (omega (int_laws, p))
  | inr (v, found) ↦ rw found (omega (int_laws, p, (votes_get_bounds xs o v h found).1))
]

Voted-tallies :
    (e : Env) (voter : Address) (id outcome i : ℕ) (s t : Storage)
    → IsOrderly s
    → Voted e voter id outcome s t
    → IsTally (get_votes t i)
Voted-tallies e voter id outcome i s t o v = elim (Bool-cases (i == id)) [
  | inl here ↦ subst IsTally (sym (ground (arith, v.votes i))) (
      votes_set-IsTally (get_votes s id) outcome (get_tally s id outcome +ℤ v.weight)
        v.outcome_given
        (vote_grows (get_votes s id) outcome v.weight (o.tallies id)
          (o.weights voter v.weight v.registered))
        (o.tallies id))
  | inr other ↦ subst IsTally (sym (ground (arith, v.votes i))) (o.tallies i)
]

Voted-voters :
    (e : Env) (voter : Address) (id outcome i : ℕ) (s t : Storage)
    → IsOrderly s
    → Voted e voter id outcome s t
    → Counts (λ a. is_some (t.voter_casted i a)) (get_voter_count t i)
Voted-voters e voter id outcome i s t o v = elim (Bool-cases (i == id)) [
  | inl here ↦
      let same : i ≡ id = ground arith in
      subst (Counts (λ a. is_some (t.voter_casted i a))) (sym (ground (arith, v.counted i))) (
        Counts-insert (λ a. is_some (s.voter_casted id a)) (λ a. is_some (t.voter_casted i a))
          (get_voter_count s id) voter (λ b. ground (arith, v.casted i b))
          (ground (arith, v.first_vote)) (o.voters id))
  | inr other ↦
      subst (Counts (λ a. is_some (t.voter_casted i a))) (sym (ground (arith, v.counted i))) (
        Counts-same (λ a. is_some (s.voter_casted i a)) (λ a. is_some (t.voter_casted i a))
          (get_voter_count s i) (λ a. ground (arith, v.casted i a)) (o.voters i))
]

SameVotes-tallies :
    (s t : Storage) (id : ℕ) → SameVotes s t → IsTally (get_votes s id) → IsTally (get_votes t id)
SameVotes-tallies s t id (p, q, r) h =
    subst (λ (f : ℕ → Option Votes). IsTally (unwrap_or (f id) [])) (sym p) h

SameVotes-voters :
    (s t : Storage) (id : ℕ)
    → SameVotes s t
    → Counts (λ a. is_some (s.voter_casted id a)) (get_voter_count s id)
    → Counts (λ a. is_some (t.voter_casted id a)) (get_voter_count t id)
SameVotes-voters s t id (p, q, r) h =
    subst (λ (f : ℕ → ℕ → Option Bool). Counts (λ a. is_some (f id a)) (get_voter_count t id))
      (sym q)
      (subst
        (λ (f : ℕ → Option ℕ). Counts (λ a. is_some (s.voter_casted id a)) (unwrap_or (f id) 0))
        (sym r) h)

-- Every call keeps the votes in order: the recorded weights are positive, and are a map of outcomes
-- that are not zero; each counter of voters is the number of addresses that voted; no dispute has an
-- id that is still to come.
pub apply-IsOrderly : (e : Env) (c : Call) (s : Storage) → IsOrderly s → IsOrderly (apply e c s)
unfolding apply
apply-IsOrderly e (Call.cast voter id outcome) s o =
    elim (Outcome-cases (vote e voter id outcome s)) [
      | inl (x, failed) ↦ rw failed o
      | inr (u, t, ok) ↦
          let v = vote-Voted e voter id outcome s t ok in
          subst (λ z. IsOrderly (after s z)) (sym ok)
            (record {
              tallies = λ i. Voted-tallies e voter id outcome i s t o v;
              weights = λ a w k.
                  o.weights a w (ap (λ (f : ℕ → Option ℤ). f a) (sym v.same_arbitrators) ∙ k);
              voters = λ i. Voted-voters e voter id outcome i s t o v;
              fresh = λ i k.
                  ap (λ (f : ℕ → Option Dispute). f i) v.same_disputes
                  ∙ o.fresh i (subst (λ z. unwrap_or z 0 ≤ i) v.same_counter k);
            })
    ]
apply-IsOrderly e c s o =
    let same = apply-SameVotes e c s o.tallies (λ x. x) in
    record {
      tallies = λ i. SameVotes-tallies s (apply e c s) i same (o.tallies i);
      weights = apply-weights e c s o.tallies o.weights;
      voters = λ i. SameVotes-voters s (apply e c s) i same (o.voters i);
      fresh = apply-fresh e c s o.tallies o.fresh;
    }
