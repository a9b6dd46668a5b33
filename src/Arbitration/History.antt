-- ===== src/Arbitration/History.antt =====
-- What lasts from one call of the arbitration contract to the next
-- (contracts/arbitration/src/lib.rs).
use credence_contracts.Prelude.{
  ℕ, ◌≡◌, subst, ap, ◌∙◌, inl, inr, Bool, true, false, Option, some, List, [], ◌∷◌, arith, ==_iff,
}
use credence_contracts.Host.{Address, Env, done, succeeds, after, Outcome-cases, unwrap_or, is_some}
use credence_contracts.Arbitration.Status.{resolved, tied, cancelled, DisputeStatus}
use credence_contracts.Arbitration.State.{Dispute, Storage}
use credence_contracts.Arbitration.Arbitrators.{
  initialize, register_arbitrator, unregister_arbitrator, set_quorum,
}
use credence_contracts.Arbitration.Disputes.{create_dispute, cancel_dispute, vote}
use credence_contracts.Arbitration.Calls.{Call, apply, run}
use credence_contracts.Arbitration.Invariant.{
  IsOrderly, apply-IsOrderly, resolve-outcome, apply-SameVotes,
}
use credence_contracts.Arbitration.Voting.{vote-Voted}

abbrev pub is_ended : DisputeStatus → Bool
is_ended resolved = true
is_ended tied = true
is_ended cancelled = true
is_ended _ = false

apply_keeps :
    (e : Env) (c : Call) (id : ℕ) (d : Dispute) (s : Storage)
    → IsOrderly s
    → s.dispute id ≡ some d
    → is_ended d.status ≡ true
    → (apply e c s).dispute id ≡ some d
unfolding apply initialize register_arbitrator unregister_arbitrator set_quorum create_dispute
    cancel_dispute vote
apply_keeps e (Call.set_up admin) id d s o h k = ground arith
apply_keeps e (Call.register arbitrator weight) id d s o h k = ground arith
apply_keeps e (Call.unregister arbitrator) id d s o h k = ground arith
apply_keeps e (Call.limit admin weight voters) id d s o h k = ground arith
apply_keeps e (Call.create creator description duration) id d s o h k =
    ground (arith, o.fresh id, ==_iff id (unwrap_or s.dispute_counter 0))
apply_keeps e (Call.cancel caller i reason) id d s o h k = ground (arith, ==_iff id i)
apply_keeps e (Call.cast voter i outcome) id d s o h k = ground arith
apply_keeps e (Call.resolve i) id d s o h k = elim (resolve-outcome e i s (o.tallies i)) [
  | inl same ↦ ap (λ (t : Storage). t.dispute id) same ∙ h
  | inr (d', d'', stored, waiting, result) ↦
      ap (λ (t : Storage). t.dispute id) result ∙ ground (arith, ==_iff id i)
]
apply_keeps e (Call.pausing c) id d s o h k = h

-- With the votes in order: a dispute that is resolved, tied or cancelled stays as it is, its outcome included, whatever is
-- called later.
pub ended_for_good :
    (cs : List (Env × Call)) (id : ℕ) (d : Dispute) (s : Storage)
    → IsOrderly s
    → s.dispute id ≡ some d
    → is_ended d.status ≡ true
    → (run cs s).dispute id ≡ some d
unfolding run
ended_for_good [] id d s o h k = h
ended_for_good ((e, c) ∷ cs) id d s o h k =
    ended_for_good cs id d (apply e c s) (apply-IsOrderly e c s o) (apply_keeps e c id d s o h k) k

apply_remembers :
    (e : Env) (c : Call) (id : ℕ) (a : Address) (s : Storage)
    → IsOrderly s
    → is_some (s.voter_casted id a) ≡ true
    → is_some ((apply e c s).voter_casted id a) ≡ true
unfolding apply
apply_remembers e (Call.cast voter i outcome) id a s o h =
    elim (Outcome-cases (vote e voter i outcome s)) [
      | inl (x, failed) ↦ rw failed h
      | inr (u, t, ok) ↦ rw ok (ground (arith, (vote-Voted e voter i outcome s t ok).casted id a))
    ]
apply_remembers e c id a s o h =
    ap (λ (f : ℕ → ℕ → Option Bool). is_some (f id a)) (apply-SameVotes e c s o.tallies (λ x. x)).1
    ∙ h

remembers :
    (cs : List (Env × Call)) (id : ℕ) (a : Address) (s : Storage)
    → IsOrderly s
    → is_some (s.voter_casted id a) ≡ true
    → is_some ((run cs s).voter_casted id a) ≡ true
unfolding run
remembers [] id a s o h = h
remembers ((e, c) ∷ cs) id a s o h =
    remembers cs id a (apply e c s) (apply-IsOrderly e c s o) (apply_remembers e c id a s o h)

vote_refused :
    (e : Env) (a : Address) (id outcome : ℕ) (s : Storage)
    → is_some (s.voter_casted id a) ≡ true
    → succeeds (vote e a id outcome s) ≡ false
unfolding vote
vote_refused e a id outcome s h = ground arith

-- With the votes in order, an address votes on a dispute once at most: after its vote and any further calls, a second vote
-- fails, whatever its outcome and even if the address was registered anew.
pub votes_once :
    (cs : List (Env × Call)) (e e' : Env) (a : Address) (id outcome outcome' : ℕ) (s t : Storage)
    → IsOrderly s
    → vote e a id outcome s ≡ done tt t
    → succeeds (vote e' a id outcome' (run cs t)) ≡ false
unfolding apply
votes_once cs e e' a id outcome outcome' s t o h =
    let v = vote-Voted e a id outcome s t h in
    let orderly =
      subst (λ z. IsOrderly (after s z)) h (apply-IsOrderly e (Call.cast a id outcome) s o) in
    vote_refused e' a id outcome' (run cs t)
      (remembers cs id a t orderly (ground (arith, v.casted id a)))
