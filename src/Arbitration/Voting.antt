-- ===== src/Arbitration/Voting.antt =====
-- What the contract keeps true of votes and disputes (contracts/arbitration/src/lib.rs).
use credence_contracts.Prelude.{
  ℕ, ◌+◌, ◌≤◌, ◌<◌, ◌≡◌, inl, inr, true, none, some, Option-cases, arith, ◌==◌, if◌then◌else◌,
}
use credence_contracts.Prelude.Int.{ℤ, pos, ◌+ℤ◌}
use credence_contracts.Host.{Address, Env, done, unwrap_or, is_some}
use credence_contracts.Arbitration.Status.{voting}
use credence_contracts.Arbitration.State.{
  votes_set, Dispute, Storage, get_votes, get_tally, get_voter_count,
}
use credence_contracts.Arbitration.Disputes.{vote}
use credence_contracts.Arbitration.Tally.{votes_get-votes_set}

-- What a vote that returned has checked and written.
pub record Voted (e : Env) (voter : Address) (id outcome : ℕ) (s t : Storage) : Type 0 where
  pub d : Dispute
  pub weight : ℤ
  pub authorized : e.authorized voter ≡ true
  pub outcome_given : 0 < outcome
  pub registered : s.arbitrator voter ≡ some weight
  pub stored : s.dispute id ≡ some d
  pub open_for_votes : d.status ≡ voting
  pub started : d.voting_start ≤ e.timestamp
  pub in_time : e.timestamp ≤ d.voting_end
  pub first_vote : s.voter_casted id voter ≡ none
  pub casted :
      (i : ℕ) (a : Address)
      → is_some (t.voter_casted i a) ≡ (
          if i == id
          then (if a == voter then true else is_some (s.voter_casted i a))
          else is_some (s.voter_casted i a))
  pub counted :
      (i : ℕ)
      → get_voter_count t i ≡ (if i == id then get_voter_count s id + 1 else get_voter_count s i)
  pub votes :
      (i : ℕ)
      → get_votes t i ≡ (
          if i == id
          then votes_set (get_votes s id) outcome (get_tally s id outcome +ℤ weight)
          else get_votes s i)
  pub same_disputes : t.dispute ≡ s.dispute
  pub same_counter : t.dispute_counter ≡ s.dispute_counter
  pub same_arbitrators : t.arbitrator ≡ s.arbitrator

pub vote-Voted :
    (e : Env) (voter : Address) (id outcome : ℕ) (s t : Storage)
    → vote e voter id outcome s ≡ done tt t
    → Voted e voter id outcome s t
unfolding vote
vote-Voted e voter id outcome s t h = elim (Option-cases (s.dispute id)) [
  | inl missing ↦ absurd (ground arith)
  | inr (d, stored) ↦ elim (Option-cases (s.arbitrator voter)) [
    | inl unknown ↦ absurd (ground arith)
    | inr (weight, registered) ↦ record {
      d = d;
      weight = weight;
      authorized = ground arith;
      outcome_given = ground arith;
      registered = registered;
      stored = stored;
      open_for_votes = ground arith;
      started = ground arith;
      in_time = ground arith;
      first_vote = ground arith;
      casted = λ i a. ground arith;
      counted = λ i. ground arith;
      votes = λ i. ground arith;
      same_disputes = ground arith;
      same_counter = ground arith;
      same_arbitrators = ground arith;
    }
  ]
]

-- A vote that returns was authorised by a registered arbitrator that has not voted on the dispute, in
-- its voting period; it adds the arbitrator's weight to the outcome, and leaves every other weight of
-- every dispute as it was.
pub vote_correct :
    (e : Env) (voter : Address) (id outcome i o : ℕ) (s t : Storage)
    → vote e voter id outcome s ≡ done tt t
    → Voted e voter id outcome s t
      × (get_tally t i o ≡ (
          if i == id
          then (if o == outcome
              then get_tally s id outcome +ℤ unwrap_or (s.arbitrator voter) (pos 0)
              else get_tally s i o)
          else get_tally s i o))
vote_correct e voter id outcome i o s t h =
    let v = vote-Voted e voter id outcome s t h in
    (
      v,
      ground (
        arith,
        v.votes i,
        v.registered,
        votes_get-votes_set (get_votes s id) outcome o (get_tally s id outcome +ℤ v.weight),
      ),
    )
