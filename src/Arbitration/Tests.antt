-- ===== src/Arbitration/Tests.antt =====
-- A dispute on concrete storages (contracts/arbitration/src/lib.rs).
use credence_contracts.Prelude.{
  ℕ, zero, suc, ◌<◌, ◌≡◌, ◌⊎◌, refl, true, false, none, some, [], ◌∷◌, arith,
}
use credence_contracts.Prelude.Counting.{Counts}
use credence_contracts.Prelude.Int.{pos, ◌+ℤ◌}
use credence_contracts.Host.{Env, put, put_pair, succeeds, is_some}
use credence_contracts.Arbitration.Status.{voting, resolved, tied}
use credence_contracts.Arbitration.State.{
  Dispute, Storage, votes_get, votes_set, get_votes, get_voter_count,
}
use credence_contracts.Arbitration.Disputes.{
  vote, resolve_dispute, check_quorum, total_weight, count_votes,
}
use credence_contracts.Arbitration.Tally.{IsTally, IsWinner, NoWinner}
use credence_contracts.Arbitration.Calls.{Call, apply, run}
use credence_contracts.Arbitration.Resolution.{HasQuorum, resolve_correct}
use credence_contracts.Arbitration.Invariant.{IsOrderly, apply-IsOrderly}
use credence_contracts.Arbitration.Registry.{RegistryAgrees}
use credence_contracts.Arbitration.History.{ended_for_good, votes_once}

abbrev at : ℕ → Env
at now = record { timestamp = now; sequence = 0; current_contract = 0; authorized = λ _. true }

abbrev a_dispute : Dispute
a_dispute = record {
  id = 0;
  creator = 7;
  description = [];
  voting_start = 10;
  voting_end = 20;
  status = voting;
  outcome = 0;
  cancellation_reason = none;
  cancelled_by_role = none;
}

-- Arbitrators 2 and 3, of whom 2 has voted for outcome 1 with weight 5.
abbrev storage : Storage
storage = record {
  pause = record {
    admin = some 1;
    paused = some false;
    pause_signer = λ _. none;
    pause_signer_count = some 0;
    pause_threshold = some 0;
    pause_proposal_counter = some 0;
    pause_proposal = λ _. none;
    pause_approval = λ _ _. none;
    pause_approval_count = λ _. none;
  };
  arbitrator = put 3 (some (pos 4)) (put 2 (some (pos 5)) (λ _. none));
  dispute = put 0 (some a_dispute) (λ _. none);
  dispute_counter = some 1;
  dispute_votes = put 0 (some ((1, pos 5) ∷ [])) (λ _. none);
  voter_casted = put_pair 0 2 (some true) (λ _ _. none);
  voter_counter = put 0 (some 1) (λ _. none);
  arbitrator_registry = some (2 ∷ 3 ∷ []);
  min_total_weight = some (pos 5);
  min_voters = some 1;
}

storage_voters :
    (id : ℕ) → Counts (λ a. is_some (storage.voter_casted id a)) (get_voter_count storage id)
storage_voters zero = (2 ∷ [], (refl, tt), λ a. ground arith, refl)
storage_voters (suc n) = ([], tt, λ a. ground arith, ground arith)

storage_tallies : (id : ℕ) → IsTally (get_votes storage id)
storage_tallies zero = (tt, omega arith, omega arith, tt)
storage_tallies (suc n) = ground arith

storage-IsOrderly : IsOrderly storage
storage-IsOrderly = record {
  tallies = storage_tallies;
  weights = λ a w k. ground arith;
  voters = storage_voters;
  fresh = λ id h. ground arith;
}

abbrev after_vote : Storage
after_vote = apply (at 15) (Call.cast 3 0 2) storage

apply-IsOrderly_example : IsOrderly after_vote
apply-IsOrderly_example = apply-IsOrderly (at 15) (Call.cast 3 0 2) storage storage-IsOrderly

votes_once_example :
    succeeds (vote (at 16) 3 0 1 (run ((at 16, Call.register 3 (pos 9)) ∷ []) after_vote)) ≡ false
unfolding apply vote ◌+ℤ◌ votes_get votes_set
votes_once_example =
    votes_once ((at 16, Call.register 3 (pos 9)) ∷ []) (at 15) (at 16) 3 0 2 1 storage after_vote
      storage-IsOrderly refl

abbrev first_outcome : ℕ
first_outcome = 1

abbrev decided : Storage
decided = apply (at 21) (Call.resolve 0) storage

resolve_correct_example :
    (d : Dispute) × (storage.dispute 0 ≡ some d)
    × (d.status ≡ voting)
    × (d.voting_end < 21)
    × HasQuorum 0 storage
    × (((first_outcome ≡ 0)
          × (decided.dispute 0 ≡ some (record d { status = tied; outcome = 0 }))
          × NoWinner (get_votes storage 0))
        ⊎ ((0 < first_outcome)
            × (decided.dispute 0 ≡ some (record d { status = resolved; outcome = 1 }))
            × IsWinner (get_votes storage 0) 1))
unfolding apply resolve_dispute check_quorum total_weight count_votes ◌+ℤ◌
resolve_correct_example =
    resolve_correct (at 21) 0 1 storage decided (storage-IsOrderly.tallies 0) refl

ended_for_good_example :
    (run ((at 22, Call.cancel 1 0 none) ∷ []) decided).dispute 0
    ≡ some (record a_dispute { status = resolved; outcome = 1 })
unfolding apply resolve_dispute check_quorum total_weight count_votes ◌+ℤ◌
ended_for_good_example =
    ended_for_good ((at 22, Call.cancel 1 0 none) ∷ []) 0
      (record a_dispute { status = resolved; outcome = 1 }) decided
      (apply-IsOrderly (at 21) (Call.resolve 0) storage storage-IsOrderly) refl refl

storage-RegistryAgrees : RegistryAgrees storage
storage-RegistryAgrees = record { distinct = ground arith; listed = λ a. ground arith }
