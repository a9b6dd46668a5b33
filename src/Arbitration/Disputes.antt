-- ===== src/Arbitration/Disputes.antt =====
-- Disputes, votes and their resolution (contracts/arbitration/src/lib.rs).
use credence_contracts.Prelude.{
  ℕ, Bool, true, false, Option, none, some, [], ◌∷◌, length, ltb, leb, ◌==◌, ◌||◌, not,
  if◌then◌else◌,
}
use credence_contracts.Prelude.Int.{ℤ, pos, negsuc, ltb_ℤ, leb_ℤ, is_negative, fits_i128, ◌+ℤ◌}
use credence_contracts.Errors.{ContractError}
use credence_contracts.Host.{
  Address, Env, u32_max, u64_max, put, put_pair, Action, pure, gets, modify, ◌>>=◌, ◌>>◌, throw_if,
  is_some, unwrap_or, require_auth, checked_add, branch,
}
use credence_contracts.Arbitration.Status.{
  DisputeStatus, opened, voting, resolving, resolved, cancelled, tied, ArbitrationError, fail,
  fail_if, or_fail, require_transition,
}
use credence_contracts.Arbitration.State.{
  Text, creator_role, admin_role, Dispute, Votes, votes_get, votes_set, Storage, require_not_paused,
  get_admin, get_votes, get_voter_count, get_quorum,
}

abbrev pub checked_add_ℤ : {S : Type 0} → ℤ → ℤ → Action S ℤ
checked_add_ℤ a b = throw_if (not (fits_i128 (a +ℤ b))) ContractError.overflow >> pure (a +ℤ b)

abbrev pub find_dispute : ℕ → Action Storage Dispute
find_dispute id = gets (λ s. s.dispute id) >>= λ d. or_fail d ArbitrationError.dispute_not_found

abbrev pub store_dispute : ℕ → Dispute → Action Storage (Unit {0})
store_dispute id d = modify (λ s. record s { dispute = put id (some d) s.dispute })

unfoldable pub create_dispute : Env → Address → Text → ℕ → Action Storage ℕ
create_dispute e creator description duration = do
  require_not_paused
  require_auth e creator
  id ← gets (λ s. unwrap_or s.dispute_counter 0)
  next_id ← checked_add u64_max id 1 ContractError.overflow
  modify (λ s. record s { dispute_counter = some next_id })
  end ← checked_add u64_max e.timestamp duration ContractError.overflow
  require_transition opened voting
  store_dispute id (record {
    id = id;
    creator = creator;
    description = description;
    voting_start = e.timestamp;
    voting_end = end;
    status = voting;
    outcome = 0;
    cancellation_reason = none;
    cancelled_by_role = none;
  })
  pure id

abbrev pub is_too_long : Option Text → Bool
is_too_long none = false
is_too_long (some r) = ltb 256 (length r)

unfoldable pub cancel_dispute : Env → Address → ℕ → Option Text → Action Storage (Unit {0})
cancel_dispute e caller dispute_id reason = do
  require_not_paused
  require_auth e caller
  fail_if (is_too_long reason) ArbitrationError.reason_too_long
  d ← find_dispute dispute_id
  admin ← get_admin
  role ←
      branch (caller == d.creator) (pure creator_role)
        (branch (caller == admin) (pure admin_role) (fail ArbitrationError.not_authorized))
  require_transition d.status cancelled
  store_dispute dispute_id
      (record d { status = cancelled; cancellation_reason = reason; cancelled_by_role = some role })

abbrev pub is_voting : DisputeStatus → Bool
is_voting voting = true
is_voting _ = false

unfoldable pub vote : Env → Address → ℕ → ℕ → Action Storage (Unit {0})
vote e voter dispute_id outcome = do
  require_not_paused
  require_auth e voter
  fail_if (outcome == 0) ArbitrationError.invalid_outcome
  weight ← gets (λ s. s.arbitrator voter) >>= λ w. or_fail w ArbitrationError.not_arbitrator
  d ← find_dispute dispute_id
  fail_if (not (is_voting d.status)) ArbitrationError.voting_inactive
  fail_if (ltb e.timestamp d.voting_start || ltb d.voting_end e.timestamp)
      ArbitrationError.voting_inactive
  already ← gets (λ s. is_some (s.voter_casted dispute_id voter))
  fail_if already ArbitrationError.already_voted
  modify (λ s. record s { voter_casted = put_pair dispute_id voter (some true) s.voter_casted })
  voter_count ← gets (λ s. get_voter_count s dispute_id)
  new_count ← checked_add u32_max voter_count 1 ContractError.overflow
  modify (λ s. record s { voter_counter = put dispute_id (some new_count) s.voter_counter })
  votes ← gets (λ s. get_votes s dispute_id)
  tally ← checked_add_ℤ (unwrap_or (votes_get votes outcome) (pos 0)) weight
  modify (λ s. record s {
    dispute_votes = put dispute_id (some (votes_set votes outcome tally)) s.dispute_votes;
  })

-- The loop that adds up the weights for the quorum.
unfoldable pub total_weight : Votes → ℤ → Action Storage ℤ
total_weight [] total = pure total
total_weight ((o, w) ∷ xs) total = do next ← checked_add_ℤ total w; total_weight xs next

unfoldable pub check_quorum : ℕ → Action Storage (Unit {0})
unfolding total_weight
check_quorum dispute_id = do
  (min_total_weight, min_voters) ← gets get_quorum
  branch (ltb_ℤ (pos 0) min_total_weight || ltb 0 min_voters)
      (do
        votes ← gets (λ s. get_votes s dispute_id)
        total ← total_weight votes (pos 0)
        voter_count ← gets (λ s. get_voter_count s dispute_id)
        fail_if (not (leb_ℤ min_total_weight total) || not (leb min_voters voter_count))
            ArbitrationError.quorum_not_met)
      (pure tt)

-- `winning_outcome`, `max_weight` and `is_tie`.
pub record Count : Type 0 where
  pub winning_outcome : ℕ
  pub max_weight : ℤ
  pub is_tie : Bool

abbrev pub count_vote : Count → ℕ → ℤ → Count
count_vote c outcome weight =
    if ltb_ℤ c.max_weight weight
    then record { winning_outcome = outcome; max_weight = weight; is_tie = false }
    else (if leb_ℤ c.max_weight weight then record c { is_tie = true } else c)

-- The loop of `resolve_dispute`.
unfoldable pub count_votes : Votes → Count → Count
count_votes [] c = c
count_votes ((o, w) ∷ xs) c = count_votes xs (count_vote c o w)

abbrev pub no_count : Count
no_count = record { winning_outcome = 0; max_weight = negsuc 0; is_tie = false }

abbrev pub counted : Votes → Count
counted votes = count_votes votes no_count

abbrev pub has_tie : Count → Bool
has_tie c = is_negative c.max_weight || c.is_tie

unfoldable pub resolve_dispute : Env → ℕ → Action Storage ℕ
unfolding check_quorum count_votes
resolve_dispute e dispute_id = do
  require_not_paused
  d ← find_dispute dispute_id
  require_transition d.status resolving
  fail_if (leb e.timestamp d.voting_end) ArbitrationError.voting_not_ended
  check_quorum dispute_id
  votes ← gets (λ s. get_votes s dispute_id)
  let c = counted votes
  branch (has_tie c)
      (do
        require_transition resolving tied
        store_dispute dispute_id (record d { status = tied; outcome = 0 })
        pure 0)
      (do
        require_transition resolving resolved
        store_dispute dispute_id (record d { status = resolved; outcome = c.winning_outcome })
        pure c.winning_outcome)
