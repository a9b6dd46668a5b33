-- ===== src/Arbitration/Status.antt =====
-- The state machine of disputes (contracts/arbitration/src/status.rs).
use credence_contracts.Prelude.{ℕ, Bool, true, false, not, Option, none, some}
use credence_contracts.Host.{Action, panics, code, pure}

pub data DisputeStatus : Type 0 where
  opened voting resolving resolved cancelled tied : DisputeStatus

pub data ArbitrationError : Type 0 where
  invalid_transition already_initialized not_initialized not_admin not_arbitrator already_voted
        voting_inactive voting_not_ended dispute_not_found invalid_outcome weight_not_positive
        not_authorized reason_too_long quorum_not_met :
      ArbitrationError

abbrev pub error_code : ArbitrationError → ℕ
error_code invalid_transition = 1
error_code already_initialized = 2
error_code not_initialized = 3
error_code not_admin = 4
error_code not_arbitrator = 5
error_code already_voted = 6
error_code voting_inactive = 7
error_code voting_not_ended = 8
error_code dispute_not_found = 9
error_code invalid_outcome = 10
error_code weight_not_positive = 11
error_code not_authorized = 12
error_code reason_too_long = 14
error_code quorum_not_met = 13

-- A call that returns `Err` fails: the host takes its writes back, as after a panic.
abbrev pub fail : {S A : Type 0} → ArbitrationError → Action S A
fail x s = panics (code (error_code x))

abbrev pub fail_if : {S : Type 0} → Bool → ArbitrationError → Action S (Unit {0})
fail_if true x = fail x
fail_if false x = pure tt

-- `ok_or(err)?`
abbrev pub or_fail : {S A : Type 0} → Option A → ArbitrationError → Action S A
or_fail none x = fail x
or_fail (some a) x = pure a

abbrev pub is_valid_transition : DisputeStatus → DisputeStatus → Bool
is_valid_transition opened voting = true
is_valid_transition opened cancelled = true
is_valid_transition voting resolving = true
is_valid_transition voting cancelled = true
is_valid_transition resolving resolved = true
is_valid_transition resolving tied = true
is_valid_transition _ _ = false

abbrev pub require_transition : {S : Type 0} → DisputeStatus → DisputeStatus → Action S (Unit {0})
require_transition from to =
    fail_if (not (is_valid_transition from to)) ArbitrationError.invalid_transition
