-- ===== src/Arbitration/State.antt =====
-- What the arbitration contract stores (contracts/arbitration/src/lib.rs).
use credence_contracts.Prelude.{
  ℕ, Bool, Option, none, some, List, [], ◌∷◌, ltb, ◌==◌, if◌then◌else◌,
}
use credence_contracts.Prelude.Int.{ℤ, pos}
use credence_contracts.Host.{Address, Entries, done, panics, Action, gets, ◌>>=◌, unwrap_or}
use credence_contracts.Pausable
use credence_contracts.Pausable.{PauseStorage}
use credence_contracts.Arbitration.Status.{DisputeStatus, ArbitrationError, or_fail}

abbrev pub Text : Type 0
Text = List ℕ

-- The two symbols of `cancelled_by_role`.
pub data Role : Type 0 where
  creator_role admin_role : Role

pub record Dispute : Type 0 where
  pub id : ℕ
  pub creator : Address
  pub description : Text
  pub voting_start : ℕ
  pub voting_end : ℕ
  pub status : DisputeStatus
  pub outcome : ℕ
  pub cancellation_reason : Option Text
  pub cancelled_by_role : Option Role

-- A map of outcomes to weights, whose entries stand in the order of their keys.
abbrev pub Votes : Type 0
Votes = List (ℕ × ℤ)

unfoldable pub votes_get : Votes → ℕ → Option ℤ
votes_get [] k = none
votes_get ((j, w) ∷ xs) k = let rest = votes_get xs k in if k == j then some w else rest

unfoldable pub votes_set : Votes → ℕ → ℤ → Votes
votes_set [] k v = (k, v) ∷ []
votes_set ((j, w) ∷ xs) k v =
    let rest = votes_set xs k v in
    if k == j then (k, v) ∷ xs else (if ltb k j then (k, v) ∷ (j, w) ∷ xs else (j, w) ∷ rest)

-- The keys of `DataKey`; those of the pause module and `Admin` stand in `pause`.
pub record Storage : Type 0 where
  pub pause : PauseStorage
  pub arbitrator : Entries ℤ
  pub dispute : Entries Dispute
  pub dispute_counter : Option ℕ
  pub dispute_votes : Entries Votes
  pub voter_casted : ℕ → Entries Bool
  pub voter_counter : Entries ℕ
  pub arbitrator_registry : Option (List Address)
  pub min_total_weight : Option ℤ
  pub min_voters : Option ℕ

abbrev pub on_pause : {A : Type 0} → Action PauseStorage A → Action Storage A
on_pause m s = elim (m s.pause) [ done a p ↦ done a (record s { pause = p }) | panics x ↦ panics x ]

abbrev pub require_not_paused : Action Storage (Unit {0})
require_not_paused = on_pause Pausable.require_not_paused

abbrev pub get_admin : Action Storage Address
get_admin = gets (λ s. s.pause.admin) >>= λ a. or_fail a ArbitrationError.not_initialized

abbrev pub get_votes : Storage → ℕ → Votes
get_votes s id = unwrap_or (s.dispute_votes id) []

abbrev pub get_tally : Storage → ℕ → ℕ → ℤ
get_tally s id outcome = unwrap_or (votes_get (get_votes s id) outcome) (pos 0)

abbrev pub get_registry : Storage → List Address
get_registry s = unwrap_or s.arbitrator_registry []

abbrev pub get_voter_count : Storage → ℕ → ℕ
get_voter_count s id = unwrap_or (s.voter_counter id) 0

abbrev pub get_quorum : Storage → ℤ × ℕ
get_quorum s = (unwrap_or s.min_total_weight (pos 0), unwrap_or s.min_voters 0)
