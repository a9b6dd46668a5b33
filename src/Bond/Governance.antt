-- ===== src/Bond/Governance.antt =====
-- The votes of governors on slashing (contracts/credence_bond/src/governance_approval.rs).
mod Tests
pub mod Execution
pub mod Once
use credence_contracts.Prelude.{
  ℕ, suc, ◌+◌, ◌*◌, ◌/◌, Bool, true, false, Option, none, some, List, [], ◌∷◌, length, ltb, leb,
  ◌==◌, not, ◌&&◌, ◌||◌, if◌then◌else◌, elem,
}
use credence_contracts.Prelude.Int.{ℤ, pos, leb_ℤ}
use credence_contracts.Errors.{ContractError}
use credence_contracts.Host.{
  Address, Env, Entries, Action, pure, gets, modify, throw_if, branch, ◌>>=◌, ◌>>◌, unwrap_or,
  is_some, put, put_pair, require_auth, panic_if, or_panic, u32_max, u64_max, after,
}

pub data ProposalStatus : Type 0 where
  opened executed rejected : ProposalStatus

abbrev pub is_open : ProposalStatus → Bool
is_open opened = true
is_open executed = false
is_open rejected = false

pub record SlashProposal : Type 0 where
  pub id : ℕ
  pub amount : ℤ
  pub proposed_by : Address
  pub proposed_at : ℕ
  pub status : ProposalStatus

pub record Storage : Type 0 where
  pub next_id : Option ℕ
  pub proposal : Entries SlashProposal
  pub votes : ℕ → Address → Option Bool
  pub delegated : Entries Address
  pub governors : Option (List Address)
  pub quorum_bps : Option ℕ
  pub min_governors : Option ℕ

abbrev pub bps_denominator : ℕ
bps_denominator = 10000

unfoldable pub initialize_governance : List Address → ℕ → ℕ → Action Storage (Unit {0})
initialize_governance governors quorum_bps min_governors = do
  panic_if (ltb bps_denominator quorum_bps)
  modify (λ s. record s {
    governors = some governors;
    quorum_bps = some quorum_bps;
    min_governors = some min_governors;
    next_id = some 0;
  })

abbrev pub new_proposal : Env → ℕ → Address → ℤ → SlashProposal
new_proposal e id proposer amount = record {
  id = id;
  amount = amount;
  proposed_by = proposer;
  proposed_at = e.timestamp;
  status = opened;
}

unfoldable pub propose_slash : Env → Address → ℤ → Action Storage ℕ
propose_slash e proposer amount = do
  panic_if (leb_ℤ amount (pos 0))
  id ← gets (λ s. unwrap_or s.next_id 0)
  panic_if (ltb u64_max (id + 1))
  modify (λ s. record s {
    next_id = some (id + 1);
    proposal = put id (some (new_proposal e id proposer amount)) s.proposal;
  })
  pure id

-- One of the governors has delegated to this address.
abbrev pub is_delegate : Entries Address → Address → List Address → Bool
is_delegate delegated voter [] = false
is_delegate delegated voter (g ∷ gs) =
    elim (delegated g) [ none ↦ false | some d ↦ d == voter ] || is_delegate delegated voter gs

unfoldable pub vote : Address → ℕ → Bool → Action Storage (Unit {0})
vote voter proposal_id approve = do
  p ← gets (λ s. s.proposal proposal_id) >>= or_panic
  panic_if (not (is_open p.status))
  governors ← gets (λ s. s.governors) >>= or_panic
  delegated ← gets (λ s. s.delegated)
  panic_if (not (elem voter governors || is_delegate delegated voter governors))
  voted ← gets (λ s. is_some (s.votes proposal_id voter))
  panic_if voted
  modify (λ s. record s { votes = put_pair proposal_id voter (some approve) s.votes })

unfoldable pub delegate : Env → Address → Address → Action Storage (Unit {0})
delegate e governor to = do
  require_auth e governor
  governors ← gets (λ s. s.governors) >>= or_panic
  panic_if (not (elem governor governors))
  modify (λ s. record s { delegated = put governor (some to) s.delegated })

abbrev pub effective_voter : Storage → Address → Address
effective_voter s governor = unwrap_or (s.delegated governor) governor

pub record Count : Type 0 where
  pub approve : ℕ
  pub reject : ℕ
  pub voted : ℕ

abbrev pub count_vote : Option Bool → Count → Count
count_vote none c = c
count_vote (some true) c = record c { approve = c.approve + 1; voted = c.voted + 1 }
count_vote (some false) c = record c { reject = c.reject + 1; voted = c.voted + 1 }

abbrev pub count_from : Storage → ℕ → List Address → Count → Count
count_from s proposal_id [] c = c
count_from s proposal_id (g ∷ gs) c =
    count_from s proposal_id gs (count_vote (s.votes proposal_id (effective_voter s g)) c)

abbrev pub get_governors : Storage → List Address
get_governors s = unwrap_or s.governors []

unfoldable pub count_votes : Storage → ℕ → Count
count_votes s proposal_id =
    count_from s proposal_id (get_governors s) (record { approve = 0; reject = 0; voted = 0 })

abbrev pub max : ℕ → ℕ → ℕ
max a b = if ltb a b then b else a

-- The votes that count, against the quorum, which is at least the least number of governors.
abbrev pub passes : ℕ → ℕ → ℕ → Count → Bool
passes total quorum_bps min_governors c =
    leb (max (total * quorum_bps / bps_denominator) min_governors) c.voted
    && (ltb 0 c.voted && ltb (c.voted / 2) c.approve)

unfoldable pub is_approved : ℕ → Action Storage Bool
is_approved proposal_id = do
  total ← gets (λ s. length (get_governors s))
  quorum_bps ← gets (λ s. unwrap_or s.quorum_bps 5100)
  min_governors ← gets (λ s. unwrap_or s.min_governors 1)
  branch (total == 0) (pure false) (
      throw_if (ltb u32_max (total * quorum_bps)) ContractError.overflow
      >> gets (λ s. passes total quorum_bps min_governors (count_votes s proposal_id)))

abbrev pub close : ℕ → SlashProposal → ProposalStatus → Storage → Storage
close proposal_id p status s = record s {
  proposal = put proposal_id (some (record p { status = status })) s.proposal;
}

unfoldable pub execute_slash_if_approved : ℕ → Action Storage Bool
execute_slash_if_approved proposal_id = do
  p ← gets (λ s. s.proposal proposal_id) >>= or_panic
  panic_if (not (is_open p.status))
  approved ← is_approved proposal_id
  modify (close proposal_id p (if approved then executed else rejected))
  pure approved

-- The calls between two initialisations.
pub data Call : Type 0 where
  propose : Address → ℤ → Call
  cast : Address → ℕ → Bool → Call
  hand_over : Address → Address → Call
  execute : ℕ → Call

unfoldable pub apply : Env → Call → Storage → Storage
apply e (propose proposer amount) s = after s (propose_slash e proposer amount s)
apply e (cast voter id approve) s = after s (vote voter id approve s)
apply e (hand_over governor to) s = after s (delegate e governor to s)
apply e (execute id) s = after s (execute_slash_if_approved id s)

unfoldable pub run : List (Env × Call) → Storage → Storage
run [] s = s
run ((e, c) ∷ cs) s = run cs (apply e c s)
