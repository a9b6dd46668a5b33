-- ===== src/Multisig/Prune.antt =====
-- The bounded sweep that removes expired proposals
-- (contracts/credence_multisig/src/multisig.rs).
use credence_contracts.Prelude.{
  ℕ, zero, suc, ◌+◌, Bool, Option, none, some, List, [], ◌∷◌, ltb, ◌==◌, ◌||◌, ◌&&◌, not, min,
  if◌then◌else◌,
}
use credence_contracts.Host.{
  Address, Env, u64_max, Entries, put_pair, remove, done, Action, gets, ◌>>=◌, ◌>>◌,
}
use credence_contracts.Multisig.State.{
  Proposal, Storage, is_executed, is_expired, require_not_paused, get_signers,
}
use credence_contracts.Multisig.Proposals.{has_lapsed}

abbrev pub max_iter_hard_cap : ℕ
max_iter_hard_cap = 200

abbrev pub default_max_iter : ℕ
default_max_iter = 50

abbrev pub effective_max : ℕ → ℕ
effective_max max_iter = if max_iter == 0 then default_max_iter else min max_iter max_iter_hard_cap

-- `is_expired` of the loop.
abbrev pub is_prunable : Env → Proposal → Bool
is_prunable e p = is_expired p.status || (not (is_executed p.status) && has_lapsed e p)

abbrev pub remove_signatures : ℕ → List Address → (ℕ → Entries Bool) → ℕ → Entries Bool
remove_signatures id [] m = m
remove_signatures id (x ∷ xs) m = remove_signatures id xs (put_pair id x none m)

-- What one round of the loop removes.
abbrev pub removed : ℕ → Proposal → List Address → Storage → Storage
removed id p signers s = record s {
  proposal = remove id s.proposal;
  signature = put_pair id p.proposer none (remove_signatures id signers s.signature);
  signature_count = remove id s.signature_count;
}

abbrev pub prune_found : Env → ℕ → List Address → Option Proposal → Storage × ℕ → Storage × ℕ
prune_found e id signers none (s, n) = (s, n)
prune_found e id signers (some p) (s, n) =
    if is_prunable e p then (removed id p signers s, n + 1) else (s, n)

-- One round of the loop.
unfoldable pub prune_one : Env → ℕ → List Address → Storage × ℕ → Storage × ℕ
prune_one e id signers (s, n) = prune_found e id signers (s.proposal id) (s, n)

-- The rounds that are left, from the next id on. The loop stops where the id passes a u64.
unfoldable pub prune_from : Env → ℕ → ℕ → List Address → Storage × ℕ → Storage × ℕ
prune_from e zero id signers acc = acc
prune_from e (suc rounds) id signers acc =
    let rest = prune_from e rounds (id + 1) signers (prune_one e id signers acc) in
    if ltb u64_max id then acc else rest

unfoldable pub prune_expired_proposals : Env → ℕ → ℕ → Action Storage ℕ
prune_expired_proposals e start_id max_iter = do
  require_not_paused
  signers ← gets get_signers
  λ s.
      let (s', pruned) = prune_from e (effective_max max_iter) start_id signers (s, 0) in
      done pruned s'
