-- ===== src/Multisig/Pruning.antt =====
-- What the bounded sweep removes, and what it leaves
-- (contracts/credence_multisig/src/multisig.rs).
use credence_contracts.Prelude.{
  ℕ, zero, suc, ◌+◌, ◌≤◌, ◌≡◌, Bool, some, none, Option, List, ◌&&◌, arith, inl, inr, Bool-cases,
  leb, ltb, ◌==◌, ==_iff, if◌then◌else◌,
}
use credence_contracts.Host.{Address, Env, u64_max, done}
use credence_contracts.Multisig.State.{Proposal, Storage, get_signers}
use credence_contracts.Multisig.Prune.{
  effective_max, is_prunable, prune_one, prune_from, prune_expired_proposals,
}

-- The rule for the loop: what every round keeps, the loop keeps.
pub prune_from_keeps :
    (P : Storage → Type 0) (e : Env) (signers : List Address)
    → ((id : ℕ) (acc : Storage × ℕ) → P acc.0 → P (prune_one e id signers acc).0)
    → (rounds id : ℕ) (acc : Storage × ℕ) → P acc.0
    → P (prune_from e rounds id signers acc).0
unfolding prune_from
prune_from_keeps P e signers step zero id acc h = h
prune_from_keeps P e signers step (suc rounds) id acc h = elim (Bool-cases (ltb u64_max id)) [
  | inl past ↦ rw past h
  | inr more ↦ rw more (
      prune_from_keeps P e signers step rounds (id + 1) (prune_one e id signers acc)
        (step id acc h))
]

-- The entry that a round over its id leaves.
abbrev pub swept : Env → Option Proposal → Option Proposal
swept e none = none
swept e (some p) = if is_prunable e p then none else some p

-- Is the id among those that the rounds visit?
abbrev pub visited : ℕ → ℕ → ℕ → Bool
visited rounds id j = leb id j && (ltb j (id + rounds) && leb j u64_max)

prune_one-proposal :
    (e : Env) (id j : ℕ) (signers : List Address) (acc : Storage × ℕ)
    → (prune_one e id signers acc).0.proposal j
      ≡ (if j == id then swept e (acc.0.proposal j) else acc.0.proposal j)
unfolding prune_one
prune_one-proposal e id j signers acc = ground (arith, ==_iff j id)

prune_from-proposal :
    (e : Env) (rounds id j : ℕ) (signers : List Address) (acc : Storage × ℕ)
    → (prune_from e rounds id signers acc).0.proposal j
      ≡ (if visited rounds id j then swept e (acc.0.proposal j) else acc.0.proposal j)
unfolding prune_from
prune_from-proposal e zero id j signers acc = ground arith
prune_from-proposal e (suc rounds) id j signers acc = ground (
  arith,
  prune_one-proposal e id j signers acc,
  prune_from-proposal e rounds (id + 1) j signers (prune_one e id signers acc),
)

-- A sweep that returns has removed exactly the lapsed or expired proposals that are not executed
-- among the ids that it visits, which are at most 200, and has left all others as they were.
pub prune_exact :
    (e : Env) (start_id max_iter pruned j : ℕ) (s t : Storage)
    → prune_expired_proposals e start_id max_iter s ≡ done pruned t
    → (t.proposal j ≡ (
        if visited (effective_max max_iter) start_id j
        then swept e (s.proposal j)
        else s.proposal j))
      × (effective_max max_iter ≤ 200)
unfolding prune_expired_proposals
prune_exact e start_id max_iter pruned j s t h = (
  ground (arith, prune_from-proposal e (effective_max max_iter) start_id j (get_signers s) (s, 0)),
  ground arith,
)
