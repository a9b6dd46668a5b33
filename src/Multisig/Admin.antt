-- ===== src/Multisig/Admin.antt =====
-- Setting the contract up and managing its signers
-- (contracts/credence_multisig/src/multisig.rs).
use credence_contracts.Prelude.{
  ℕ, ◌-◌, Bool, true, false, some, List, [], ◌∷◌, ◌++◌, ltb, leb, ◌==◌, ◌||◌, length, if◌then◌else◌,
}
use credence_contracts.Errors.{ContractError}
use credence_contracts.Host.{
  Address, Env, u32_max, Entries, put, remove, Action, pure, gets, modify, ◌>>=◌, ◌>>◌, throw_if,
  unwrap_or, require_auth, checked_add, branch,
}
use credence_contracts.Multisig.State.{
  Storage, require_not_paused, require_admin, is_signer, get_signer_count, get_signers,
  get_threshold,
}

-- The loop that marks the signers.
abbrev pub mark_signers : List Address → Entries Bool → Entries Bool
mark_signers [] m = m
mark_signers (x ∷ xs) m = mark_signers xs (put x (some true) m)

-- What `initialize` writes: it leaves old entries of signers, proposals and signatures in place.
abbrev pub initial : Address → List Address → ℕ → Storage → Storage
initial admin signers limit s = record s {
  pause = record s.pause {
    admin = some admin;
    paused = some false;
    pause_signer_count = some 0;
    pause_threshold = some 0;
    pause_proposal_counter = some 0;
  };
  signer_count = some (length signers);
  threshold = some limit;
  proposal_counter = some 0;
  signer_list = some signers;
  signer = mark_signers signers s.signer;
}

unfoldable pub initialize : Env → Address → List Address → ℕ → Action Storage (Unit {0})
initialize e admin signers limit = do
  require_auth e admin
  throw_if (length signers == 0) ContractError.threshold_exceeds_signers
  throw_if (limit == 0 || ltb (length signers) limit) ContractError.threshold_exceeds_signers
  modify (initial admin signers limit)

unfoldable pub add_signer : Env → Address → Address → Action Storage (Unit {0})
add_signer e admin signer = do
  require_not_paused
  require_admin e admin
  already ← gets (λ s. is_signer s signer)
  throw_if already ContractError.already_active
  modify (λ s. record s { signer = put signer (some true) s.signer })
  count ← gets get_signer_count
  new_count ← checked_add u32_max count 1 ContractError.overflow
  modify (λ s. record s { signer_count = some new_count })
  modify (λ s. record s { signer_list = some (get_signers s ++ signer ∷ []) })

-- The loop that copies the list without one signer.
abbrev pub without : Address → List Address → List Address
without a [] = []
without a (x ∷ xs) = let rest = without a xs in if x == a then rest else x ∷ rest

unfoldable pub remove_signer : Env → Address → Address → Action Storage (Unit {0})
remove_signer e admin signer = do
  require_not_paused
  require_admin e admin
  exists ← gets (λ s. is_signer s signer)
  throw_if (if exists then false else true) ContractError.not_signer
  count ← gets (λ s. unwrap_or s.signer_count 1)
  throw_if (leb count 1) ContractError.invalid_pause_action
  modify (λ s. record s { signer = remove signer s.signer })
  modify (λ s. record s { signer_count = some (count - 1) })
  modify (λ s. record s { signer_list = some (without signer (get_signers s)) })
  limit ← gets get_threshold
  branch (ltb (count - 1) limit) (modify (λ s. record s { threshold = some (count - 1) })) (pure tt)

unfoldable pub set_threshold : Env → Address → ℕ → Action Storage (Unit {0})
set_threshold e admin limit = do
  require_not_paused
  require_admin e admin
  count ← gets get_signer_count
  throw_if (limit == 0 || ltb count limit) ContractError.threshold_exceeds_signers
  modify (λ s. record s { threshold = some limit })
