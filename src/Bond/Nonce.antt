-- ===== src/Bond/Nonce.antt =====
-- The nonces, deadlines and domains of signed actions (contracts/credence_bond/src/nonce.rs).
mod Tests
pub mod Replay
use credence_contracts.Prelude.{ℕ, ◌+◌, Option, some, List, [], ◌∷◌, ltb, ◌==◌, not, if◌then◌else◌}
use credence_contracts.Errors.{ContractError}
use credence_contracts.Host.{
  Address, Env, Entries, Action, message, panics, done, pure, gets, modify, throw_if, branch, ◌>>=◌,
  ◌>>◌, unwrap_or, after, put, u64_max,
}

pub record Storage : Type 0 where
  pub nonce : Entries ℕ
  pub grace_window : Option ℕ

abbrev pub get_nonce : Address → Storage → ℕ
get_nonce identity s = unwrap_or (s.nonce identity) 0

abbrev pub get_grace_window : Storage → ℕ
get_grace_window s = unwrap_or s.grace_window 0

-- `checked_add(1).expect("nonce overflow")`
abbrev pub next_nonce : ℕ → Action Storage ℕ
next_nonce current = branch (ltb u64_max (current + 1)) (λ s. panics message) (pure (current + 1))

unfoldable pub consume_nonce : Address → ℕ → Action Storage (Unit {0})
consume_nonce identity expected_nonce = do
  current ← gets (get_nonce identity)
  throw_if (not (current == expected_nonce)) ContractError.invalid_nonce
  next ← next_nonce current
  modify (λ s. record s { nonce = put identity (some next) s.nonce })

unfoldable pub set_grace_window : ℕ → Action Storage ℕ
set_grace_window grace = do
  old ← gets get_grace_window
  modify (λ s. record s { grace_window = some grace })
  pure old

abbrev pub saturating_add : ℕ → ℕ → ℕ
saturating_add a b = if ltb u64_max (a + b) then u64_max else a + b

unfoldable pub require_not_expired : Env → ℕ → Action Storage (Unit {0})
require_not_expired e deadline = do
  grace ← gets get_grace_window
  throw_if (ltb (saturating_add deadline grace) e.timestamp) ContractError.signature_expired

unfoldable pub require_domain_match : Env → Address → Action Storage (Unit {0})
require_domain_match e expected_contract =
    throw_if (not (e.current_contract == expected_contract)) ContractError.domain_mismatch

unfoldable pub validate_and_consume : Env → Address → Address → ℕ → ℕ → Action Storage (Unit {0})
validate_and_consume e identity expected_contract deadline nonce = do
  require_not_expired e deadline
  require_domain_match e expected_contract
  consume_nonce identity nonce

unfoldable pub validate_and_consume_with_grace :
    Env → Address → Address → ℕ → ℕ → ℕ → Action Storage (Unit {0})
validate_and_consume_with_grace e identity expected_contract deadline nonce grace = do
  throw_if (ltb (saturating_add deadline grace) e.timestamp) ContractError.signature_expired
  require_domain_match e expected_contract
  consume_nonce identity nonce

-- Sequences of calls on the nonces.
pub data Call : Type 0 where
  consume : Address → ℕ → Call
  allow : ℕ → Call
  validate : Address → Address → ℕ → ℕ → Call
  validate_with_grace : Address → Address → ℕ → ℕ → ℕ → Call

unfoldable pub apply : Env → Call → Storage → Storage
apply e (consume identity n) s = after s (consume_nonce identity n s)
apply e (allow grace) s = after s (set_grace_window grace s)
apply e (validate identity c deadline n) s =
    after s (validate_and_consume e identity c deadline n s)
apply e (validate_with_grace identity c deadline n grace) s =
    after s (validate_and_consume_with_grace e identity c deadline n grace s)

unfoldable pub run : List (Env × Call) → Storage → Storage
run [] s = s
run ((e, c) ∷ cs) s = run cs (apply e c s)
