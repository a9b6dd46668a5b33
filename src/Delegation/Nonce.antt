-- ===== src/Delegation/Nonce.antt =====
-- The nonces that make a signed action usable once (contracts/credence_delegation/src/nonce.rs).
mod Tests
pub mod Replay
use credence_contracts.Prelude.{ℕ, ◌-◌, Option, some, List, [], ◌∷◌, ltb, leb, ◌==◌, not}
use credence_contracts.Errors.{ContractError}
use credence_contracts.Host.{
  Address, Entries, Action, pure, gets, modify, throw_if, ◌>>=◌, ◌>>◌, unwrap_or, after, put,
  checked_add, u64_max,
}

pub record Storage : Type 0 where
  pub nonce : Entries ℕ

abbrev pub get_nonce : Address → Storage → ℕ
get_nonce identity s = unwrap_or (s.nonce identity) 0

abbrev pub set_nonce : Address → ℕ → Action Storage (Unit {0})
set_nonce identity n = modify (λ s. record s { nonce = put identity (some n) s.nonce })

unfoldable pub consume_nonce : Address → ℕ → Action Storage (Unit {0})
consume_nonce identity expected_nonce = do
  current ← gets (get_nonce identity)
  throw_if (not (current == expected_nonce)) ContractError.invalid_nonce
  next ← checked_add u64_max current 1 ContractError.overflow
  set_nonce identity next

unfoldable pub invalidate_nonce_range : Address → ℕ → ℕ → Action Storage (ℕ × ℕ)
invalidate_nonce_range identity new_nonce max_span = do
  current ← gets (get_nonce identity)
  throw_if (leb new_nonce current) ContractError.invalid_nonce
  throw_if (ltb new_nonce current) ContractError.underflow
  throw_if (ltb max_span (new_nonce - current)) ContractError.invalid_nonce
  set_nonce identity new_nonce
  pure (current, new_nonce)

-- Sequences of calls on the nonces.
pub data Call : Type 0 where
  consume : Address → ℕ → Call
  invalidate : Address → ℕ → ℕ → Call

unfoldable pub apply : Call → Storage → Storage
apply (consume identity n) s = after s (consume_nonce identity n s)
apply (invalidate identity new_nonce max_span) s =
    after s (invalidate_nonce_range identity new_nonce max_span s)

unfoldable pub run : List Call → Storage → Storage
run [] s = s
run (c ∷ cs) s = run cs (apply c s)
