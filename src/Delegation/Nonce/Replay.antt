-- ===== src/Delegation/Nonce/Replay.antt =====
-- No nonce is accepted twice (contracts/credence_delegation/src/nonce.rs).
use credence_contracts.Prelude.{
  ◌⊎◌, ℕ, ◌≤◌, ◌<◌, ◌≡◌, false, List, [], ◌∷◌, ◌==◌, ==_iff, Bool-cases, arith, inl, inr,
}
use credence_contracts.Host.{Address, done, succeeds, after}
use credence_contracts.Delegation.Nonce.{
  Storage, get_nonce, consume_nonce, invalidate_nonce_range, Call, consume, invalidate, apply, run,
}

consume-rises :
    (a b : Address) (n : ℕ) (s : Storage)
    → get_nonce a s ≤ get_nonce a (after s (consume_nonce b n s))
unfolding consume_nonce
consume-rises a b n s = elim (Bool-cases (a == b)) [
  | inl here ↦ ground (arith, ==_iff a b)
  | inr elsewhere ↦ ground arith
]

invalidate-rises :
    (a b : Address) (new_nonce max_span : ℕ) (s : Storage)
    → get_nonce a s ≤ get_nonce a (after s (invalidate_nonce_range b new_nonce max_span s))
unfolding invalidate_nonce_range
invalidate-rises a b new_nonce max_span s = elim (Bool-cases (a == b)) [
  | inl here ↦ ground (arith, ==_iff a b)
  | inr elsewhere ↦ ground arith
]

apply-rises : (a : Address) (c : Call) (s : Storage) → get_nonce a s ≤ get_nonce a (apply c s)
unfolding apply
apply-rises a (consume b n) s = consume-rises a b n s
apply-rises a (invalidate b new_nonce max_span) s = invalidate-rises a b new_nonce max_span s

run-rises : (a : Address) (cs : List Call) (s : Storage) → get_nonce a s ≤ get_nonce a (run cs s)
unfolding run
run-rises a [] s = omega arith
run-rises a (c ∷ cs) s = omega (arith, apply-rises a c s, run-rises a cs (apply c s))

below-refused :
    (a : Address) (n : ℕ) (s : Storage) → n < get_nonce a s → succeeds (consume_nonce a n s) ≡ false
unfolding consume_nonce
below-refused a n s h = ground (arith, ==_iff (get_nonce a s) n)

consume-next :
    (a : Address) (n : ℕ) (s t : Storage) → consume_nonce a n s ≡ done tt t → n < get_nonce a t
unfolding consume_nonce
consume-next a n s t h = ground (arith, ==_iff a a, ==_iff (get_nonce a s) n)

invalidate-next :
    (a : Address) (new_nonce max_span : ℕ) (r : ℕ × ℕ) (s t : Storage)
    → invalidate_nonce_range a new_nonce max_span s ≡ done r t
    → get_nonce a t ≡ new_nonce
unfolding invalidate_nonce_range
invalidate-next a new_nonce max_span r s t h = ground (arith, ==_iff a a)

-- After a nonce of an identity has been consumed, it is refused for that identity, whatever calls
-- come in between; and after a range of nonces has been invalidated, so is every nonce below the
-- end of that range.
pub replay_refused :
    (a : Address) (n new_nonce max_span : ℕ) (r : ℕ × ℕ) (s t : Storage) (cs : List Call)
    → (consume_nonce a n s ≡ done tt t)
      ⊎ ((invalidate_nonce_range a new_nonce max_span s ≡ done r t) × (n < new_nonce))
    → succeeds (consume_nonce a n (run cs t)) ≡ false
replay_refused a n new_nonce max_span r s t cs (inl h) =
    below-refused a n (run cs t) (omega (arith, consume-next a n s t h, run-rises a cs t))
replay_refused a n new_nonce max_span r s t cs (inr (h, k)) =
    below-refused a n (run cs t)
      (omega (arith, invalidate-next a new_nonce max_span r s t h, run-rises a cs t))
