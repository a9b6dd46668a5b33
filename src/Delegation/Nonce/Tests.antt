-- ===== src/Delegation/Nonce/Tests.antt =====
-- Nonces on concrete storages (contracts/credence_delegation/src/nonce.rs).
use credence_contracts.Prelude.{◌≡◌, refl, false, none, some, [], ◌∷◌, inr, arith}
use credence_contracts.Host.{put, done, succeeds}
use credence_contracts.Delegation.Nonce.{
  Storage, consume_nonce, invalidate_nonce_range, consume, run,
}
use credence_contracts.Delegation.Nonce.Replay.{replay_refused}

abbrev before : Storage
before = record { nonce = put 2 (some 7) (λ a. none) }

abbrev skipped : Storage
skipped = record { nonce = put 2 (some 20) before.nonce }

skips : invalidate_nonce_range 2 20 10000 before ≡ done (7, 20) skipped
unfolding invalidate_nonce_range
skips = refl

-- A range of more than the span is refused.
too_far : succeeds (invalidate_nonce_range 2 20 12 before) ≡ false
unfolding invalidate_nonce_range
too_far = refl

replay_refused_example :
    succeeds (consume_nonce 2 11 (run (consume 2 20 ∷ consume 3 0 ∷ []) skipped)) ≡ false
replay_refused_example =
    replay_refused 2 11 20 10000 (7, 20) before skipped (consume 2 20 ∷ consume 3 0 ∷ [])
      (inr (skips, omega arith))
