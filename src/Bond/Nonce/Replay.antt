-- ===== src/Bond/Nonce/Replay.antt =====
-- A signed action is accepted once, in time and by its contract (contracts/credence_bond/src/nonce.rs).
use credence_contracts.Prelude.{
  ℕ, ◌+◌, ◌≤◌, ◌<◌, ◌≡◌, ◌↔◌, ◌⊎◌, some, false, List, [], ◌∷◌, ◌==◌, ==_iff, Bool-cases, arith, inl,
  inr,
}
use credence_contracts.Host.{Address, Env, done, succeeds, after, put, u64_max}
use credence_contracts.Bond.Nonce.{
  Storage, get_nonce, get_grace_window, saturating_add, consume_nonce, set_grace_window,
  require_not_expired, require_domain_match, validate_and_consume, validate_and_consume_with_grace,
  Call, consume, allow, validate, validate_with_grace, apply, run,
}

-- What the checks of an action and its nonce ask, with the grace that counts, and what they store.
abbrev pub Accepted : Env → Address → Address → ℕ → ℕ → ℕ → Storage → Storage → Type 0
Accepted e identity expected_contract deadline n grace s t =
    (e.timestamp ≤ saturating_add deadline grace)
    × (e.current_contract ≡ expected_contract)
    × (get_nonce identity s ≡ n)
    × (n < u64_max)
    × (t ≡ (record s { nonce = put identity (some (n + 1)) s.nonce }))

graced-Accepted :
    (e : Env) (identity c : Address) (deadline n grace : ℕ) (s t : Storage)
    → (validate_and_consume_with_grace e identity c deadline n grace s ≡ done tt t)
      ↔ Accepted e identity c deadline n grace s t
unfolding validate_and_consume_with_grace require_domain_match consume_nonce
graced-Accepted e identity c deadline n grace s t = (
  (λ h. ground (arith, ==_iff e.current_contract c, ==_iff (get_nonce identity s) n)),
  (λ (a, b, c_, d, f).
      ground (arith, ==_iff e.current_contract c, ==_iff (get_nonce identity s) n)),
)

-- A signed action is accepted exactly when its deadline, with the stored grace window added, has not
-- passed, it names this contract, its nonce is the current one of its identity, and that nonce is
-- not the last u64. It then raises the nonce of that identity by one, and changes nothing else.
pub validate_exact :
    (e : Env) (identity c : Address) (deadline n : ℕ) (s t : Storage)
    → (validate_and_consume e identity c deadline n s ≡ done tt t)
      ↔ Accepted e identity c deadline n (get_grace_window s) s t
unfolding validate_and_consume validate_and_consume_with_grace require_not_expired
validate_exact e identity c deadline n s t =
    graced-Accepted e identity c deadline n (get_grace_window s) s t

abbrev Rises : Storage → Storage → Type 0
Rises s t = (a : Address) → get_nonce a s ≤ get_nonce a t

consume-Rises : (b : Address) (n : ℕ) (s : Storage) → Rises s (after s (consume_nonce b n s))
unfolding consume_nonce
consume-Rises b n s a = elim (Bool-cases (a == b)) [
  | inl here ↦ ground (arith, ==_iff a b)
  | inr elsewhere ↦ ground arith
]

apply-Rises : (e : Env) (c : Call) (s : Storage) → Rises s (apply e c s)
unfolding apply set_grace_window validate_and_consume validate_and_consume_with_grace
    require_not_expired require_domain_match
apply-Rises e (consume b n) s a = consume-Rises b n s a
apply-Rises e (allow grace) s a = omega arith
apply-Rises e (validate b c deadline n) s a = ground (arith, consume-Rises b n s a)
apply-Rises e (validate_with_grace b c deadline n grace) s a = ground (arith, consume-Rises b n s a)

run-Rises : (cs : List (Env × Call)) (s : Storage) → Rises s (run cs s)
unfolding run
run-Rises [] s a = omega arith
run-Rises ((e, c) ∷ cs) s a = omega (arith, apply-Rises e c s a, run-Rises cs (apply e c s) a)

below-refused :
    (a : Address) (n : ℕ) (s : Storage) → n < get_nonce a s → succeeds (consume_nonce a n s) ≡ false
unfolding consume_nonce
below-refused a n s h = ground (arith, ==_iff (get_nonce a s) n)

signed-refused :
    (e : Env) (a c : Address) (deadline n grace : ℕ) (s : Storage)
    → n < get_nonce a s
    → (succeeds (validate_and_consume e a c deadline n s) ≡ false)
      × (succeeds (validate_and_consume_with_grace e a c deadline n grace s) ≡ false)
unfolding validate_and_consume validate_and_consume_with_grace require_not_expired
    require_domain_match
signed-refused e a c deadline n grace s h =
    (ground (arith, below-refused a n s h), ground (arith, below-refused a n s h))

Accepted-next :
    (e : Env) (a c : Address) (deadline n grace : ℕ) (s t : Storage)
    → Accepted e a c deadline n grace s t
    → n < get_nonce a t
Accepted-next e a c deadline n grace s t (_, _, _, _, stored) = ground (arith, ==_iff a a)

-- After a signed action of an identity has been accepted, with the stored grace window or with one
-- of the caller's, every signed action of that identity with the same nonce is refused, whatever
-- its deadline, domain and grace, and whatever calls come in between, changes of the grace window
-- included.
pub signed_once :
    (e f : Env) (a c d : Address) (deadline late n grace more : ℕ) (s t : Storage)
    (cs : List (Env × Call))
    → (validate_and_consume e a c deadline n s ≡ done tt t)
      ⊎ (validate_and_consume_with_grace e a c deadline n grace s ≡ done tt t)
    → (succeeds (validate_and_consume f a d late n (run cs t)) ≡ false)
      × (succeeds (validate_and_consume_with_grace f a d late n more (run cs t)) ≡ false)
signed_once e f a c d deadline late n grace more s t cs h =
    let next : n < get_nonce a t = elim h [
      | inl stored ↦
          Accepted-next e a c deadline n (get_grace_window s) s t
            ((validate_exact e a c deadline n s t).0 stored)
      | inr given ↦
          Accepted-next e a c deadline n grace s t
            ((graced-Accepted e a c deadline n grace s t).0 given)
    ] in
    signed-refused f a d late n more (run cs t) (omega (arith, next, run-Rises cs t a))
