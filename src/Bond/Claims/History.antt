-- ===== src/Bond/Claims/History.antt =====
-- Sequences of calls on the claims: what is paid once is never pending again
-- (contracts/credence_bond/src/claims.rs).
use credence_contracts.Prelude.{
  ℕ, ◌≤◌, ◌<◌, ◌≡◌, refl, sym, ap, subst, Bool, true, false, ◌||◌, ◌&&◌, Option, List, [], ◌∷◌,
  ◌==◌, ==_iff, arith, Bool-cases, inl, inr,
}
use credence_contracts.Prelude.Int.{ℤ}
use credence_contracts.Host.{Address, Env, done, after, Outcome-cases, unwrap_or}
use credence_contracts.Host.Token.{Tokens}
use credence_contracts.Bond.Claims.{
  Text, ClaimType, PendingClaim, ClaimResult, add_pending_claim, cleanup_expired_claims,
  expire_claims_bounded, get_pending_claims,
}
use credence_contracts.Bond.Claims.Payment.{
  World, process_claims, Splits, nothing, keeps, pays, drops, Booked, book_claims-Booked,
}
use credence_contracts.Bond.Claims.Accounts.{process_claims_inv}
use credence_contracts.Bond.Claims.Ids.{
  Between, IdsInOrder, add-IdsInOrder, book-IdsInOrder, cleanup-IdsInOrder, expire-IdsInOrder,
  lower, book_claims-Others, counter,
}

-- The calls of other parts of the contract, and those of its users.
pub data Call : Type 0 where
  add_claim : Address → ClaimType → ℤ → ℕ → Option Text → Call
  claim_rewards : Address → List ClaimType → ℕ → Call
  clean_up : Address → Call
  expire_claims : Address → ℕ → Call

module _ {L : Type 0} (tokens : Tokens L) where
  unfoldable pub apply : Env → Call → World L → World L
  apply e (add_claim user t amount source_id metadata) w = record w {
    storage = after w.storage (add_pending_claim e user t amount source_id metadata w.storage);
  }
  apply e (claim_rewards user types max_claims) w =
      after w (process_claims tokens e user types max_claims w)
  apply e (clean_up user) w = record w {
    storage = after w.storage (cleanup_expired_claims e user w.storage);
  }
  apply e (expire_claims user max_iter) w = record w {
    storage = after w.storage (expire_claims_bounded e user max_iter w.storage);
  }

  unfoldable pub run : List (Env × Call) → World L → World L
  run [] w = w
  run ((e, c) ∷ cs) w = run cs (apply e c w)

  apply-IdsInOrder :
      (marked : Address → ℕ → Bool) (e : Env) (c : Call) (w : World L)
      → IdsInOrder marked w.storage
      → IdsInOrder marked (apply e c w).storage
  unfolding apply
  apply-IdsInOrder marked e (add_claim user t amount source_id metadata) w v =
      elim (Outcome-cases (add_pending_claim e user t amount source_id metadata w.storage)) [
        | inl (x, failed) ↦ rw failed v
        | inr (id, s, ok) ↦
            rw ok (add-IdsInOrder marked e user t amount source_id id metadata w.storage s ok v)
      ]
  apply-IdsInOrder marked e (claim_rewards user types max_claims) w v =
      elim (Outcome-cases (process_claims tokens e user types max_claims w)) [
        | inl (x, failed) ↦ rw failed v
        | inr (r, w', ok) ↦ rw ok (
            book-IdsInOrder marked e user types max_claims w.storage w'.storage r
              (process_claims_inv tokens e user types max_claims w w' r ok).0 v)
      ]
  apply-IdsInOrder marked e (clean_up user) w v =
      elim (Outcome-cases (cleanup_expired_claims e user w.storage)) [
        | inl (x, failed) ↦ rw failed v
        | inr (n, s, ok) ↦ rw ok (cleanup-IdsInOrder marked e user n w.storage s ok v)
      ]
  apply-IdsInOrder marked e (expire_claims user max_iter) w v =
      elim (Outcome-cases (expire_claims_bounded e user max_iter w.storage)) [
        | inl (x, failed) ↦ rw failed v
        | inr (n, s, ok) ↦ rw ok (expire-IdsInOrder marked e user max_iter n w.storage s ok v)
      ]

  run-IdsInOrder :
      (marked : Address → ℕ → Bool) (cs : List (Env × Call)) (w : World L)
      → IdsInOrder marked w.storage
      → IdsInOrder marked (run cs w).storage
  unfolding run
  run-IdsInOrder marked [] w v = v
  run-IdsInOrder marked ((e, c) ∷ cs) w v =
      run-IdsInOrder marked cs (apply e c w) (apply-IdsInOrder marked e c w v)

-- Has one of the claims this id?
abbrev pub has_id : ℕ → List PendingClaim → Bool
has_id i [] = false
has_id i (c ∷ cs) = (i == c.claim_id) || has_id i cs

reaches :
    (marked : ℕ → Bool) (low high : ℕ) (cs : List PendingClaim)
    → Between marked low high cs
    → low ≤ high
reaches marked low high [] b = b
reaches marked low high (c ∷ cs) (p, m, q) = omega (arith, p, reaches marked c.claim_id high cs q)

above :
    (marked : ℕ → Bool) (low high i : ℕ) (cs : List PendingClaim)
    → Between marked low high cs
    → has_id i cs ≡ true
    → (low < i) × (i ≤ high)
above marked low high i [] b h = absurd (ground arith)
above marked low high i (c ∷ cs) (p, m, q) h = elim (Bool-cases (i == c.claim_id)) [
  | inl here ↦
      let same : i ≡ c.claim_id = ground (arith, ==_iff i c.claim_id) in
      (omega (arith, p, same), omega (arith, same, reaches marked c.claim_id high cs q))
  | inr later ↦
      let (x, y) = above marked c.claim_id high i cs q (ground arith) in (omega (arith, p, x), y)
]

unmarked :
    (marked : ℕ → Bool) (low high i : ℕ) (cs : List PendingClaim)
    → Between marked low high cs
    → marked i ≡ true
    → has_id i cs ≡ false
unmarked marked low high i [] b h = refl
unmarked marked low high i (c ∷ cs) (p, m, q) h = elim (Bool-cases (i == c.claim_id)) [
  | inl here ↦
      let same : c.claim_id ≡ i = ground (arith, ==_iff i c.claim_id) in
      absurd (ground (arith, ap marked same))
  | inr later ↦ ground (arith, unmarked marked c.claim_id high i cs q h)
]

mark_below :
    (marked : ℕ → Bool) (x low high : ℕ) (cs : List PendingClaim)
    → x ≤ low
    → Between marked low high cs
    → Between (λ i. (i == x) || marked i) low high cs
mark_below marked x low high [] h b = b
mark_below marked x low high (c ∷ cs) h (p, m, q) =
    (p, ground arith, mark_below marked x c.claim_id high cs (omega arith) q)

-- The claims that stay have none of the paid ids.
kept_unpaid :
    {e : Env} {types : List ClaimType} {cs kept paid gone : List PendingClaim} (marked : ℕ → Bool)
    (low high : ℕ)
    → Splits e types cs kept paid gone
    → Between marked low high cs
    → Between (λ i. has_id i paid) low high kept × Between marked low high paid
kept_unpaid marked low high nothing b = (b, b)
kept_unpaid marked low high (keeps {paid} c h) (p, m, q) =
    let (x, y) = kept_unpaid marked c.claim_id high h q in
    let fresh : has_id c.claim_id paid ≡ false = elim (Bool-cases (has_id c.claim_id paid)) [
      | inl there ↦ absurd (omega (arith, (above marked c.claim_id high c.claim_id paid y there).0))
      | inr absent ↦ absent
    ] in
    ((p, fresh, x), lower marked c.claim_id low high paid (omega (arith, p)) y)
kept_unpaid marked low high (pays {kept} {paid} c a b d h) (p, m, q) =
    let (x, y) = kept_unpaid marked c.claim_id high h q in
    (
      lower (λ i. (i == c.claim_id) || has_id i paid) c.claim_id low high kept (omega (arith, p))
          (mark_below (λ i. has_id i paid) c.claim_id c.claim_id high kept (omega arith) x),
      (p, m, y),
    )
kept_unpaid marked low high (drops {kept} {paid} c a h) (p, m, q) =
    let (x, y) = kept_unpaid marked c.claim_id high h q in
    (
      lower (λ i. has_id i paid) c.claim_id low high kept (omega (arith, p)) x,
      lower marked c.claim_id low high paid (omega (arith, p)) y,
    )

abbrev mark_paid : Address → List PendingClaim → Address → ℕ → Bool
mark_paid user paid a i = (a == user) && has_id i paid

-- Two sets of marks that agree at every id.
same_marks :
    (f g : ℕ → Bool) (low high : ℕ) (cs : List PendingClaim)
    → ((i : ℕ) → f i ≡ true → g i ≡ true)
    → Between g low high cs
    → Between f low high cs
same_marks f g low high [] h b = b
same_marks f g low high (c ∷ cs) h (p, m, q) = (
  p,
  elim (Bool-cases (f c.claim_id)) [
    | inl yes_it_is ↦ absurd (ground (arith, h c.claim_id))
    | inr free ↦ free
  ],
  same_marks f g c.claim_id high cs h q,
)

abbrev pub none_marked : Address → ℕ → Bool
none_marked a i = false

module _ {L : Type 0} (tokens : Tokens L) where
  paid-IdsInOrder :
      (e : Env) (user : Address) (types : List ClaimType) (max_claims : ℕ) (w w' : World L)
      (r : ClaimResult)
      → IdsInOrder none_marked w.storage
      → process_claims tokens e user types max_claims w ≡ done r w'
      → (b : Booked e user types w.storage w'.storage r) × IdsInOrder
          (mark_paid user b.paid)
          w'.storage
  paid-IdsInOrder e user types max_claims w w' r v h =
      let booked = (process_claims_inv tokens e user types max_claims w w' r h).0 in
      let b = book_claims-Booked e user types max_claims w.storage w'.storage r booked in
      let (marks, ordered) =
        book-IdsInOrder none_marked e user types max_claims w.storage w'.storage r booked v in
      let (kept, paid) = kept_unpaid (λ i. false) 0 (counter w.storage) b.splits (v.1 user) in
      let o = book_claims-Others e user types max_claims w.storage w'.storage r booked in
      let count : counter w'.storage ≡ counter w.storage =
        ap (λ (z : Option ℕ). unwrap_or z 0) o.counter_kept in
      (
        b,
        (
          (λ a i k. omega (
            arith,
            count,
            (above (λ j. false) 0 (counter w.storage) i b.paid paid (ground arith)).1,
          )),
          (λ a. elim (Bool-cases (a == user)) [
            | inl same ↦
                let here : user ≡ a = ground (arith, ==_iff a user) in
                same_marks (mark_paid user b.paid a) (λ i. has_id i b.paid) 0 (counter w'.storage)
                  (get_pending_claims w'.storage a) (λ i k. ground arith)
                  (subst
                    (λ (z : ℕ).
                      Between (λ i. has_id i b.paid) 0 (counter w'.storage)
                        (get_pending_claims w'.storage z))
                    here
                    (subst (Between (λ i. has_id i b.paid) 0 (counter w'.storage)) (sym b.pending) (
                      subst (λ (z : ℕ). Between (λ i. has_id i b.paid) 0 z b.kept) (sym count)
                        kept)))
            | inr other ↦
                same_marks (mark_paid user b.paid a) (λ i. false) 0 (counter w'.storage)
                  (get_pending_claims w'.storage a) (λ i k. absurd (ground arith)) (ordered a)
          ]),
        ),
      )

  -- From a state in which every user's pending claims have ascending ids up to the counter: a payment
  -- that returns has split the user's claims, and none of the ids that it has paid is pending for
  -- the user after any sequence of later calls.
  pub paid_once :
      (e : Env) (user : Address) (types : List ClaimType) (max_claims : ℕ) (w w' : World L)
      (r : ClaimResult) (later : List (Env × Call))
      → IdsInOrder none_marked w.storage
      → process_claims tokens e user types max_claims w ≡ done r w'
      → (b : Booked e user types w.storage w'.storage r) × ((i : ℕ)
          → has_id i b.paid ≡ true
          → has_id i (get_pending_claims (run tokens later w').storage user) ≡ false)
  paid_once e user types max_claims w w' r later v h =
      let (b, marked) = paid-IdsInOrder e user types max_claims w w' r v h in
      let (marks, ordered) = run-IdsInOrder tokens (mark_paid user b.paid) later w' marked in
      (
        b,
        λ i k.
            unmarked (mark_paid user b.paid user) 0 (counter (run tokens later w').storage) i
              (get_pending_claims (run tokens later w').storage user) (ordered user)
              (ground (arith, k, ==_iff user user)),
      )
