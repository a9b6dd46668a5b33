-- ===== src/Bond/Claims/Ids.antt =====
-- The order of the claims' ids (contracts/credence_bond/src/claims.rs).
use credence_contracts.Prelude.{
  ℕ, zero, suc, ◌≤◌, ◌<◌, ◌≡◌, refl, sym, ap, subst, ◌∙◌, ◌⊎◌, Bool, true, false, Option, List, [],
  ◌∷◌, ◌++◌, not, ltb, ◌==◌, ==_iff, arith, Bool-cases, inl, inr,
}
use credence_contracts.Prelude.Int.{ℤ, pos}
use credence_contracts.Prelude.Slices.{take, suffix}
use credence_contracts.Host.{Address, Entries, Env, done, Outcome-cases, unwrap_or}
use credence_contracts.Bond.Claims.{
  is_empty, sweep_all, sweep_first, Text, ClaimType, PendingClaim, Storage, is_expired,
  is_expired_unpaid, batch_limit, no_progress, process_from, store_claims, store_swept, ClaimResult,
  new_claim, add_pending_claim, cleanup_expired_claims, expire_claims_bounded, get_pending_claims,
  book_claims,
}
use credence_contracts.Bond.Claims.Payment.{
  book_claims-Booked, store_claims_lem, process_from_same, Splits, nothing, keeps, pays, drops,
}
use credence_contracts.Bond.Claims.Accounts.{add_pending_claim-Added}
use credence_contracts.Bond.Claims.Sweeps.{select, sweep_all_lem, sweep_first_lem}

module _ (marked : ℕ → Bool) where
  -- The ids ascend from above `low` to at most `high`, and none of them is marked.
  abbrev pub Between : ℕ → ℕ → List PendingClaim → Type 0
  Between low high [] = low ≤ high
  Between low high (c ∷ cs) =
      (low < c.claim_id) × (marked c.claim_id ≡ false) × Between c.claim_id high cs

  pub lower :
      (low low' high : ℕ) (cs : List PendingClaim)
      → low' ≤ low
      → Between low high cs
      → Between low' high cs
  lower low low' high [] h b = omega arith
  lower low low' high (c ∷ cs) h (p, m, q) = (omega arith, m, q)

  raise :
      (low high high' : ℕ) (cs : List PendingClaim)
      → high ≤ high'
      → Between low high cs
      → Between low high' cs
  raise low high high' [] h b = omega arith
  raise low high high' (c ∷ cs) h (p, m, q) = (p, m, raise c.claim_id high high' cs h q)

  append-Between :
      (low high : ℕ) (cs : List PendingClaim) (c : PendingClaim)
      → Between low high cs
      → high < c.claim_id
      → marked c.claim_id ≡ false
      → Between low c.claim_id (cs ++ c ∷ [])
  append-Between low high [] c b h m = (omega arith, m, omega arith)
  append-Between low high (d ∷ ds) c (p, n, q) h m =
      (p, n, append-Between d.claim_id high ds c q h m)

  skip :
      (low high : ℕ) (c : PendingClaim) (cs : List PendingClaim)
      → Between low high (c ∷ cs)
      → Between low high cs
  skip low high c cs (p, m, q) = lower c.claim_id low high cs (omega arith) q

  pub Splits-Between :
      {e : Env} {types : List ClaimType} {cs kept paid gone : List PendingClaim} (low high : ℕ)
      → Splits e types cs kept paid gone
      → Between low high cs
      → Between low high kept
  Splits-Between low high nothing b = b
  Splits-Between low high (keeps c h) (p, m, q) = (p, m, Splits-Between c.claim_id high h q)
  Splits-Between low high (pays {cs} c x y z h) b = Splits-Between low high h (skip low high c cs b)
  Splits-Between low high (drops {cs} c x h) b = Splits-Between low high h (skip low high c cs b)

  -- Sifting the first `n` claims keeps the order.
  sift-Between :
      (f : PendingClaim → Bool) (n low high : ℕ) (cs : List PendingClaim)
      → Between low high cs
      → Between low high (select f (take n cs) ++ suffix n cs)
  sift-Between f zero low high cs b = b
  sift-Between f (suc n) low high [] b = b
  sift-Between f (suc n) low high (c ∷ cs) b = elim (Bool-cases (f c)) [
    | inl stays ↦ rw stays (b.0, b.1, sift-Between f n c.claim_id high cs b.2)
    | inr gone ↦ rw gone (sift-Between f n low high cs (skip low high c cs b))
  ]

  select-Between :
      (f : PendingClaim → Bool) (low high : ℕ) (cs : List PendingClaim)
      → Between low high cs
      → Between low high (select f cs)
  select-Between f low high [] b = b
  select-Between f low high (c ∷ cs) b = elim (Bool-cases (f c)) [
    | inl stays ↦ rw stays (b.0, b.1, select-Between f c.claim_id high cs b.2)
    | inr gone ↦ rw gone (select-Between f low high cs (skip low high c cs b))
  ]

abbrev pub counter : Storage → ℕ
counter s = unwrap_or s.claim_counter 0

-- What a call for one user leaves alone.
pub record Others (user : Address) (s t : Storage) : Type 0 where
  pub counter_kept : t.claim_counter ≡ s.claim_counter
  pub others_kept :
      (a : Address) → (a == user) ≡ false → get_pending_claims t a ≡ get_pending_claims s a

store_claims-Others :
    (user : Address) (claims : List PendingClaim) (amount : ℤ) (s t : Storage)
    → store_claims user claims amount s ≡ done tt t
    → Others user s t
store_claims-Others user [] amount s t h = record {
  counter_kept = ground arith;
  others_kept = λ a k. ground arith;
}
store_claims-Others user (c ∷ cs) amount s t h = record {
  counter_kept = ground arith;
  others_kept = λ a k. ground arith;
}

store_swept-Others :
    (user : Address) (claims : List PendingClaim) (amount : ℤ) (count n : ℕ) (s t : Storage)
    → store_swept user (claims, amount, count) s ≡ done n t
    → Others user s t
store_swept-Others user claims amount count n s t h = elim (Bool-cases (ltb 0 count)) [
  | inr nothing_gone ↦
      let end : s ≡ t = ground arith in
      subst (Others user s) end (record { counter_kept = refl; others_kept = λ a k. refl })
  | inl some_gone ↦ elim (Outcome-cases (store_claims user claims amount s)) [
    | inl (x, failed) ↦ absurd (ground arith)
    | inr (v, u, ok) ↦
        let end : u ≡ t = ground arith in
        subst (Others user s) end (store_claims-Others user claims amount s u ok)
  ]
]

pub book_claims-Others :
    (e : Env) (user : Address) (types : List ClaimType) (max_claims : ℕ) (s t : Storage)
    (r : ClaimResult)
    → book_claims e user types max_claims s ≡ done r t
    → Others user s t
unfolding book_claims
book_claims-Others e user types max_claims s t r h =
    let claims = get_pending_claims s user in
    elim (Outcome-cases (process_from e types (batch_limit max_claims) claims no_progress s)) [
      | inl (x, failed) ↦ absurd (ground arith)
      | inr (p, u, ok) ↦
          let (pending, claimable, token, count) =
            process_from_same e types (batch_limit max_claims) claims no_progress p s u ok in
          elim (Outcome-cases (store_claims user p.remaining_claims p.total_amount u)) [
            | inl (x, failed) ↦ absurd (ground arith)
            | inr (v, w, stored) ↦
                let o = store_claims-Others user p.remaining_claims p.total_amount u w stored in
                let end : w ≡ t = ground arith in
                subst (Others user s) end (record {
                  counter_kept = o.counter_kept ∙ count;
                  others_kept = λ a k.
                      o.others_kept a k
                      ∙ ap (λ (f : Entries (List PendingClaim)). unwrap_or (f a) []) pending;
                })
          ]
    ]

store_swept_pending :
    (user : Address) (claims : List PendingClaim) (amount : ℤ) (count n : ℕ) (s t : Storage)
    → store_swept user (claims, amount, count) s ≡ done n t
    → (get_pending_claims t user ≡ get_pending_claims s user) ⊎ (get_pending_claims t user ≡ claims)
store_swept_pending user claims amount count n s t h = elim (Bool-cases (ltb 0 count)) [
  | inr nothing_gone ↦ inl (ground arith)
  | inl some_gone ↦ elim (Outcome-cases (store_claims user claims amount s)) [
    | inl (x, failed) ↦ absurd (ground arith)
    | inr (v, u, ok) ↦
        let end : u ≡ t = ground arith in
        inr (
          ap (λ (z : Storage). get_pending_claims z user) (sym end)
          ∙ (store_claims_lem user claims amount s u ok).0)
  ]
]

module _ (marked : Address → ℕ → Bool) where
  -- Of every user, the pending claims have ascending ids, up to the counter, none of them marked for
  -- the user; and only ids up to the counter are marked.
  abbrev pub IdsInOrder : Storage → Type 0
  IdsInOrder s =
      ((a : Address) (i : ℕ) → marked a i ≡ true → i ≤ counter s)
      × ((a : Address) → Between (marked a) 0 (counter s) (get_pending_claims s a))

  -- A call that treats one user's claims keeps the order if it does so for that user.
  Others-IdsInOrder :
      (user : Address) (s t : Storage) (cs : List PendingClaim)
      → Others user s t
      → get_pending_claims t user ≡ cs
      → Between (marked user) 0 (counter s) cs
      → IdsInOrder s
      → IdsInOrder t
  Others-IdsInOrder user s t cs o p b (u, v) =
      let count : counter t ≡ counter s = ap (λ (z : Option ℕ). unwrap_or z 0) o.counter_kept in
      (
        (λ a i m. omega (arith, count, u a i m)),
        (λ a. elim (Bool-cases (a == user)) [
          | inl same ↦
              subst (λ (z : ℕ). Between (marked z) 0 (counter t) (get_pending_claims t z))
                (sym (ground (arith, ==_iff a user)))
                (subst (Between (marked user) 0 (counter t)) (sym p) (
                  subst (λ (z : ℕ). Between (marked user) 0 z cs)
                    (ap (λ (z : Option ℕ). unwrap_or z 0) (sym o.counter_kept)) b))
          | inr other ↦ subst (Between (marked a) 0 (counter t)) (sym (o.others_kept a other)) (
              subst (λ (z : ℕ). Between (marked a) 0 z (get_pending_claims s a))
                (ap (λ (z : Option ℕ). unwrap_or z 0) (sym o.counter_kept)) (v a))
        ]),
      )

  swept-IdsInOrder :
      (user : Address) (claims : List PendingClaim) (amount : ℤ) (count n : ℕ) (s t : Storage)
      → store_swept user (claims, amount, count) s ≡ done n t
      → Between (marked user) 0 (counter s) claims
      → IdsInOrder s
      → IdsInOrder t
  swept-IdsInOrder user claims amount count n s t h b v =
      let o = store_swept-Others user claims amount count n s t h in
      elim (store_swept_pending user claims amount count n s t h) [
        | inl same ↦ Others-IdsInOrder user s t (get_pending_claims s user) o same (v.1 user) v
        | inr new ↦ Others-IdsInOrder user s t claims o new b v
      ]

  pub cleanup-IdsInOrder :
      (e : Env) (user : Address) (n : ℕ) (s t : Storage)
      → cleanup_expired_claims e user s ≡ done n t
      → IdsInOrder s
      → IdsInOrder t
  unfolding cleanup_expired_claims
  cleanup-IdsInOrder e user n s t h v =
      let cs = get_pending_claims s user in
      elim (Bool-cases (is_empty cs)) [
        | inl none_there ↦ let end : s ≡ t = ground arith in subst IdsInOrder end v
        | inr some_there ↦ elim (Outcome-cases (sweep_all e cs [] (pos 0) 0 s)) [
          | inl (x, failed) ↦ absurd (ground arith)
          | inr ((valid, amount, count), u, ok) ↦
              let w = sweep_all_lem e cs [] valid (pos 0) amount 0 count s u ok in
              swept-IdsInOrder user valid amount count n s t (ground (arith, w.3))
                (subst (Between (marked user) 0 (counter s)) (sym w.0) (
                  select-Between (marked user) (λ c. not (is_expired e c)) 0 (counter s) cs
                    (v.1 user)))
                v
        ]
      ]

  pub expire-IdsInOrder :
      (e : Env) (user : Address) (max_iter n : ℕ) (s t : Storage)
      → expire_claims_bounded e user max_iter s ≡ done n t
      → IdsInOrder s
      → IdsInOrder t
  unfolding expire_claims_bounded
  expire-IdsInOrder e user max_iter n s t h v =
      let cs = get_pending_claims s user in
      let limit = batch_limit max_iter in
      elim (Bool-cases (is_empty cs)) [
        | inl none_there ↦ let end : s ≡ t = ground arith in subst IdsInOrder end v
        | inr some_there ↦ elim (Outcome-cases (sweep_first e limit cs [] (pos 0) 0 s)) [
          | inl (x, failed) ↦ absurd (ground arith)
          | inr ((valid, amount, count), u, ok) ↦
              let w = sweep_first_lem e limit cs [] valid (pos 0) amount 0 count s u ok in
              swept-IdsInOrder user valid amount count n s t (ground (arith, w.3))
                (subst (Between (marked user) 0 (counter s)) (sym w.0) (
                  sift-Between (marked user) (λ c. not (is_expired_unpaid e c)) limit 0 (counter s)
                    cs (v.1 user)))
                v
        ]
      ]

  pub add-IdsInOrder :
      (e : Env) (user : Address) (claim_type : ClaimType) (amount : ℤ) (source_id id : ℕ)
      (metadata : Option Text) (s t : Storage)
      → add_pending_claim e user claim_type amount source_id metadata s ≡ done id t
      → IdsInOrder s
      → IdsInOrder t
  add-IdsInOrder e user claim_type amount source_id id metadata s t h (u, v) =
      let d = add_pending_claim-Added e user claim_type amount source_id id metadata s t h in
      let c = new_claim e claim_type amount source_id metadata id in
      let count : counter t ≡ id = ap (λ (z : Option ℕ). unwrap_or z 0) d.counter in
      let higher : counter s < id = omega (arith, d.next) in
      let fresh : marked user id ≡ false = elim (Bool-cases (marked user id)) [
        | inl taken ↦ absurd (omega (arith, higher, u user id taken))
        | inr free ↦ free
      ] in
      (
        (λ a i m. omega (arith, count, higher, u a i m)),
        (λ a.
            subst (λ (z : ℕ). Between (marked a) 0 z (get_pending_claims t a)) (sym count)
              (elim (Bool-cases (a == user)) [
                | inl same ↦
                    subst (λ (z : ℕ). Between (marked z) 0 id (get_pending_claims t z))
                      (sym (ground (arith, ==_iff a user)))
                      (subst (Between (marked user) 0 id) (sym d.pending) (
                        append-Between (marked user) 0 (counter s) (get_pending_claims s user) c
                          (v user) higher fresh))
                | inr other ↦ subst (Between (marked a) 0 id) (sym (d.others a other)) (
                    raise (marked a) 0 (counter s) id (get_pending_claims s a)
                      (omega (arith, higher)) (v a))
              ])),
      )

  pub book-IdsInOrder :
      (e : Env) (user : Address) (types : List ClaimType) (max_claims : ℕ) (s t : Storage)
      (r : ClaimResult)
      → book_claims e user types max_claims s ≡ done r t
      → IdsInOrder s
      → IdsInOrder t
  book-IdsInOrder e user types max_claims s t r h v =
      let b = book_claims-Booked e user types max_claims s t r h in
      Others-IdsInOrder user s t b.kept (book_claims-Others e user types max_claims s t r h)
        b.pending (Splits-Between (marked user) 0 (counter s) b.splits (v.1 user)) v
