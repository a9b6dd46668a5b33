-- ===== src/Bond/Claims/Sweeps.antt =====
-- What the sweeps remove, and that they keep the accounts (contracts/credence_bond/src/claims.rs).
-- (contracts/credence_bond/src/claims.rs).
use mathlib.Core.List.{append-nil, append_assoc}
use credence_contracts.Prelude.{
  ℕ, zero, suc, ◌+◌, ◌≤◌, ◌≡◌, refl, sym, ap, subst, ◌∙◌, Bool, true, List, [], ◌∷◌, ◌++◌, length,
  ltb, not, if◌then◌else◌, arith, Bool-cases, inl, inr,
}
use credence_contracts.Prelude.Slices.{take, suffix}
use credence_contracts.Prelude.Int.{
  ℤ, pos, pos_part, neg_part, ◌+ℤ◌, ◌-ℤ◌, int_laws, eq_of_parts, +ℤ_assoc, +ℤ_zero, zero_+ℤ,
}
use credence_contracts.Host.{Address, Outcome, Env, done, Outcome-cases}
use credence_contracts.Bond.Claims.{
  max_batch_claims, is_expired_unpaid, PendingClaim, Storage, is_expired, is_empty, batch_limit,
  store_claims, store_swept, sweep_all, cleanup_expired_claims, sweep_first, expire_claims_bounded,
  get_pending_claims, get_claimable_amount,
}
use credence_contracts.Bond.Claims.Payment.{batch_limit_bound, sum, store_claims_lem}
use credence_contracts.Bond.Claims.Accounts.{IsAccounted, sum-append}

abbrev pub select : (PendingClaim → Bool) → List PendingClaim → List PendingClaim
select f [] = []
select f (c ∷ cs) = let rest = select f cs in if f c then c ∷ rest else rest

pub sweep_all_lem :
    (e : Env) (cs valid v : List PendingClaim) (a b : ℤ) (n m : ℕ) (s t : Storage)
    → sweep_all e cs valid a n s ≡ done (v, b, m) t
    → (v ≡ valid ++ select (λ c. not (is_expired e c)) cs)
      × (b ≡ a +ℤ sum (select (is_expired e) cs))
      × (m ≡ n + length (select (is_expired e) cs))
      × (t ≡ s)
unfolding sweep_all
sweep_all_lem e [] valid v a b n m s t h = ground (arith, +ℤ_zero a, append-nil valid)
sweep_all_lem e (c ∷ cs) valid v a b n m s t h = elim (Bool-cases (is_expired e c)) [
  | inl gone ↦ ground (
    arith,
    sweep_all_lem e cs valid v (a +ℤ c.amount) b (n + 1) m s t,
    +ℤ_assoc a c.amount (sum (select (is_expired e) cs)),
  )
  | inr stays ↦ ground (
    arith,
    sweep_all_lem e cs (valid ++ c ∷ []) v a b n m s t,
    append_assoc valid (c ∷ []) (select (λ d. not (is_expired e d)) cs),
  )
]

-- What is kept and what is not are worth the whole.
sum-select :
    (f : PendingClaim → Bool) (cs : List PendingClaim)
    → sum cs ≡ sum (select (λ c. not (f c)) cs) +ℤ sum (select f cs)
sum-select f [] = eq_of_parts _ _ (omega int_laws)
sum-select f (c ∷ cs) =
    let ih = sum-select f cs in
    elim (Bool-cases (f c)) [
      | inl yes_it_is ↦
          rw yes_it_is (eq_of_parts _ _ (omega (int_laws, ap pos_part ih, ap neg_part ih)))
      | inr other ↦ rw other (eq_of_parts _ _ (omega (int_laws, ap pos_part ih, ap neg_part ih)))
    ]

none_selected :
    (f : PendingClaim → Bool) (cs : List PendingClaim)
    → length (select f cs) ≡ 0
    → (select (λ c. not (f c)) cs ≡ cs) × (sum (select f cs) ≡ pos 0)
none_selected f [] h = (refl, refl)
none_selected f (c ∷ cs) h = ground (arith, none_selected f cs)

swept_amount :
    (valid gone : List PendingClaim) (before after' : ℤ)
    → before ≡ sum valid +ℤ sum gone
    → after' ≡ (if is_empty valid then pos 0 else before -ℤ sum gone)
    → after' ≡ sum valid
swept_amount [] gone before after' h k = k
swept_amount (c ∷ cs) gone before after' h k =
    k ∙ eq_of_parts _ _ (omega (int_laws, ap pos_part h, ap neg_part h))

-- Storing the claims that stay keeps the accounts.
store_swept_lem :
    (user : Address) (valid : List PendingClaim) (gone : ℤ) (lost : List PendingClaim) (n m : ℕ)
    (s t : Storage)
    → IsAccounted s user
    → gone ≡ sum lost
    → get_claimable_amount s user ≡ sum valid +ℤ sum lost
    → (n ≡ 0 → get_pending_claims s user ≡ valid)
    → store_swept user (valid, gone, n) s ≡ done m t
    → (get_pending_claims t user ≡ valid) × (m ≡ n) × IsAccounted t user
store_swept_lem user valid gone lost n m s t accounted worth h same k =
    elim (Bool-cases (ltb 0 n)) [
      | inr none_gone ↦
          let end : s ≡ t = ground arith in
          (
            ap (λ (z : Storage). get_pending_claims z user) (sym end) ∙ same (ground arith),
            ground arith,
            subst (λ z. IsAccounted z user) end accounted,
          )
      | inl some_gone ↦ elim (Outcome-cases (store_claims user valid gone s)) [
        | inl (x, failed) ↦ absurd (ground arith)
        | inr (v, u, ok) ↦
            let end : u ≡ t = ground arith in
            let (pending, claimable) = store_claims_lem user valid gone s u ok in
            let amount =
              swept_amount valid lost (get_claimable_amount s user) (get_claimable_amount u user) h
                (subst
                  (λ (z : ℤ).
                    get_claimable_amount u user
                    ≡ (if is_empty valid then pos 0 else get_claimable_amount s user -ℤ z))
                  worth claimable) in
            (
              ap (λ (z : Storage). get_pending_claims z user) (sym end) ∙ pending,
              ground arith,
              subst (λ z. IsAccounted z user) end (amount ∙ ap sum (sym pending)),
            )
      ]
    ]

empty_lem : {A : Type 0} (xs : List A) → is_empty xs ≡ true → xs ≡ []
empty_lem [] h = refl
empty_lem (x ∷ xs) h = absurd (ground arith)

-- For a user whose claimable amount is what the pending claims are worth, `cleanup_expired_claims`
-- leaves exactly the claims that have not expired, in their order, returns how many it has removed,
-- and the claimable amount is again what the pending claims are worth.
pub cleanup_exact :
    (e : Env) (user : Address) (n : ℕ) (s t : Storage)
    → IsAccounted s user
    → cleanup_expired_claims e user s ≡ done n t
    → (get_pending_claims t user ≡ select (λ c. not (is_expired e c)) (get_pending_claims s user))
      × (n ≡ length (select (is_expired e) (get_pending_claims s user)))
      × IsAccounted t user
unfolding cleanup_expired_claims
cleanup_exact e user n s t accounted h =
    let cs = get_pending_claims s user in
    elim (Bool-cases (is_empty cs)) [
      | inl none_there ↦ ground (arith, empty_lem cs none_there)
      | inr some_there ↦ elim (Outcome-cases (sweep_all e cs [] (pos 0) 0 s)) [
        | inl (x, failed) ↦ absurd (ground arith)
        | inr ((valid, amount, count), u, ok) ↦
            let (v, a, c, same) = sweep_all_lem e cs [] valid (pos 0) amount 0 count s u ok in
            let (pending, counted, again) =
              store_swept_lem user valid amount (select (is_expired e) cs) count n s t accounted
                (a ∙ zero_+ℤ (sum (select (is_expired e) cs)))
                (accounted
                  ∙ sum-select (is_expired e) cs
                  ∙ ap (λ (z : List PendingClaim). sum z +ℤ sum (select (is_expired e) cs)) (sym v))
                (λ z. sym (v ∙ (none_selected (is_expired e) cs (omega (arith, c, z))).0))
                (ground arith) in
            (pending ∙ v, omega (arith, counted, c), again)
      ]
    ]

done_lem :
    (valid v cs : List PendingClaim) (a b : ℤ) (n m : ℕ) (s t : Storage)
    → ◌≡◌ {A = Outcome Storage (List PendingClaim × ℤ × ℕ)}
        (done (valid ++ cs, a, n) s)
        (done (v, b, m) t)
    → (v ≡ valid ++ cs) × (b ≡ a +ℤ pos 0) × (m ≡ n + 0) × (t ≡ s)
done_lem valid v cs a b n m s t h = ground (arith, +ℤ_zero a)

pub sweep_first_lem :
    (e : Env) (limit : ℕ) (cs valid v : List PendingClaim) (a b : ℤ) (n m : ℕ) (s t : Storage)
    → sweep_first e limit cs valid a n s ≡ done (v, b, m) t
    → (v ≡ valid ++ (select (λ c. not (is_expired_unpaid e c)) (take limit cs) ++ suffix limit cs))
      × (b ≡ a +ℤ sum (select (is_expired_unpaid e) (take limit cs)))
      × (m ≡ n + length (select (is_expired_unpaid e) (take limit cs)))
      × (t ≡ s)
unfolding sweep_first
sweep_first_lem e zero [] valid v a b n m s t h = ground (arith, +ℤ_zero a, append-nil valid)
sweep_first_lem e (suc limit) [] valid v a b n m s t h = ground (arith, +ℤ_zero a, append-nil valid)
sweep_first_lem e zero (c ∷ cs) valid v a b n m s t h =
    let stop : sweep_first e zero (c ∷ cs) valid a n s ≡ done (valid ++ c ∷ cs, a, n) s = refl in
    done_lem valid v (c ∷ cs) a b n m s t (sym stop ∙ h)
sweep_first_lem e (suc limit) (c ∷ cs) valid v a b n m s t h =
    elim (Bool-cases (is_expired_unpaid e c)) [
      | inl gone ↦ ground (
        arith,
        sweep_first_lem e limit cs valid v (a +ℤ c.amount) b (n + 1) m s t,
        +ℤ_assoc a c.amount (sum (select (is_expired_unpaid e) (take limit cs))),
      )
      | inr stays ↦ ground (
        arith,
        sweep_first_lem e limit cs (valid ++ c ∷ []) v a b n m s t,
        append_assoc valid (c ∷ [])
            (select (λ d. not (is_expired_unpaid e d)) (take limit cs) ++ suffix limit cs),
      )
    ]

take-suffix : (n : ℕ) (cs : List PendingClaim) → take n cs ++ suffix n cs ≡ cs
take-suffix zero cs = refl
take-suffix (suc n) [] = refl
take-suffix (suc n) (c ∷ cs) = ap (λ (z : List PendingClaim). c ∷ z) (take-suffix n cs)

-- What a list is worth, of which only the first part is sifted.
sum-sifted :
    (f : PendingClaim → Bool) (n : ℕ) (cs : List PendingClaim)
    → sum cs
      ≡ sum (select (λ c. not (f c)) (take n cs) ++ suffix n cs) +ℤ sum (select f (take n cs))
sum-sifted f n cs =
    let whole = ap sum (sym (take-suffix n cs)) ∙ sum-append (take n cs) (suffix n cs) in
    let parts = sum-select f (take n cs) in
    let kept = sum-append (select (λ c. not (f c)) (take n cs)) (suffix n cs) in
    eq_of_parts _ _ (
      omega (
        int_laws,
        ap pos_part whole,
        ap neg_part whole,
        ap pos_part parts,
        ap neg_part parts,
        ap pos_part kept,
        ap neg_part kept,
      ))

sifted_empty :
    (f : PendingClaim → Bool) (n : ℕ) (cs : List PendingClaim)
    → cs ≡ []
    → (select (λ c. not (f c)) (take n cs) ++ suffix n cs ≡ [])
      × (length (select f (take n cs)) ≡ 0)
sifted_empty f zero [] h = (refl, refl)
sifted_empty f (suc n) [] h = (refl, refl)
sifted_empty f n (c ∷ cs) h = absurd (ground arith)

length-select :
    (f : PendingClaim → Bool) (cs : List PendingClaim) → length (select f cs) ≤ length cs
length-select f [] = omega arith
length-select f (c ∷ cs) = ground (arith, length-select f cs)

length-take : (n : ℕ) (cs : List PendingClaim) → length (take n cs) ≤ n
length-take zero cs = omega arith
length-take (suc n) [] = omega arith
length-take (suc n) (c ∷ cs) = omega (arith, length-take n cs)

-- For a user whose claimable amount is what the pending claims are worth, `expire_claims_bounded`
-- removes from the first claims, as many as its limit and at most fifty, exactly those that have
-- expired and are not paid, leaves the rest in its order, returns how many it has removed, and
-- makes the claimable amount again what the pending claims are worth.
pub expire_bounded_exact :
    (e : Env) (user : Address) (max_iter n : ℕ) (s t : Storage)
    → IsAccounted s user
    → expire_claims_bounded e user max_iter s ≡ done n t
    → (get_pending_claims t user
        ≡ select
            (λ c. not (is_expired_unpaid e c))
            (take (batch_limit max_iter) (get_pending_claims s user))
          ++ suffix (batch_limit max_iter) (get_pending_claims s user))
      × (n
          ≡ length (
              select
                (is_expired_unpaid e)
                (take (batch_limit max_iter) (get_pending_claims s user))))
      × (n ≤ max_batch_claims)
      × IsAccounted t user
unfolding expire_claims_bounded
expire_bounded_exact e user max_iter n s t accounted h =
    let cs = get_pending_claims s user in
    let limit = batch_limit max_iter in
    let f : PendingClaim → Bool = is_expired_unpaid e in
    let short : length (select f (take limit cs)) ≤ max_batch_claims =
      omega (
        arith,
        length-select f (take limit cs),
        length-take limit cs,
        batch_limit_bound max_iter,
      ) in
    elim (Bool-cases (is_empty cs)) [
      | inl none_there ↦
          let nothing = empty_lem cs none_there in
          let (rest, some_gone) = sifted_empty f limit cs nothing in
          let same : s ≡ t = ground (arith, nothing) in
          let zero_gone : n ≡ 0 = ground (arith, nothing) in
          (
            ap (λ (z : Storage). get_pending_claims z user) (sym same) ∙ nothing ∙ sym rest,
            zero_gone ∙ sym some_gone,
            omega (arith, zero_gone),
            subst (λ z. IsAccounted z user) same accounted,
          )
      | inr some_there ↦ elim (Outcome-cases (sweep_first e limit cs [] (pos 0) 0 s)) [
        | inl (x, failed) ↦ absurd (ground arith)
        | inr ((valid, amount, count), u, ok) ↦
            let (v, a, c, same) =
              sweep_first_lem e limit cs [] valid (pos 0) amount 0 count s u ok in
            let (pending, counted, again) =
              store_swept_lem user valid amount (select f (take limit cs)) count n s t accounted
                (a ∙ zero_+ℤ (sum (select f (take limit cs))))
                (accounted
                  ∙ sum-sifted f limit cs
                  ∙ ap (λ (z : List PendingClaim). sum z +ℤ sum (select f (take limit cs))) (sym v))
                (λ z. sym (
                  v
                  ∙ ap (λ (l : List PendingClaim). l ++ suffix limit cs)
                      (none_selected f (take limit cs) (omega (arith, c, z))).0
                  ∙ take-suffix limit cs))
                (ground arith) in
            (pending ∙ v, omega (arith, counted, c), omega (arith, counted, c, short), again)
      ]
    ]
