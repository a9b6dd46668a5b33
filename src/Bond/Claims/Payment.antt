-- ===== src/Bond/Claims/Payment.antt =====
-- What a payment of claims does to them (contracts/credence_bond/src/claims.rs).
use credence_contracts.Prelude.{
  ℕ, ◌≤◌, ◌<◌, ◌≡◌, sym, ap, subst, ◌∙◌, true, false, none, some, List, [], ◌∷◌, ◌++◌, map, length,
  leb, ◌⊎◌, if◌then◌else◌, arith, Bool-cases, inl, inr, length-append,
}
use mathlib.Core.List.{append-nil, append_assoc}
use credence_contracts.Prelude.Int.{ℤ, pos, ◌+ℤ◌, ◌-ℤ◌, ltb_ℤ, +ℤ_assoc, +ℤ_zero, zero_+ℤ}
use credence_contracts.Host.{
  Address, Env, done, panics, message, Action, pure, ◌>>=◌, ◌>>◌, branch, Outcome-cases,
}
use credence_contracts.Host.Token.{Tokens}
use credence_contracts.Bond.Claims.{
  ClaimType, PendingClaim, ClaimResult, Storage, Progress, no_progress, is_expired, is_wanted,
  process_claim, process_from, batch_limit, is_empty, store_claims, book_claims, get_pending_claims,
  get_claimable_amount, max_batch_claims,
}

pub record World (L : Type 0) : Type 0 where
  pub storage : Storage
  pub ledger : L

module _ {L : Type 0} (tokens : Tokens L) where
  open tokens use {balance, transfer}

  -- The transfer of `process_claims`.
  abbrev pub pay_out : Env → Address → ℤ → Action (World L) (Unit {0})
  pay_out e user amount w = elim (w.storage.bond_token) [
    | none ↦ panics message
    | some token ↦ elim (transfer token w.ledger e.current_contract user amount) [
      | none ↦ panics message
      | some l ↦ done tt (record w { ledger = l })
    ]
  ]

  unfoldable pub process_claims : Env → Address → List ClaimType → ℕ → Action (World L) ClaimResult
  process_claims e user claim_types max_claims = do
    result ← λ w. elim (book_claims e user claim_types max_claims w.storage) [
      | done r s ↦ done r (record w { storage = s })
      | panics x ↦ panics x
    ]
    branch (ltb_ℤ (pos 0) result.total_amount) (pay_out e user result.total_amount) (pure tt)
    pure result

-- The claims of a list that stay, those that are paid, and those that are dropped.
pub data Splits (e : Env) (types : List ClaimType)
    : List PendingClaim → List PendingClaim → List PendingClaim → List PendingClaim → Type 0 where
  nothing : Splits e types [] [] [] []
  keeps :
      {cs kept paid gone : List PendingClaim} (c : PendingClaim)
      → Splits e types cs kept paid gone
      → Splits e types (c ∷ cs) (c ∷ kept) paid gone
  pays :
      {cs kept paid gone : List PendingClaim} (c : PendingClaim)
      → c.processed ≡ false
      → is_expired e c ≡ false
      → is_wanted types c ≡ true
      → Splits e types cs kept paid gone
      → Splits e types (c ∷ cs) kept (c ∷ paid) gone
  drops :
      {cs kept paid gone : List PendingClaim} (c : PendingClaim)
      → is_expired e c ≡ true
      → Splits e types cs kept paid gone
      → Splits e types (c ∷ cs) kept paid (c ∷ gone)

abbrev pub sum : List PendingClaim → ℤ
sum [] = pos 0
sum (c ∷ cs) = c.amount +ℤ sum cs

abbrev pub pay : PendingClaim → PendingClaim
pay c = record c { processed = true }

-- What the rounds from `p` on have done when they end with `p'`.
pub record Processed (e : Env) (types : List ClaimType) (limit : ℕ) (cs : List PendingClaim)
    (p p' : Progress) : Type 0 where
  pub kept : List PendingClaim
  pub paid : List PendingClaim
  pub gone : List PendingClaim
  pub splits : Splits e types cs kept paid gone
  pub remaining : p'.remaining_claims ≡ p.remaining_claims ++ kept
  pub processed : p'.processed_claims ≡ p.processed_claims ++ map pay paid
  pub total : p'.total_amount ≡ p.total_amount +ℤ sum paid
  pub within : length p.processed_claims ≤ limit → length p'.processed_claims ≤ limit

-- How one round can end.
abbrev Round : Env → List ClaimType → ℕ → PendingClaim → Progress → Progress → Type 0
Round e types limit c p p' =
    ((p'.remaining_claims ≡ p.remaining_claims ++ c ∷ [])
      × (p'.processed_claims ≡ p.processed_claims)
      × (p'.total_amount ≡ p.total_amount))
    ⊎ ((is_expired e c ≡ true) × (p' ≡ p))
    ⊎ ((c.processed ≡ false)
        × (is_expired e c ≡ false)
        × (is_wanted types c ≡ true)
        × (p'.remaining_claims ≡ p.remaining_claims)
        × (p'.processed_claims ≡ p.processed_claims ++ pay c ∷ [])
        × (p'.total_amount ≡ p.total_amount +ℤ c.amount)
        × (length p.processed_claims < limit))

process_claim-Round :
    (e : Env) (types : List ClaimType) (limit : ℕ) (c : PendingClaim) (p p' : Progress)
    (s s' : Storage)
    → process_claim e types limit c p s ≡ done p' s'
    → Round e types limit c p p'
unfolding process_claim
process_claim-Round e types limit c p p' s s' h =
    elim (Bool-cases (leb limit (length p.processed_claims))) [
      | inl full ↦ inl (ground arith, ground arith, ground arith)
      | inr room ↦ elim (Bool-cases c.processed) [
        | inl paid ↦ inl (ground arith, ground arith, ground arith)
        | inr unpaid ↦ elim (Bool-cases (is_expired e c)) [
          | inl expired ↦ inr (inl (expired, ground arith))
          | inr in_time ↦ elim (Bool-cases (is_wanted types c)) [
            | inl wanted ↦ inr (
                inr
                  (unpaid, in_time, wanted, ground arith, ground arith, ground arith, ground arith))
            | inr unwanted ↦ inl (ground arith, ground arith, ground arith)
          ]
        ]
      ]
    ]

process_from-Processed :
    (e : Env) (types : List ClaimType) (limit : ℕ) (cs : List PendingClaim) (p p' : Progress)
    (s s' : Storage)
    → process_from e types limit cs p s ≡ done p' s'
    → Processed e types limit cs p p'
unfolding process_from process_claim
process_from-Processed e types limit [] p p' s s' h = record {
  kept = [];
  paid = [];
  gone = [];
  splits = nothing;
  remaining = ground (arith, append-nil p.remaining_claims);
  processed = ground (arith, append-nil p.processed_claims);
  total = ground (arith, +ℤ_zero p.total_amount);
  within = λ k. ground arith;
}
process_from-Processed e types limit (c ∷ cs) p p' s s' h =
    elim (Outcome-cases (process_claim e types limit c p s)) [
      | inl (x, failed) ↦ absurd (ground arith)
      | inr (q, t, ok) ↦
          let r = process_from-Processed e types limit cs q p' t s' (ground arith) in
          elim (process_claim-Round e types limit c p q s t ok) [
            | inl (k, l, m) ↦ record {
              kept = c ∷ r.kept;
              paid = r.paid;
              gone = r.gone;
              splits = keeps c r.splits;
              remaining =
                  r.remaining
                  ∙ ap (λ (z : List PendingClaim). z ++ r.kept) k
                  ∙ append_assoc p.remaining_claims (c ∷ []) r.kept;
              processed = r.processed ∙ ap (λ (z : List PendingClaim). z ++ map pay r.paid) l;
              total = r.total ∙ ap (λ (z : ℤ). z +ℤ sum r.paid) m;
              within =
                  λ w. r.within (subst (λ (z : List PendingClaim). length z ≤ limit) (sym l) w);
            }
            | inr (inl (k, l)) ↦ record {
              kept = r.kept;
              paid = r.paid;
              gone = c ∷ r.gone;
              splits = drops c k r.splits;
              remaining = r.remaining ∙ ap (λ (z : Progress). z.remaining_claims ++ r.kept) l;
              processed =
                  r.processed ∙ ap (λ (z : Progress). z.processed_claims ++ map pay r.paid) l;
              total = r.total ∙ ap (λ (z : Progress). z.total_amount +ℤ sum r.paid) l;
              within = λ w.
                  r.within (subst (λ (z : Progress). length z.processed_claims ≤ limit) (sym l) w);
            }
            | inr (inr (unpaid, in_time, wanted, k, l, m, room)) ↦ record {
              kept = r.kept;
              paid = c ∷ r.paid;
              gone = r.gone;
              splits = pays c unpaid in_time wanted r.splits;
              remaining = r.remaining ∙ ap (λ (z : List PendingClaim). z ++ r.kept) k;
              processed =
                  r.processed
                  ∙ ap (λ (z : List PendingClaim). z ++ map pay r.paid) l
                  ∙ append_assoc p.processed_claims (pay c ∷ []) (map pay r.paid);
              total =
                  r.total
                  ∙ ap (λ (z : ℤ). z +ℤ sum r.paid) m
                  ∙ +ℤ_assoc p.total_amount c.amount (sum r.paid);
              within = λ w. r.within (
                  subst (λ (z : List PendingClaim). length z ≤ limit) (sym l)
                    (omega (arith, length-append {0} p.processed_claims (pay c ∷ []))));
            }
          ]
    ]

-- What a payment that returned has done to its user's claims.
pub record Booked (e : Env) (user : Address) (types : List ClaimType) (s t : Storage)
    (r : ClaimResult) : Type 0 where
  pub kept : List PendingClaim
  pub paid : List PendingClaim
  pub gone : List PendingClaim
  pub authorized : e.authorized user ≡ true
  pub splits : Splits e types (get_pending_claims s user) kept paid gone
  pub pending : get_pending_claims t user ≡ kept
  pub claimable :
      get_claimable_amount t user
      ≡ (if is_empty kept then pos 0 else get_claimable_amount s user -ℤ sum paid)
  pub counted : r.processed_count ≡ length (map pay paid)
  pub some_paid : 0 < length (map pay paid)
  pub within : length (map pay paid) ≤ max_batch_claims
  pub total : r.total_amount ≡ sum paid

process_claim_same :
    (e : Env) (types : List ClaimType) (limit : ℕ) (c : PendingClaim) (p p' : Progress)
    (s s' : Storage)
    → process_claim e types limit c p s ≡ done p' s'
    → (s'.pending_claims ≡ s.pending_claims)
      × (s'.claimable_amount ≡ s.claimable_amount)
      × (s'.bond_token ≡ s.bond_token)
      × (s'.claim_counter ≡ s.claim_counter)
unfolding process_claim
process_claim_same e types limit c p p' s s' h = ground arith

pub process_from_same :
    (e : Env) (types : List ClaimType) (limit : ℕ) (cs : List PendingClaim) (p p' : Progress)
    (s s' : Storage)
    → process_from e types limit cs p s ≡ done p' s'
    → (s'.pending_claims ≡ s.pending_claims)
      × (s'.claimable_amount ≡ s.claimable_amount)
      × (s'.bond_token ≡ s.bond_token)
      × (s'.claim_counter ≡ s.claim_counter)
unfolding process_from
process_from_same e types limit [] p p' s s' h = ground arith
process_from_same e types limit (c ∷ cs) p p' s s' h =
    elim (Outcome-cases (process_claim e types limit c p s)) [
      | inl (x, failed) ↦ absurd (ground arith)
      | inr (q, t, ok) ↦ ground (
        arith,
        process_claim_same e types limit c p q s t ok,
        process_from_same e types limit cs q p' t s',
      )
    ]

pub store_claims_lem :
    (user : Address) (claims : List PendingClaim) (amount : ℤ) (s t : Storage)
    → store_claims user claims amount s ≡ done tt t
    → (get_pending_claims t user ≡ claims)
      × (get_claimable_amount t user
          ≡ (if is_empty claims then pos 0 else get_claimable_amount s user -ℤ amount))
store_claims_lem user [] amount s t h = ground arith
store_claims_lem user (c ∷ cs) amount s t h = ground arith

pub batch_limit_bound : (n : ℕ) → batch_limit n ≤ max_batch_claims
batch_limit_bound n = ground arith

pub book_claims-Booked :
    (e : Env) (user : Address) (types : List ClaimType) (max_claims : ℕ) (s t : Storage)
    (r : ClaimResult)
    → book_claims e user types max_claims s ≡ done r t
    → Booked e user types s t r
unfolding book_claims
book_claims-Booked e user types max_claims s t r h =
    let claims = get_pending_claims s user in
    elim (Outcome-cases (process_from e types (batch_limit max_claims) claims no_progress s)) [
      | inl (x, failed) ↦ absurd (ground arith)
      | inr (p, u, ok) ↦
          let q =
            process_from-Processed e types (batch_limit max_claims) claims no_progress p s u ok in
          let same =
            process_from_same e types (batch_limit max_claims) claims no_progress p s u ok in
          elim (Outcome-cases (store_claims user p.remaining_claims p.total_amount u)) [
            | inl (x, failed) ↦ absurd (ground arith)
            | inr (v, w, stored) ↦
                let (pending, claimable) =
                  store_claims_lem user p.remaining_claims p.total_amount u w stored in
                let end : w ≡ t = ground arith in
                let counted : r.processed_count ≡ length p.processed_claims = ground arith in
                let total : r.total_amount ≡ p.total_amount = ground arith in
                let some_paid : 0 < length p.processed_claims = ground arith in
                let sums = q.total ∙ zero_+ℤ (sum q.paid) in
                record {
                  kept = q.kept;
                  paid = q.paid;
                  gone = q.gone;
                  authorized = ground arith;
                  splits = q.splits;
                  pending =
                      ap (λ (z : Storage). get_pending_claims z user) (sym end)
                      ∙ pending
                      ∙ q.remaining;
                  claimable =
                      ap (λ (z : Storage). get_claimable_amount z user) (sym end)
                      ∙ claimable
                      ∙ ground (arith, q.remaining, sums, same.1);
                  counted = counted ∙ ap (λ (z : List PendingClaim). length z) q.processed;
                  some_paid = subst (λ (z : List PendingClaim). 0 < length z) q.processed some_paid;
                  within =
                      subst (λ (z : List PendingClaim). length z ≤ max_batch_claims) q.processed
                        (omega (arith, q.within (omega arith), batch_limit_bound max_claims));
                  total = total ∙ sums;
                }
          ]
    ]
