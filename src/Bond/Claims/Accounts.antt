-- ===== src/Bond/Claims/Accounts.antt =====
-- Whether the claimable amount is the sum of the pending claims
-- (contracts/credence_bond/src/claims.rs).
use credence_contracts.Prelude.{
  ℕ, suc, ◌≡◌, sym, ap, subst, ◌∙◌, true, false, Option, some, List, [], ◌∷◌, ◌++◌, ◌==◌,
  if◌then◌else◌, arith, Bool-cases, Option-cases, inl, inr,
}
use credence_contracts.Prelude.Int.{
  ℤ, pos, pos_part, neg_part, ◌+ℤ◌, ◌-ℤ◌, ltb_ℤ, int_laws, eq_of_parts, +ℤ_assoc, zero_+ℤ,
}
use credence_contracts.Host.{Address, Env, done, Outcome-cases, unwrap_or}
use credence_contracts.Host.Token.{Tokens}
use credence_contracts.Bond.Claims.{
  Text, new_claim, ClaimType, PendingClaim, ClaimResult, Storage, is_empty, book_claims,
  add_pending_claim, get_pending_claims, get_claimable_amount,
}
use credence_contracts.Bond.Claims.Payment.{
  World, process_claims, Splits, nothing, keeps, pays, drops, sum, Booked, book_claims-Booked,
}

pub sum-append : (xs ys : List PendingClaim) → sum (xs ++ ys) ≡ sum xs +ℤ sum ys
sum-append [] ys = sym (zero_+ℤ (sum ys))
sum-append (x ∷ xs) ys =
    ap (λ (z : ℤ). x.amount +ℤ z) (sum-append xs ys) ∙ sym (+ℤ_assoc x.amount (sum xs) (sum ys))

-- Nothing is lost: the pending claims are worth what stays, what is paid and what is dropped.
sum-Splits :
    {e : Env} {types : List ClaimType} {cs kept paid gone : List PendingClaim}
    → Splits e types cs kept paid gone
    → sum cs ≡ (sum kept +ℤ sum paid) +ℤ sum gone
sum-Splits nothing = eq_of_parts _ _ (omega int_laws)
sum-Splits (keeps {cs} {kept} {paid} {gone} c h) =
    let ih = sum-Splits h in eq_of_parts _ _ (omega (int_laws, ap pos_part ih, ap neg_part ih))
sum-Splits (pays {cs} {kept} {paid} {gone} c a b d h) =
    let ih = sum-Splits h in eq_of_parts _ _ (omega (int_laws, ap pos_part ih, ap neg_part ih))
sum-Splits (drops {cs} {kept} {paid} {gone} c a h) =
    let ih = sum-Splits h in eq_of_parts _ _ (omega (int_laws, ap pos_part ih, ap neg_part ih))

-- The claimable amount is what the pending claims are worth.
abbrev pub IsAccounted : Storage → Address → Type 0
IsAccounted s user = get_claimable_amount s user ≡ sum (get_pending_claims s user)

payment_amount :
    (kept paid gone : List PendingClaim) (before after' : ℤ)
    → before ≡ (sum kept +ℤ sum paid) +ℤ sum gone
    → after' ≡ (if is_empty kept then pos 0 else before -ℤ sum paid)
    → after' ≡ (if is_empty kept then pos 0 else sum kept +ℤ sum gone)
payment_amount [] paid gone before after' h k = k
payment_amount (c ∷ cs) paid gone before after' h k =
    k ∙ eq_of_parts _ _ (omega (int_laws, ap pos_part h, ap neg_part h))

module _ {L : Type 0} (tokens : Tokens L) where
  open tokens use {transfer}

  -- The transfer of a payment that returned.
  abbrev pub Sent : Env → Address → ℤ → World L → World L → Type 0
  Sent e user amount w w' =
      (ltb_ℤ (pos 0) amount ≡ true
        → (token : Address) × (w'.storage.bond_token ≡ some token)
          × (transfer token w.ledger e.current_contract user amount ≡ some w'.ledger))
      × (ltb_ℤ (pos 0) amount ≡ false → w'.ledger ≡ w.ledger)

  pub process_claims_inv :
      (e : Env) (user : Address) (types : List ClaimType) (max_claims : ℕ) (w w' : World L)
      (r : ClaimResult)
      → process_claims tokens e user types max_claims w ≡ done r w'
      → (book_claims e user types max_claims w.storage ≡ done r w'.storage)
        × Sent e user r.total_amount w w'
  unfolding process_claims
  process_claims_inv e user types max_claims w w' r h =
      elim (Outcome-cases (book_claims e user types max_claims w.storage)) [
        | inl (x, failed) ↦ absurd (ground arith)
        | inr (r', s, ok) ↦ elim (Bool-cases (ltb_ℤ (pos 0) r'.total_amount)) [
          | inl some_paid ↦ elim (Option-cases s.bond_token) [
            | inl missing ↦ absurd (ground arith)
            | inr (token, there) ↦
                elim (Option-cases
                  (transfer token w.ledger e.current_contract user r'.total_amount)) [
                    | inl refused ↦ absurd (ground arith)
                    | inr (l, sent) ↦ (
                      ground arith,
                      ((λ k. (token, ground arith, ground arith)), (λ k. absurd (ground arith))),
                    )
                  ]
          ]
          | inr none_paid ↦ (ground arith, ((λ k. absurd (ground arith)), (λ k. ground arith)))
        ]
      ]

  -- For a user whose claimable amount is what the pending claims are worth: a payment that returns
  -- was authorised by the user; it has split the claims into those that stay, those that are paid,
  -- each of them wanted, unpaid and in time, and those that are dropped as expired; it has paid
  -- between one and fifty, and sent what they are worth. The claimable amount is then zero if no
  -- claim stays, and else passes the worth of those that stay by the worth of the dropped ones.
  pub process_claims_exact :
      (e : Env) (user : Address) (types : List ClaimType) (max_claims : ℕ) (w w' : World L)
      (r : ClaimResult)
      → IsAccounted w.storage user
      → process_claims tokens e user types max_claims w ≡ done r w'
      → (b : Booked e user types w.storage w'.storage r) × (get_claimable_amount w'.storage user ≡ (
          if is_empty b.kept
          then pos 0
          else sum (get_pending_claims w'.storage user) +ℤ sum b.gone))
        × Sent e user (sum b.paid) w w'
  process_claims_exact e user types max_claims w w' r accounted h =
      let (booked, sent) = process_claims_inv e user types max_claims w w' r h in
      let b = book_claims-Booked e user types max_claims w.storage w'.storage r booked in
      let amount =
        payment_amount b.kept b.paid b.gone (get_claimable_amount w.storage user)
          (get_claimable_amount w'.storage user) (accounted ∙ sum-Splits b.splits) b.claimable in
      (
        b,
        subst
            (λ (z : List PendingClaim).
              get_claimable_amount w'.storage user
              ≡ (if is_empty b.kept then pos 0 else sum z +ℤ sum b.gone))
            (sym b.pending) amount,
        subst (λ (z : ℤ). Sent e user z w w') b.total sent,
      )

-- What adding a claim has done when it returned.
pub record Added (e : Env) (user : Address) (c : PendingClaim) (s t : Storage) : Type 0 where
  pub positive : ltb_ℤ (pos 0) c.amount ≡ true
  pub counter : t.claim_counter ≡ some c.claim_id
  pub next : c.claim_id ≡ suc (unwrap_or s.claim_counter 0)
  pub pending : get_pending_claims t user ≡ get_pending_claims s user ++ c ∷ []
  pub claimable : get_claimable_amount t user ≡ get_claimable_amount s user +ℤ c.amount
  pub others : (a : Address) → (a == user) ≡ false → get_pending_claims t a ≡ get_pending_claims s a

pub add_pending_claim-Added :
    (e : Env) (user : Address) (claim_type : ClaimType) (amount : ℤ) (source_id id : ℕ)
    (metadata : Option Text) (s t : Storage)
    → add_pending_claim e user claim_type amount source_id metadata s ≡ done id t
    → Added e user (new_claim e claim_type amount source_id metadata id) s t
unfolding add_pending_claim
add_pending_claim-Added e user claim_type amount source_id id metadata s t h = record {
  positive = ground arith;
  counter = ground arith;
  next = ground arith;
  pending = ground arith;
  claimable = ground arith;
  others = λ a k. ground arith;
}

-- For a user whose claimable amount is what the pending claims are worth, adding a claim that returns
-- was asked for a positive amount, appends one claim of that amount after the others, with the id
-- that follows the counter and that the call returns, and makes the claimable amount again what the
-- pending claims are worth.
pub add_claim_exact :
    (e : Env) (user : Address) (claim_type : ClaimType) (amount : ℤ) (source_id id : ℕ)
    (metadata : Option Text) (s t : Storage)
    → IsAccounted s user
    → add_pending_claim e user claim_type amount source_id metadata s ≡ done id t
    → (ltb_ℤ (pos 0) amount ≡ true)
      × (id ≡ suc (unwrap_or s.claim_counter 0))
      × (get_pending_claims t user
          ≡ get_pending_claims s user ++ new_claim e claim_type amount source_id metadata id ∷ [])
      × IsAccounted t user
add_claim_exact e user claim_type amount source_id id metadata s t accounted h =
    let c = new_claim e claim_type amount source_id metadata id in
    let a = add_pending_claim-Added e user claim_type amount source_id id metadata s t h in
    let one : sum (c ∷ []) ≡ amount = eq_of_parts _ _ (omega int_laws) in
    (
      a.positive,
      a.next,
      a.pending,
      a.claimable
          ∙ ap (λ (z : ℤ). z +ℤ amount) accounted
          ∙ ap (λ (z : ℤ). sum (get_pending_claims s user) +ℤ z) (sym one)
          ∙ sym (sum-append (get_pending_claims s user) (c ∷ []))
          ∙ ap sum (sym a.pending),
    )
