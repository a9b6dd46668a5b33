-- ===== src/Bond/Claims/Tests.antt =====
-- The claims of a user on a concrete storage (contracts/credence_bond/src/claims.rs).
use credence_contracts.Prelude.{
  ℕ, ◌≤◌, ◌≡◌, refl, true, false, none, some, List, [], ◌∷◌, ◌++◌, length, not, arith,
  if◌then◌else◌,
}
use credence_contracts.Prelude.Int.{ℤ, pos, ◌+ℤ◌, ◌-ℤ◌}
use credence_contracts.Prelude.Slices.{take, suffix}
use credence_contracts.Host.{Env, put, remove, done}
use credence_contracts.Host.Token.{Tokens}
use credence_contracts.Bond.Claims.{
  verifier_reward, fee_rebate, PendingClaim, ClaimResult, Storage, new_claim, add_pending_claim,
  is_expired_unpaid, batch_limit, is_empty, max_batch_claims, get_pending_claims,
  get_claimable_amount, expire_claims_bounded, sweep_first, book_claims, process_from,
  process_claim,
}
use credence_contracts.Bond.Claims.Payment.{World, process_claims, Booked, sum}
use credence_contracts.Bond.Claims.Accounts.{IsAccounted, Sent, process_claims_exact}
use credence_contracts.Bond.Claims.Sweeps.{select, expire_bounded_exact}
use credence_contracts.Bond.Claims.Ids.{IdsInOrder}
use credence_contracts.Bond.Claims.History.{
  add_claim, claim_rewards, Call, run, has_id, none_marked, paid_once,
}

abbrev free_tokens : Tokens (ℕ → ℤ)
free_tokens = record {
  balance = λ token l a. l a;
  transfer = λ token l from to n. some (put to (l to +ℤ n) (put from (l from -ℤ n) l));
}

-- Contract 9 at time 3,000,000; user 5 authorises the call.
abbrev host : Env
host = record { timestamp = 3000000; sequence = 1; current_contract = 9; authorized = λ a. true }

abbrev early : PendingClaim
early = record {
  claim_id = 1;
  claim_type = verifier_reward;
  amount = pos 40;
  created_at = 10;
  expires_at = 2592010;
  source_id = 0;
  metadata = [];
  processed = false;
}

abbrev recent : PendingClaim
recent = record {
  claim_id = 2;
  claim_type = fee_rebate;
  amount = pos 60;
  created_at = 2999999;
  expires_at = 5591999;
  source_id = 0;
  metadata = [];
  processed = false;
}

abbrev two_claims : Storage
two_claims = record {
  claim_by_id = λ i. none;
  pending_claims = put 5 (some (early ∷ recent ∷ [])) (λ a. none);
  claimable_amount = put 5 (some (pos 100)) (λ a. none);
  claim_counter = some 2;
  bond_token = some 7;
}

abbrev rich : World (ℕ → ℤ)
rich = record { storage = two_claims; ledger = λ a. pos 1000 }

two_claims-IsAccounted : IsAccounted two_claims 5
unfolding ◌+ℤ◌
two_claims-IsAccounted = refl

-- The storage after a call that has left one claim, worth `n`, or none.
abbrev one_left : Storage
one_left = record two_claims {
  pending_claims = put 5 (some (recent ∷ [])) two_claims.pending_claims;
  claimable_amount = put 5 (some (pos 60)) two_claims.claimable_amount;
}

expired : expire_claims_bounded host 5 1 two_claims ≡ done 1 one_left
unfolding expire_claims_bounded sweep_first ◌+ℤ◌ ◌-ℤ◌
expired = refl

expire_bounded_exact_example :
    (get_pending_claims one_left 5
      ≡ select
          (λ c. not (is_expired_unpaid host c))
          (take (batch_limit 1) (get_pending_claims two_claims 5))
        ++ suffix (batch_limit 1) (get_pending_claims two_claims 5))
    × (1
        ≡ length (
            select
              (is_expired_unpaid host)
              (take (batch_limit 1) (get_pending_claims two_claims 5))))
    × (1 ≤ max_batch_claims)
    × IsAccounted one_left 5
expire_bounded_exact_example =
    expire_bounded_exact host 5 1 1 two_claims one_left two_claims-IsAccounted expired

abbrev third : PendingClaim
third = new_claim host fee_rebate (pos 7) 11 none 3

abbrev three_claims : Storage
three_claims = record two_claims {
  claim_by_id = put 3 (some third) (λ i. none);
  pending_claims = put 5 (some (early ∷ recent ∷ third ∷ [])) two_claims.pending_claims;
  claimable_amount = put 5 (some (pos 107)) two_claims.claimable_amount;
  claim_counter = some 3;
}

added : add_pending_claim host 5 fee_rebate (pos 7) 11 none two_claims ≡ done 3 three_claims
unfolding add_pending_claim ◌+ℤ◌
added = refl

-- One claim is dropped as expired, the other is paid.
abbrev after_payment : World (ℕ → ℤ)
after_payment = record {
  storage = record two_claims {
    claim_by_id = put 2 (some (record recent { processed = true })) (λ i. none);
    pending_claims = remove 5 two_claims.pending_claims;
    claimable_amount = remove 5 two_claims.claimable_amount;
  };
  ledger = put 5 (pos 1060) (put 9 (pos 940) (λ a. pos 1000));
}

abbrev receipt : ClaimResult
receipt = record { processed_count = 1; total_amount = pos 60; claim_types = fee_rebate ∷ [] }

paid : process_claims free_tokens host 5 [] 0 rich ≡ done receipt after_payment
unfolding process_claims book_claims process_from process_claim ◌+ℤ◌ ◌-ℤ◌
paid = refl

process_claims_exact_example :
    (b : Booked host 5 [] rich.storage after_payment.storage receipt) × (get_claimable_amount
        after_payment.storage 5
      ≡ (if is_empty b.kept
          then pos 0
          else sum (get_pending_claims after_payment.storage 5) +ℤ sum b.gone))
    × Sent free_tokens host 5 (sum b.paid) rich after_payment
process_claims_exact_example =
    process_claims_exact free_tokens host 5 [] 0 rich after_payment receipt two_claims-IsAccounted
      paid

two_claims-IdsInOrder : IdsInOrder none_marked two_claims
two_claims-IdsInOrder = ((λ a i m. absurd (ground arith)), λ a. ground arith)

abbrev later : List (Env × Call)
later = (host, add_claim 5 fee_rebate (pos 7) 11 none) ∷ (host, claim_rewards 5 [] 0) ∷ []

paid_once_example :
    (b : Booked host 5 [] rich.storage after_payment.storage receipt) × ((i : ℕ)
      → has_id i b.paid ≡ true
      → has_id i (get_pending_claims (run free_tokens later after_payment).storage 5) ≡ false)
paid_once_example =
    paid_once free_tokens host 5 [] 0 rich after_payment receipt later two_claims-IdsInOrder paid
