-- ===== src/Bond/Claims.antt =====
-- Rewards that their owners collect (contracts/credence_bond/src/claims.rs).
pub mod Payment
pub mod Accounts
pub mod Sweeps
pub mod Pages
pub mod Ids
pub mod History
mod Tests
use credence_contracts.Prelude.{
  ℕ, zero, suc, ◌+◌, ◌*◌, ◌%◌, ◌^◌, Bool, true, false, Option, none, some, List, [], ◌∷◌, ◌++◌,
  length, ltb, leb, ◌==◌, ◌&&◌, ◌||◌, not, min, if◌then◌else◌,
}
use credence_contracts.Prelude.Int.{ℤ, pos, leb_ℤ, ltb_ℤ, fits_i128, ◌+ℤ◌, ◌-ℤ◌}
use credence_contracts.Host.{
  panic_if, Address, Env, u64_max, Entries, put, remove, Outcome, done, panics, message, Action,
  pure, gets, modify, ◌>>=◌, ◌>>◌, unwrap_or, require_auth, branch,
}
use credence_contracts.Host.Token.{Tokens}

abbrev pub Text : Type 0
Text = List ℕ

abbrev pub max_batch_claims : ℕ
max_batch_claims = 50

abbrev pub max_page_limit : ℕ
max_page_limit = 50

-- 30 days.
abbrev pub default_claim_expiry : ℕ
default_claim_expiry = 2592000

pub data ClaimType : Type 0 where
  verifier_reward slashing_reward penalty_refund fee_rebate dispute_reward : ClaimType

abbrev pub claim_type_code : ClaimType → ℕ
claim_type_code verifier_reward = 0
claim_type_code slashing_reward = 1
claim_type_code penalty_refund = 2
claim_type_code fee_rebate = 3
claim_type_code dispute_reward = 4

abbrev pub same_type : ClaimType → ClaimType → Bool
same_type a b = claim_type_code a == claim_type_code b

abbrev pub contains_type : List ClaimType → ClaimType → Bool
contains_type [] t = false
contains_type (x ∷ xs) t = same_type x t || contains_type xs t

pub record PendingClaim : Type 0 where
  pub claim_id : ℕ
  pub claim_type : ClaimType
  pub amount : ℤ
  pub created_at : ℕ
  pub expires_at : ℕ
  pub source_id : ℕ
  pub metadata : Text
  pub processed : Bool

pub record ClaimResult : Type 0 where
  pub processed_count : ℕ
  pub total_amount : ℤ
  pub claim_types : List ClaimType

-- The keys of the contract's storage that this module reads and writes.
pub record Storage : Type 0 where
  pub claim_by_id : Entries PendingClaim
  pub pending_claims : Entries (List PendingClaim)
  pub claimable_amount : Entries ℤ
  pub claim_counter : Option ℕ
  pub bond_token : Option Address

abbrev pub expect : {S A : Type 0} → Option A → Action S A
expect none s = panics message
expect (some a) s = done a s

-- `checked_add` and `checked_sub` on i128, with `expect`.
abbrev pub expect_ℤ : {S : Type 0} → ℤ → Action S ℤ
expect_ℤ a = panic_if (not (fits_i128 a)) >> pure a

abbrev pub get_pending_claims : Storage → Address → List PendingClaim
get_pending_claims s user = unwrap_or (s.pending_claims user) []

abbrev pub get_claimable_amount : Storage → Address → ℤ
get_claimable_amount s user = unwrap_or (s.claimable_amount user) (pos 0)

abbrev pub get_next_claim_id : Action Storage ℕ
get_next_claim_id = do
  current ← gets (λ s. unwrap_or s.claim_counter 0)
  panic_if (ltb u64_max (current + 1))
  modify (λ s. record s { claim_counter = some (current + 1) })
  pure (current + 1)

-- The sum for `expires_at` is not checked.
abbrev pub new_claim : Env → ClaimType → ℤ → ℕ → Option Text → ℕ → PendingClaim
new_claim e claim_type amount source_id metadata claim_id = record {
  claim_id = claim_id;
  claim_type = claim_type;
  amount = amount;
  created_at = e.timestamp;
  expires_at = (e.timestamp + default_claim_expiry) % 2 ^ 64;
  source_id = source_id;
  metadata = unwrap_or metadata [];
  processed = false;
}

unfoldable pub add_pending_claim :
    Env → Address → ClaimType → ℤ → ℕ → Option Text → Action Storage ℕ
add_pending_claim e user claim_type amount source_id metadata = do
  panic_if (leb_ℤ amount (pos 0))
  claim_id ← get_next_claim_id
  let claim = new_claim e claim_type amount source_id metadata claim_id
  modify (λ s. record s { claim_by_id = put claim_id (some claim) s.claim_by_id })
  modify (λ s. record s {
    pending_claims = put user (some (get_pending_claims s user ++ claim ∷ [])) s.pending_claims;
  })
  total ← gets (λ s. get_claimable_amount s user)
  new_total ← expect_ℤ (total +ℤ amount)
  modify (λ s. record s { claimable_amount = put user (some new_total) s.claimable_amount })
  pure claim_id

abbrev pub is_expired : Env → PendingClaim → Bool
is_expired e c = ltb 0 c.expires_at && ltb c.expires_at e.timestamp

-- The lists that the loop of `process_claims` fills, and its sum.
pub record Progress : Type 0 where
  pub processed_claims : List PendingClaim
  pub remaining_claims : List PendingClaim
  pub total_amount : ℤ
  pub processed_types : List ClaimType

abbrev pub no_progress : Progress
no_progress = record {
  processed_claims = [];
  remaining_claims = [];
  total_amount = pos 0;
  processed_types = [];
}

abbrev pub keep : PendingClaim → Progress → Progress
keep c p = record p { remaining_claims = p.remaining_claims ++ c ∷ [] }

abbrev pub is_wanted : List ClaimType → PendingClaim → Bool
is_wanted [] c = true
is_wanted (t ∷ ts) c = contains_type (t ∷ ts) c.claim_type

abbrev pub add_type : List ClaimType → ClaimType → List ClaimType
add_type ts t = if contains_type ts t then ts else ts ++ t ∷ []

-- One round of the loop. Once the limit is reached it stays reached, so the inner loop that keeps the
-- rest is the first branch of every later round.
unfoldable pub process_claim :
    Env → List ClaimType → ℕ → PendingClaim → Progress → Action Storage Progress
process_claim e types limit c p = branch (leb limit (length p.processed_claims)) (pure (keep c p)) (
    branch c.processed (pure (keep c p)) (
      branch (is_expired e c) (pure p) (
        branch (not (is_wanted types c)) (pure (keep c p)) (do
          let paid : PendingClaim = record c { processed = true }
          modify (λ s. record s { claim_by_id = put c.claim_id (some paid) s.claim_by_id })
          total ← expect_ℤ (p.total_amount +ℤ c.amount)
          pure (record p {
            processed_claims = p.processed_claims ++ paid ∷ [];
            total_amount = total;
            processed_types = add_type p.processed_types c.claim_type;
          })))))

unfoldable pub process_from :
    Env → List ClaimType → ℕ → List PendingClaim → Progress → Action Storage Progress
process_from e types limit [] p = pure p
process_from e types limit (c ∷ cs) p = do
  next ← process_claim e types limit c p
  process_from e types limit cs next

abbrev pub batch_limit : ℕ → ℕ
batch_limit n = if n == 0 then max_batch_claims else min n max_batch_claims

abbrev pub is_empty : {A : Type 0} → List A → Bool
is_empty [] = true
is_empty (x ∷ xs) = false

-- What the sweeps and `process_claims` write once they know which claims stay, and which sum left.
abbrev pub store_claims : Address → List PendingClaim → ℤ → Action Storage (Unit {0})
store_claims user claims amount =
    branch (is_empty claims)
      (do
        modify (λ s. record s { pending_claims = remove user s.pending_claims })
        modify (λ s. record s { claimable_amount = remove user s.claimable_amount }))
      (do
        modify (λ s. record s { pending_claims = put user (some claims) s.pending_claims })
        total ← gets (λ s. get_claimable_amount s user)
        rest ← expect_ℤ (total -ℤ amount)
        modify (λ s. record s { claimable_amount = put user (some rest) s.claimable_amount }))

-- `process_claims` up to its transfer.
unfoldable pub book_claims : Env → Address → List ClaimType → ℕ → Action Storage ClaimResult
unfolding process_from
book_claims e user claim_types max_claims = do
  require_auth e user
  claims ← gets (λ s. get_pending_claims s user)
  panic_if (is_empty claims)
  p ← process_from e claim_types (batch_limit max_claims) claims no_progress
  panic_if (is_empty p.processed_claims)
  store_claims user p.remaining_claims p.total_amount
  pure (record {
    processed_count = length p.processed_claims;
    total_amount = p.total_amount;
    claim_types = p.processed_types;
  })

-- The claims that the loop of `cleanup_expired_claims` keeps, the sum of the others, and how many
-- those are: at most the length of a vector, so that a u32 holds it.
unfoldable pub sweep_all :
    Env → List PendingClaim → List PendingClaim → ℤ → ℕ → Action Storage (List PendingClaim × ℤ × ℕ)
sweep_all e [] valid amount count = pure (valid, amount, count)
sweep_all e (c ∷ cs) valid amount count = do
  next ← branch (is_expired e c) (expect_ℤ (amount +ℤ c.amount)) (pure amount)
  sweep_all e cs (if is_expired e c then valid else valid ++ c ∷ []) next
      (if is_expired e c then count + 1 else count)

abbrev pub store_swept : Address → List PendingClaim × ℤ × ℕ → Action Storage ℕ
store_swept user (valid, amount, count) = do
  branch (ltb 0 count) (store_claims user valid amount) (pure tt)
  pure count

unfoldable pub cleanup_expired_claims : Env → Address → Action Storage ℕ
unfolding sweep_all
cleanup_expired_claims e user = do
  claims ← gets (λ s. get_pending_claims s user)
  branch (is_empty claims) (pure 0) (sweep_all e claims [] (pos 0) 0 >>= store_swept user)

abbrev pub is_expired_unpaid : Env → PendingClaim → Bool
is_expired_unpaid e c = is_expired e c && not c.processed

-- The loop of `expire_claims_bounded`: the first claims, up to the limit.
unfoldable pub sweep_first :
    Env
    → ℕ
    → List PendingClaim
    → List PendingClaim
    → ℤ
    → ℕ
    → Action Storage (List PendingClaim × ℤ × ℕ)
sweep_first e limit [] valid amount count = pure (valid, amount, count)
sweep_first e zero (c ∷ cs) valid amount count = pure (valid ++ c ∷ cs, amount, count)
sweep_first e (suc limit) (c ∷ cs) valid amount count = do
  let gone = is_expired_unpaid e c
  next ← branch gone (expect_ℤ (amount +ℤ c.amount)) (pure amount)
  sweep_first e limit cs (if gone then valid else valid ++ c ∷ []) next
      (if gone then count + 1 else count)

unfoldable pub expire_claims_bounded : Env → Address → ℕ → Action Storage ℕ
unfolding sweep_first
expire_claims_bounded e user max_iter = do
  claims ← gets (λ s. get_pending_claims s user)
  branch (is_empty claims) (pure 0)
      (sweep_first e (batch_limit max_iter) claims [] (pos 0) 0 >>= store_swept user)
