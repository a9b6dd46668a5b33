-- ===== src/Treasury/Books.antt =====
-- The treasury's accounts stay in order, whatever is called
-- (contracts/credence_treasury/src/treasury.rs).
use credence_contracts.Prelude.{
  ℕ, ◌≡◌, refl, sym, ap, ◌∙◌, Bool-cases, true, Option, arith, inl, inr,
}
use credence_contracts.Prelude.Int.{ℤ, pos, negsuc, fits_i128}
use credence_contracts.Host.{Address, Env, done, Outcome-cases}
use credence_contracts.Host.Token.{Tokens}
use credence_contracts.Treasury.State.{Storage, World, FundSource, WithdrawalProposal}
use credence_contracts.Treasury.Config.{
  initial, initialize, add_depositor, remove_depositor, add_signer, remove_signer, set_threshold,
  set_token, set_min_liquidity, set_proposal_ttl,
}
use credence_contracts.Treasury.Amounts.{cumulative_to_u256}
use credence_contracts.Treasury.Funds.{
  propose_withdrawal, approve_withdrawal, record_fee, receive_fee, rescue_native,
}
use credence_contracts.Treasury.Settlement.{IsBalanced}
use credence_contracts.Treasury.Withdrawal.{PositiveAmounts}
use credence_contracts.Treasury.Deposits.{Reconciles, deposit_correct}
use credence_contracts.Treasury.Calls.{LocalCall, apply_local, Call}

pub record BooksInOrder (s : Storage) : Type 0 where
  pub balanced : IsBalanced s
  pub positive : PositiveAmounts s
  pub reconciled : Reconciles s

-- A call that leaves the amounts alone.
abbrev SameAmounts : Storage → Storage → Type 0
SameAmounts s t =
    (t.total_balance ≡ s.total_balance)
    × (t.balance_by_source ≡ s.balance_by_source)
    × (t.cumulative_received ≡ s.cumulative_received)
    × (t.cumulative_received_by_source ≡ s.cumulative_received_by_source)

SameAmounts-IsBalanced : (s t : Storage) → SameAmounts s t → IsBalanced s → IsBalanced t
SameAmounts-IsBalanced s t (p, q, _, _) v = record {
  total_nonneg = rw p v.total_nonneg;
  protocol_nonneg = rw q v.protocol_nonneg;
  slashed_nonneg = rw q v.slashed_nonneg;
  sum = rw (p, q) v.sum;
  bounded = rw p v.bounded;
}

SameAmounts-Reconciles : (s t : Storage) → SameAmounts s t → Reconciles s → Reconciles t
SameAmounts-Reconciles s t (_, _, p, q) v = record {
  in_segment = rw p v.in_segment;
  each_in_segment = λ f. rw q (v.each_in_segment f);
  lifetime = rw (p, q) v.lifetime;
}

-- Any local call but `initialize`.
abbrev pub IsOperation : LocalCall → Type 0
IsOperation (LocalCall.set_up admin token) = ⊥
IsOperation c = Unit

pub local-SameAmounts :
    (e : Env) (c : LocalCall) (s : Storage) → IsOperation c → SameAmounts s (apply_local e c s)
unfolding apply_local add_depositor remove_depositor add_signer remove_signer set_threshold
    set_token set_min_liquidity set_proposal_ttl propose_withdrawal approve_withdrawal
local-SameAmounts e (LocalCall.set_up admin token) s o = absurd o
local-SameAmounts e (LocalCall.allow a) s o = ground arith
local-SameAmounts e (LocalCall.disallow a) s o = ground arith
local-SameAmounts e (LocalCall.add a) s o = ground arith
local-SameAmounts e (LocalCall.drop a) s o = ground arith
local-SameAmounts e (LocalCall.set_limit limit) s o = ground arith
local-SameAmounts e (LocalCall.replace_token admin token) s o = ground arith
local-SameAmounts e (LocalCall.set_floor admin floor) s o = ground arith
local-SameAmounts e (LocalCall.set_ttl admin ttl) s o = ground arith
local-SameAmounts e (LocalCall.propose proposer recipient amount) s o = ground arith
local-SameAmounts e (LocalCall.approve approver id) s o = ground arith
local-SameAmounts e (LocalCall.pausing c) s o = (refl, refl, refl, refl)

local-PositiveAmounts :
    (e : Env) (c : LocalCall) (s : Storage)
    → PositiveAmounts s
    → PositiveAmounts (apply_local e c s)
unfolding apply_local initialize add_depositor remove_depositor add_signer remove_signer
    set_threshold set_token set_min_liquidity set_proposal_ttl propose_withdrawal approve_withdrawal
local-PositiveAmounts e (LocalCall.set_up admin token) s v id p k = ground (arith, v id p)
local-PositiveAmounts e (LocalCall.allow a) s v id p k = ground (arith, v id p)
local-PositiveAmounts e (LocalCall.disallow a) s v id p k = ground (arith, v id p)
local-PositiveAmounts e (LocalCall.add a) s v id p k = ground (arith, v id p)
local-PositiveAmounts e (LocalCall.drop a) s v id p k = ground (arith, v id p)
local-PositiveAmounts e (LocalCall.set_limit limit) s v id p k = ground (arith, v id p)
local-PositiveAmounts e (LocalCall.replace_token admin token) s v id p k = ground (arith, v id p)
local-PositiveAmounts e (LocalCall.set_floor admin floor) s v id p k = ground (arith, v id p)
local-PositiveAmounts e (LocalCall.set_ttl admin ttl) s v id p k = ground (arith, v id p)
local-PositiveAmounts e (LocalCall.propose proposer recipient amount) s v id p k =
    ground (arith, v id p)
local-PositiveAmounts e (LocalCall.approve approver i) s v id p k = ground (arith, v id p)
local-PositiveAmounts e (LocalCall.pausing c) s v id p k = v id p k

initial-IsBalanced : (admin token : Address) (s : Storage) → IsBalanced (initial admin token s)
initial-IsBalanced admin token s = record {
  total_nonneg = refl;
  protocol_nonneg = refl;
  slashed_nonneg = refl;
  sum = refl;
  bounded = omega arith;
}

initial-Reconciles : (admin token : Address) (s : Storage) → Reconciles (initial admin token s)
unfolding cumulative_to_u256
initial-Reconciles admin token s = record {
  in_segment = (refl, omega arith);
  each_in_segment = λ f. (refl, omega arith);
  lifetime = refl;
}

pub local-BooksInOrder :
    (e : Env) (c : LocalCall) (s : Storage) → BooksInOrder s → BooksInOrder (apply_local e c s)
unfolding apply_local initialize
local-BooksInOrder e (LocalCall.set_up admin token) s v = record {
  balanced = elim (Bool-cases (e.authorized admin)) [
    | inl yes_it_is ↦ rw yes_it_is (initial-IsBalanced admin token s)
    | inr refused ↦ rw refused v.balanced
  ];
  positive = local-PositiveAmounts e (LocalCall.set_up admin token) s v.positive;
  reconciled = elim (Bool-cases (e.authorized admin)) [
    | inl yes_it_is ↦ rw yes_it_is (initial-Reconciles admin token s)
    | inr refused ↦ rw refused v.reconciled
  ];
}
local-BooksInOrder e c s v = record {
  balanced = SameAmounts-IsBalanced s (apply_local e c s) (local-SameAmounts e c s tt) v.balanced;
  positive = local-PositiveAmounts e c s v.positive;
  reconciled =
      SameAmounts-Reconciles s (apply_local e c s) (local-SameAmounts e c s tt) v.reconciled;
}

module _ {L : Type 0} (tokens : Tokens L) where
  pub receive_inv :
      (e : Env) (from : Address) (amount : ℤ) (f : FundSource) (w w' : World L)
      → receive_fee tokens e from amount f w ≡ done tt w'
      → record_fee e from amount f w.storage ≡ done tt w'.storage
  unfolding receive_fee
  receive_inv e from amount f w w' h = elim (Outcome-cases (record_fee e from amount f w.storage)) [
    | inl (x, failed) ↦ absurd (ground arith)
    | inr (u, s, booked) ↦ ground arith
  ]

  pub rescue_inv :
      (e : Env) (admin to : Address) (amount : ℤ) (w w' : World L)
      → rescue_native tokens e admin to amount w ≡ done tt w'
      → w'.storage ≡ w.storage
  unfolding rescue_native
  rescue_inv e admin to amount w w' h = ground arith

pub record_refuses :
    (e : Env) (from : Address) (n : ℕ) (f : FundSource) (s t : Storage)
    → record_fee e from (negsuc n) f s ≡ done tt t
    → ⊥
unfolding record_fee
record_refuses e from n f s t h = ground arith

-- What Rust's types say of the arguments: an amount is an i128.
abbrev pub IsTyped : Call → Type 0
IsTyped (Call.receive from amount f) = fits_i128 amount ≡ true
IsTyped c = Unit

pub receive-BooksInOrder :
    (e : Env) (from : Address) (amount : ℤ) (f : FundSource) (s t : Storage)
    → fits_i128 amount ≡ true
    → BooksInOrder s
    → record_fee e from amount f s ≡ done tt t
    → BooksInOrder t
receive-BooksInOrder e from (negsuc n) f s t b v h = absurd (record_refuses e from n f s t h)
receive-BooksInOrder e from (pos n) f s t b v h =
    let (d, balanced, reconciled, _) =
      deposit_correct e from n f s t (ground arith) v.balanced v.reconciled h in
    record {
      balanced = balanced;
      positive = λ id p k.
          v.positive id p
            (ap (λ (m : ℕ → Option WithdrawalProposal). m id) (sym d.same_proposals) ∙ k);
      reconciled = reconciled;
    }
