-- ===== src/Treasury/Tests.antt =====
-- The treasury on a concrete token without fees (contracts/credence_treasury/src/treasury.rs).
use credence_contracts.Prelude.{
  ℕ, ◌+◌, ◌≡◌, ◌≢◌, refl, subst, true, false, Option, some, none, List, [], ◌∷◌, arith, ◌==◌, ◌||◌,
  if◌then◌else◌, Bool-cases, inl, inr,
}
use credence_contracts.Prelude.Int.{ℤ, pos, negsuc, is_negative, ltb_ℤ, ◌+ℤ◌, ◌-ℤ◌, ◌≤ℤ◌, int_laws}
use credence_contracts.Host.{Env, put, done}
use credence_contracts.Host.Token.{Tokens, Delivers, MovesExactly}
use credence_contracts.Treasury.State.{
  Storage, World, WithdrawalProposal, protocol_fee, slashed_funds, get_balance,
  get_cumulative_received, get_min_liquidity,
}
use credence_contracts.Treasury.Amounts.{
  cumulative_to_u256, add_to_cumulative, proportional_deduction,
}
use credence_contracts.Treasury.Config.{initial, initialize, add_signer, set_threshold}
use credence_contracts.Treasury.Funds.{
  record_fee, execute_withdrawal, receive_fee, settle, check_withdrawal, propose_withdrawal,
  approve_withdrawal,
}
use credence_contracts.Treasury.Settlement.{IsBalanced, settled, settle_lem}
use credence_contracts.Treasury.Withdrawal.{Checked, withdrawal_correct}
use credence_contracts.Treasury.Deposits.{Deposited, Reconciles, deposit_correct}
use credence_contracts.Treasury.Calls.{LocalCall, Call, apply, run, apply_local}
use credence_contracts.Treasury.Books.{BooksInOrder, local-BooksInOrder}
use credence_contracts.Treasury.History.{run-BooksInOrder}
use credence_contracts.Treasury.Signers.{TreasurySignersAgree}
use credence_contracts.Treasury.Solvency.{IsSolvent, run-IsSolvent}

-- One ledger, whatever the token's address; a negative or uncovered amount is refused.
abbrev send : ℕ → (ℕ → ℤ) → ℕ → ℕ → ℤ → Option (ℕ → ℤ)
send token l from to n =
    if is_negative n || ltb_ℤ (l from) n
    then none
    else (if from == to then some l else some (put to (l to +ℤ n) (put from (l from -ℤ n) l)))

abbrev plain : Tokens (ℕ → ℤ)
plain = record { balance = λ token l a. l a; transfer = send }

-- A transfer that returns moved an amount that is not negative, between two accounts or not at all.
send_moves :
    (token : ℕ) (l l' : ℕ → ℤ) (from to : ℕ) (n : ℤ)
    → from ≢ to
    → send token l from to n ≡ some l'
    → (is_negative n ≡ false) × (l' to ≡ l to +ℤ n) × (l' from ≡ l from -ℤ n)
send_moves token l l' from to n other h = ground arith

send_keeps :
    (token : ℕ) (l l' : ℕ → ℤ) (own : ℕ) (n : ℤ)
    → send token l own own n ≡ some l'
    → (is_negative n ≡ false) × (l' own ≡ l own)
send_keeps token l l' own n h = ground arith

not_negative : (a n : ℤ) → is_negative n ≡ false → (a ≤ℤ a +ℤ n) × (pos 0 ≤ℤ n)
not_negative a (pos n) h = (omega int_laws, omega arith)
not_negative a (negsuc n) h = cc

send_bounds :
    (token : ℕ) (l l' : ℕ → ℤ) (from to : ℕ) (n : ℤ)
    → send token l from to n ≡ some l'
    → (l to ≤ℤ l' to) × (l' to ≤ℤ l to +ℤ n)
send_bounds token l l' from to n h = elim (Bool-cases (from == to)) [
  | inl yes_it_is ↦
      let same : from ≡ to = ground arith in
      let (k, e) = send_keeps token l l' to n (subst (λ a. send token l a to n ≡ some l') same h) in
      rw e (omega arith, (not_negative (l to) n k).0)
  | inr different ↦
      let (k, e, _) = send_moves token l l' from to n (λ same. ground arith) h in
      rw e ((not_negative (l to) n k).0, omega arith)
]

delivers : Delivers plain
delivers = record {
  no_loss = λ token l l' from to n h. (send_bounds token l l' from to n h).0;
  no_excess = λ token l l' from to n h. (send_bounds token l l' from to n h).1;
}

exact : MovesExactly plain
exact = record {
  receives = λ token l l' from to n other h. (send_moves token l l' from to n other h).1;
  pays = λ token l l' from to n other h. (send_moves token l l' from to n other h).2;
  keeps = λ token l l' own n h. (send_keeps token l l' own n h).1;
}

abbrev blank : Storage
blank = record {
  pause = record {
    admin = none;
    paused = none;
    pause_signer = λ _. none;
    pause_signer_count = none;
    pause_threshold = none;
    pause_proposal_counter = none;
    pause_proposal = λ _. none;
    pause_approval = λ _ _. none;
    pause_approval_count = λ _. none;
  };
  total_balance = none;
  balance_by_source = λ _. none;
  cumulative_received = none;
  cumulative_received_by_source = λ _. none;
  depositor = λ _. none;
  signer = λ _. none;
  signer_count = none;
  threshold = none;
  proposal_counter = none;
  proposal = λ _. none;
  approval = λ _ _. none;
  approval_count = λ _. none;
  min_liquidity = none;
  token = none;
  proposal_ttl = none;
}

blank-BooksInOrder : BooksInOrder blank
unfolding cumulative_to_u256
blank-BooksInOrder = record {
  balanced = record {
    total_nonneg = refl;
    protocol_nonneg = refl;
    slashed_nonneg = refl;
    sum = refl;
    bounded = omega arith;
  };
  positive = λ id p k. ground arith;
  reconciled = record {
    in_segment = (refl, omega arith);
    each_in_segment = λ f. (refl, omega arith);
    lifetime = refl;
  };
}

abbrev env : Env
env = record { timestamp = 10; sequence = 0; current_contract = 0; authorized = λ _. true }

-- The treasury is at address 0, its admin at 1 with 1000 units, the token at 9.
abbrev start : World (ℕ → ℤ)
start = record { storage = initial 1 9 blank; ledger = put 1 (pos 1000) (λ _. pos 0) }

start-BooksInOrder : BooksInOrder start.storage
unfolding apply_local initialize
start-BooksInOrder = local-BooksInOrder env (LocalCall.set_up 1 9) blank blank-BooksInOrder

abbrev calls : List (Env × Call)
calls =
    (env, Call.local (LocalCall.add 2))
    ∷ (env, Call.local (LocalCall.set_limit 1))
    ∷ (env, Call.receive 1 (pos 300) protocol_fee)
    ∷ (env, Call.receive 1 (pos 100) slashed_funds)
    ∷ (env, Call.local (LocalCall.propose 2 5 (pos 250)))
    ∷ (env, Call.local (LocalCall.approve 2 0))
    ∷ (env, Call.withdraw 0 (pos 250))
    ∷ []

start-IsSolvent : IsSolvent plain 0 9 start
start-IsSolvent = record { holds = refl; covered = omega arith }

run-IsSolvent_example :
    BooksInOrder (run plain calls start).storage × IsSolvent plain 0 9 (run plain calls start)
run-IsSolvent_example =
    run-IsSolvent plain delivers exact calls 0 9 start ground arith start-BooksInOrder
      start-IsSolvent

run-BooksInOrder_example : BooksInOrder (run plain calls start).storage
run-BooksInOrder_example =
    run-BooksInOrder plain delivers calls start (tt, (tt, (refl, (refl, (tt, (tt, (tt, tt)))))))
      start-BooksInOrder

abbrev deposited : World (ℕ → ℤ)
deposited = apply plain env (Call.receive 1 (pos 300) protocol_fee) start

deposit_correct_example :
    Deposited env 1 300 protocol_fee start.storage deposited.storage
    × IsBalanced deposited.storage
    × Reconciles deposited.storage
    × (cumulative_to_u256 (get_cumulative_received deposited.storage)
        ≡ cumulative_to_u256 (get_cumulative_received start.storage) + 300)
unfolding apply receive_fee record_fee add_to_cumulative ◌+ℤ◌
deposit_correct_example =
    deposit_correct env 1 300 protocol_fee start.storage deposited.storage (omega arith)
      start-BooksInOrder.balanced start-BooksInOrder.reconciled refl

-- Six calls, up to the approval.
abbrev before : World (ℕ → ℤ)
before =
    run plain
      ((env, Call.local (LocalCall.add 2))
        ∷ (env, Call.local (LocalCall.set_limit 1))
        ∷ (env, Call.receive 1 (pos 300) protocol_fee)
        ∷ (env, Call.receive 1 (pos 100) slashed_funds)
        ∷ (env, Call.local (LocalCall.propose 2 5 (pos 250)))
        ∷ (env, Call.local (LocalCall.approve 2 0))
        ∷ [])
      start

before-BooksInOrder : BooksInOrder before.storage
before-BooksInOrder =
    run-BooksInOrder plain delivers _ start (tt, (tt, (refl, (refl, (tt, (tt, tt))))))
      start-BooksInOrder

abbrev paid : World (ℕ → ℤ)
paid = apply plain env (Call.withdraw 0 (pos 250)) before

withdrawal_correct_example :
    (p : WithdrawalProposal) × Checked env 0 before.storage p
    × IsBalanced paid.storage
    × (pos 250 ≤ℤ get_balance before.storage -ℤ get_balance paid.storage)
    × (get_balance before.storage -ℤ get_balance paid.storage ≤ℤ p.amount)
    × (get_min_liquidity before.storage ≤ℤ get_balance paid.storage)
    × (paid.storage.proposal 0 ≡ some (record p { executed = true }))
unfolding run apply apply_local receive_fee record_fee add_to_cumulative add_signer set_threshold
    propose_withdrawal approve_withdrawal execute_withdrawal check_withdrawal settle
    proportional_deduction ◌+ℤ◌ ◌-ℤ◌
withdrawal_correct_example =
    withdrawal_correct plain delivers env 0 (pos 250) before paid before-BooksInOrder.balanced
      before-BooksInOrder.positive refl

abbrev a_proposal : WithdrawalProposal
a_proposal = record {
  recipient = 5;
  amount = pos 100;
  proposed_at = 10;
  expires_at = 604810;
  proposer = 2;
  executed = false;
}

deposited-IsBalanced : IsBalanced deposited.storage
deposited-IsBalanced = deposit_correct_example.1

settle_lem_example :
    settle 0 a_proposal (pos 100) deposited.storage
    ≡ done tt (settled 0 a_proposal 100 deposited.storage)
unfolding apply receive_fee record_fee add_to_cumulative ◌+ℤ◌
settle_lem_example =
    settle_lem 0 a_proposal 100 deposited.storage deposited-IsBalanced (omega arith) (omega arith)

-- One signer and a threshold of one.
abbrev one_signer : Storage
one_signer = record blank {
  pause = record blank.pause { admin = some 1 };
  signer = put 2 (some true) blank.signer;
  signer_count = some 1;
  threshold = some 1;
}

one_signer-TreasurySignersAgree : TreasurySignersAgree one_signer
one_signer-TreasurySignersAgree = record {
  counted = (2 ∷ [], (refl, tt), λ a. ground arith, refl);
  reachable = omega arith;
}
