-- ===== src/Treasury/Solvency.antt =====
-- The treasury can pay what it owes (contracts/credence_treasury/src/treasury.rs).
use credence_contracts.Prelude.{
  ℕ, ◌≡◌, ◌≢◌, refl, sym, subst, ap, ◌∙◌, some, List, [], ◌∷◌, arith, inl, inr, ◌==◌, Bool-cases,
  Option-cases,
}
use credence_contracts.Prelude.Int.{ℤ, pos, negsuc, pos_part, neg_part, ◌≤ℤ◌, ◌-ℤ◌, int_laws}
use credence_contracts.Host.{Address, Env, done, Outcome-cases}
use credence_contracts.Host.Token.{Tokens, Delivers, MovesExactly}
use credence_contracts.Treasury.State.{Storage, World, FundSource, get_balance}
use credence_contracts.Treasury.Config.{
  add_depositor, remove_depositor, add_signer, remove_signer, set_threshold, set_token,
  set_min_liquidity, set_proposal_ttl,
}
use credence_contracts.Treasury.Funds.{
  propose_withdrawal, approve_withdrawal, record_fee, receive_fee, execute_withdrawal,
  rescue_native,
}
use credence_contracts.Treasury.Settlement.{settled_difference}
use credence_contracts.Treasury.Withdrawal.{withdrawal-Settles}
use credence_contracts.Treasury.Deposits.{record-Deposited}
use credence_contracts.Treasury.Calls.{LocalCall, apply_local, Call, apply, run}
use credence_contracts.Treasury.Books.{
  BooksInOrder, local-SameAmounts, receive_inv, rescue_inv, record_refuses, IsTyped,
}
use credence_contracts.Treasury.History.{apply-BooksInOrder}

-- A call that leaves the token in place, and brings no money from the treasury's own account.
abbrev pub KeepsToken : Env → Call → Type 0
KeepsToken e (Call.local (LocalCall.set_up admin token)) = ⊥
KeepsToken e (Call.local (LocalCall.replace_token admin token)) = ⊥
KeepsToken e (Call.receive from amount f) = from ≢ e.current_contract
KeepsToken e c = Unit

local_token :
    (e : Env) (c : LocalCall) (s : Storage)
    → KeepsToken e (Call.local c)
    → (apply_local e c s).token ≡ s.token
unfolding apply_local add_depositor remove_depositor add_signer remove_signer set_threshold
    set_token set_min_liquidity set_proposal_ttl propose_withdrawal approve_withdrawal
local_token e (LocalCall.set_up admin token) s o = absurd o
local_token e (LocalCall.replace_token admin token) s o = absurd o
local_token e (LocalCall.allow a) s o = ground arith
local_token e (LocalCall.disallow a) s o = ground arith
local_token e (LocalCall.add a) s o = ground arith
local_token e (LocalCall.drop a) s o = ground arith
local_token e (LocalCall.set_limit limit) s o = ground arith
local_token e (LocalCall.set_floor admin floor) s o = ground arith
local_token e (LocalCall.set_ttl admin ttl) s o = ground arith
local_token e (LocalCall.propose proposer recipient amount) s o = ground arith
local_token e (LocalCall.approve approver id) s o = ground arith
local_token e (LocalCall.pausing c) s o = refl

local_total :
    (e : Env) (c : LocalCall) (s : Storage)
    → KeepsToken e (Call.local c)
    → get_balance (apply_local e c s) ≡ get_balance s
local_total e (LocalCall.set_up admin token) s o = absurd o
local_total e c s o = rw (local-SameAmounts e c s tt).0

module _ {L : Type 0} (tokens : Tokens L) where
  open tokens use {balance, transfer}

  -- The treasury's token stands in its storage, and its account holds the total at least.
  pub record IsSolvent (own : Address) (token : Address) (w : World L) : Type 0 where
    pub holds : w.storage.token ≡ some token
    pub covered : get_balance w.storage ≤ℤ balance token w.ledger own

  receive_sent :
      (e : Env) (from : Address) (amount : ℤ) (f : FundSource) (token : Address) (w w' : World L)
      → w'.storage.token ≡ some token
      → receive_fee tokens e from amount f w ≡ done tt w'
      → transfer token w.ledger from e.current_contract amount ≡ some w'.ledger
  unfolding receive_fee
  receive_sent e from amount f token w w' k h =
      elim (Outcome-cases (record_fee e from amount f w.storage)) [
        | inl (x, failed) ↦ absurd (ground arith)
        | inr (u, s, booked) ↦
            let same : s ≡ w'.storage = ground arith in
            elim (Option-cases (transfer token w.ledger from e.current_contract amount)) [
              | inl refused ↦ absurd (ground arith)
              | inr (ledger, sent) ↦ ground arith
            ]
      ]

  rescue_sent :
      (e : Env) (admin to : Address) (amount : ℤ) (token : Address) (w w' : World L)
      → w.storage.token ≡ some token
      → rescue_native tokens e admin to amount w ≡ done tt w'
      → (transfer token w.ledger e.current_contract to amount ≡ some w'.ledger)
        × (amount ≤ℤ balance token w.ledger e.current_contract -ℤ get_balance w.storage)
  unfolding rescue_native
  rescue_sent e admin to amount token w w' k h =
      elim (Option-cases (transfer token w.ledger e.current_contract to amount)) [
        | inl refused ↦ absurd (ground arith)
        | inr (ledger, sent) ↦ (ground arith, ground arith)
      ]

-- Calls of one contract, none of which sets another token or takes fees from the contract itself.
abbrev pub KeepToken : Address → List (Env × Call) → Type 0
KeepToken own [] = Unit
KeepToken own ((e, c) ∷ cs) =
    (e.current_contract ≡ own) × IsTyped c × KeepsToken e c × KeepToken own cs

module _ {L : Type 0} (tokens : Tokens L) (delivers : Delivers tokens)
    (exact : MovesExactly tokens) where
  open tokens use {balance}

  receive-IsSolvent :
      (e : Env) (from : Address) (amount : ℤ) (f : FundSource) (token : Address) (w w' : World L)
      → from ≢ e.current_contract
      → IsSolvent tokens e.current_contract token w
      → receive_fee tokens e from amount f w ≡ done tt w'
      → IsSolvent tokens e.current_contract token w'
  receive-IsSolvent e from (negsuc n) f token w w' other v h = absurd (
      record_refuses e from n f w.storage w'.storage
        (receive_inv tokens e from (negsuc n) f w w' h))
  receive-IsSolvent e from (pos n) f token w w' other v h =
      let d =
        record-Deposited e from n f w.storage w'.storage
          (receive_inv tokens e from (pos n) f w w' h) in
      let holds = d.same_token ∙ v.holds in
      let sent = receive_sent tokens e from (pos n) f token w w' holds h in
      let grown =
        exact.receives token w.ledger w'.ledger from e.current_contract (pos n) other sent in
      record { holds = holds; covered = rw (d.total, grown) (omega (int_laws, v.covered)) }

  -- Money sent from one's own account: it has lost no more than has arrived.
  sent_out :
      (token : Address) (l l' : L) (own to : Address) (n : ℤ)
      → tokens.transfer token l own to n ≡ some l'
      → balance token l own -ℤ (balance token l' to -ℤ balance token l to) ≤ℤ balance token l' own
  sent_out token l l' own to n sent = elim (Bool-cases (own == to)) [
    | inl yes_it_is ↦
        let same : own ≡ to = ground arith in
        let k = subst (λ a. tokens.transfer token l own a n ≡ some l') (sym same) sent in
        subst
          (λ a.
            balance token l own -ℤ (balance token l' a -ℤ balance token l a)
            ≤ℤ balance token l' own)
          same (rw (exact.keeps token l l' own n k) (omega int_laws))
    | inr different ↦
        let other : own ≢ to = λ same. ground arith in
        rw
          (exact.pays token l l' own to n other sent, exact.receives token l l' own to n other sent)
          (omega int_laws)
  ]

  withdraw-IsSolvent :
      (e : Env) (id : ℕ) (least : ℤ) (token : Address) (w w' : World L)
      → BooksInOrder w.storage
      → IsSolvent tokens e.current_contract token w
      → execute_withdrawal tokens e id least w ≡ done tt w'
      → IsSolvent tokens e.current_contract token w'
  withdraw-IsSolvent e id least token w w' books v h =
      let r = withdrawal-Settles tokens delivers e id least w w' books.balanced books.positive h in
      let d = r.steps in
      let lost : get_balance w.storage -ℤ get_balance w'.storage ≡ pos r.arrived =
        subst (λ t. get_balance w.storage -ℤ get_balance t ≡ pos r.arrived) (sym r.result)
          (settled_difference id d.p r.arrived w.storage books.balanced r.fits) in
      let same : d.token ≡ token = ground (arith, d.holds, v.holds) in
      let out =
        sent_out d.token w.ledger d.ledger e.current_contract d.p.recipient d.p.amount d.sent in
      let covered : get_balance w'.storage ≤ℤ balance d.token d.ledger e.current_contract = omega (
        int_laws,
        ap pos_part lost,
        ap neg_part lost,
        ap pos_part r.received,
        ap neg_part r.received,
        out,
        subst (λ a. get_balance w.storage ≤ℤ balance a w.ledger e.current_contract) (sym same)
            v.covered,
      ) in
      record {
        holds = ap (λ (t : Storage). t.token) r.result ∙ v.holds;
        covered =
            subst (λ a. get_balance w'.storage ≤ℤ balance a w'.ledger e.current_contract) same
              (subst (λ l. get_balance w'.storage ≤ℤ balance d.token l e.current_contract)
                (sym d.moved) covered);
      }

  rescue-IsSolvent :
      (e : Env) (admin to : Address) (amount : ℤ) (token : Address) (w w' : World L)
      → IsSolvent tokens e.current_contract token w
      → rescue_native tokens e admin to amount w ≡ done tt w'
      → IsSolvent tokens e.current_contract token w'
  rescue-IsSolvent e admin to amount token w w' v h =
      let same = rescue_inv tokens e admin to amount w w' h in
      let (sent, excess) = rescue_sent tokens e admin to amount token w w' v.holds h in
      record {
        holds = rw same v.holds;
        covered = omega (
          int_laws,
          excess,
          ap (λ (t : Storage). pos_part (get_balance t)) same,
          ap (λ (t : Storage). neg_part (get_balance t)) same,
          sent_out token w.ledger w'.ledger e.current_contract to amount sent,
          delivers.no_excess token w.ledger w'.ledger e.current_contract to amount sent,
        );
      }

  apply-IsSolvent :
      (e : Env) (c : Call) (token : Address) (w : World L)
      → KeepsToken e c
      → BooksInOrder w.storage
      → IsSolvent tokens e.current_contract token w
      → IsSolvent tokens e.current_contract token (apply tokens e c w)
  unfolding apply
  apply-IsSolvent e (Call.local c) token w keeps books v = record {
    holds = local_token e c w.storage keeps ∙ v.holds;
    covered =
        subst (λ z. z ≤ℤ balance token w.ledger e.current_contract)
          (sym (local_total e c w.storage keeps)) v.covered;
  }
  apply-IsSolvent e (Call.receive from amount f) token w keeps books v =
      elim (Outcome-cases (receive_fee tokens e from amount f w)) [
        | inl (x, failed) ↦ rw failed v
        | inr (u, w', ok) ↦ rw ok (receive-IsSolvent e from amount f token w w' keeps v ok)
      ]
  apply-IsSolvent e (Call.withdraw id least) token w keeps books v =
      elim (Outcome-cases (execute_withdrawal tokens e id least w)) [
        | inl (x, failed) ↦ rw failed v
        | inr (u, w', ok) ↦ rw ok (withdraw-IsSolvent e id least token w w' books v ok)
      ]
  apply-IsSolvent e (Call.rescue admin to amount) token w keeps books v =
      elim (Outcome-cases (rescue_native tokens e admin to amount w)) [
        | inl (x, failed) ↦ rw failed v
        | inr (u, w', ok) ↦ rw ok (rescue-IsSolvent e admin to amount token w w' v ok)
      ]

  -- With a token that charges no fee: from accounts in order and a treasury that holds at least
  -- what its books say, no sequence of deposits, withdrawals, rescues and settings that leaves the
  -- token in place, and takes no fee from the treasury's own account, brings its holding below its
  -- books, and the accounts stay in order.
  pub run-IsSolvent :
      (cs : List (Env × Call)) (own token : Address) (w : World L)
      → KeepToken own cs
      → BooksInOrder w.storage
      → IsSolvent tokens own token w
      → BooksInOrder (run tokens cs w).storage × IsSolvent tokens own token (run tokens cs w)
  unfolding run
  run-IsSolvent [] own token w keeps books v = (books, v)
  run-IsSolvent ((e, c) ∷ cs) own token w (here, typed, keeps, rest) books v =
      run-IsSolvent cs own token (apply tokens e c w) rest
        (apply-BooksInOrder tokens delivers e c w typed books)
        (subst (λ a. IsSolvent tokens a token (apply tokens e c w)) here
          (apply-IsSolvent e c token w keeps books
            (subst (λ a. IsSolvent tokens a token w) (sym here) v)))
