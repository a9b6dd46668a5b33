-- ===== src/Treasury/History.antt =====
-- The treasury's accounts stay in order, whatever is called
-- (contracts/credence_treasury/src/treasury.rs).
use credence_contracts.Prelude.{
  ℕ, ◌≡◌, sym, subst, some, List, [], ◌∷◌, arith, inl, inr, ◌==◌, Bool-cases,
}
use credence_contracts.Prelude.Int.{ℤ}
use credence_contracts.Host.{Env, done, Outcome-cases}
use credence_contracts.Host.Token.{Tokens, Delivers}
use credence_contracts.Treasury.State.{Storage, World, WithdrawalProposal}
use credence_contracts.Treasury.Funds.{receive_fee, execute_withdrawal, rescue_native}
use credence_contracts.Treasury.Settlement.{settled, settled-IsBalanced}
use credence_contracts.Treasury.Withdrawal.{PositiveAmounts, withdrawal-Settles}
use credence_contracts.Treasury.Deposits.{Reconciles}
use credence_contracts.Treasury.Calls.{Call, apply, run}
use credence_contracts.Treasury.Books.{
  BooksInOrder, local-BooksInOrder, receive_inv, rescue_inv, IsTyped, receive-BooksInOrder,
}

settled-PositiveAmounts :
    (id : ℕ) (p : WithdrawalProposal) (n : ℕ) (s : Storage)
    → s.proposal id ≡ some p
    → PositiveAmounts s
    → PositiveAmounts (settled id p n s)
settled-PositiveAmounts id p n s stored v i q k = elim (Bool-cases (i == id)) [
  | inl yes_it_is ↦ ground (arith, v id p stored)
  | inr other ↦ ground (arith, v i q)
]

settled-Reconciles :
    (id : ℕ) (p : WithdrawalProposal) (n : ℕ) (s : Storage)
    → Reconciles s
    → Reconciles (settled id p n s)
settled-Reconciles id p n s v = record {
  in_segment = v.in_segment;
  each_in_segment = v.each_in_segment;
  lifetime = v.lifetime;
}

abbrev pub AreTyped : List (Env × Call) → Type 0
AreTyped [] = Unit
AreTyped ((e, c) ∷ cs) = IsTyped c × AreTyped cs

module _ {L : Type 0} (tokens : Tokens L) (delivers : Delivers tokens) where
  withdraw-BooksInOrder :
      (e : Env) (id : ℕ) (least : ℤ) (w w' : World L)
      → BooksInOrder w.storage
      → execute_withdrawal tokens e id least w ≡ done tt w'
      → BooksInOrder w'.storage
  withdraw-BooksInOrder e id least w w' v h =
      let r = withdrawal-Settles tokens delivers e id least w w' v.balanced v.positive h in
      subst BooksInOrder (sym r.result) (record {
        balanced =
            settled-IsBalanced id r.steps.p r.arrived w.storage v.balanced r.some_there r.fits;
        positive =
            settled-PositiveAmounts id r.steps.p r.arrived w.storage r.steps.checked.stored
              v.positive;
        reconciled = settled-Reconciles id r.steps.p r.arrived w.storage v.reconciled;
      })

  pub apply-BooksInOrder :
      (e : Env) (c : Call) (w : World L)
      → IsTyped c
      → BooksInOrder w.storage
      → BooksInOrder (apply tokens e c w).storage
  unfolding apply
  apply-BooksInOrder e (Call.local c) w typed v = local-BooksInOrder e c w.storage v
  apply-BooksInOrder e (Call.receive from amount f) w typed v =
      elim (Outcome-cases (receive_fee tokens e from amount f w)) [
        | inl (x, failed) ↦ rw failed v
        | inr (u, w', ok) ↦ rw ok (
            receive-BooksInOrder e from amount f w.storage w'.storage typed v
              (receive_inv tokens e from amount f w w' ok))
      ]
  apply-BooksInOrder e (Call.withdraw id least) w typed v =
      elim (Outcome-cases (execute_withdrawal tokens e id least w)) [
        | inl (x, failed) ↦ rw failed v
        | inr (u, w', ok) ↦ rw ok (withdraw-BooksInOrder e id least w w' v ok)
      ]
  apply-BooksInOrder e (Call.rescue admin to amount) w typed v =
      elim (Outcome-cases (rescue_native tokens e admin to amount w)) [
        | inl (x, failed) ↦ rw failed v
        | inr (u, w', ok) ↦
            rw ok (subst BooksInOrder (sym (rescue_inv tokens e admin to amount w w' ok)) v)
      ]

  -- With a token that delivers at least nothing and at most what is sent, any sequence of calls, of
  -- any callers, leaves accounts in order that are in order: the total is the sum of the two
  -- sources and none of them is negative, every stored proposal asks for a positive amount, and
  -- the lifetime amounts of the sources add up to that of the treasury.
  pub run-BooksInOrder :
      (cs : List (Env × Call)) (w : World L)
      → AreTyped cs
      → BooksInOrder w.storage
      → BooksInOrder (run tokens cs w).storage
  unfolding run
  run-BooksInOrder [] w typed v = v
  run-BooksInOrder ((e, c) ∷ cs) w (typed, rest) v =
      run-BooksInOrder cs (apply tokens e c w) rest (apply-BooksInOrder e c w typed v)
