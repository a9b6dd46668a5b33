-- ===== src/Treasury/Withdrawal.antt =====
-- What a withdrawal that returns has done (contracts/credence_treasury/src/treasury.rs).
use credence_contracts.Prelude.{
  ℕ, ◌≤◌, ◌<◌, ◌≡◌, refl, sym, ap, subst, ◌∙◌, true, false, some, arith, Option-cases, inl, inr,
}
use credence_contracts.Prelude.Int.{ℤ, pos, negsuc, pos_part, neg_part, abs, ◌-ℤ◌, ◌≤ℤ◌, int_laws}
use credence_contracts.Host.{Address, Env, done, Outcome-cases}
use credence_contracts.Host.Token.{Tokens, Delivers}
use credence_contracts.Pausable
use credence_contracts.Treasury.State.{
  Storage, World, WithdrawalProposal, get_balance, get_threshold, get_approval_count,
  get_min_liquidity,
}
use credence_contracts.Treasury.Funds.{check_withdrawal, settle, execute_withdrawal}
use credence_contracts.Treasury.Settlement.{
  IsBalanced, settled, settle_result, settled_difference, settled-IsBalanced,
}

-- What `check_withdrawal` has found of the proposal that it returns.
pub record Checked (e : Env) (id : ℕ) (s : Storage) (p : WithdrawalProposal) : Type 0 where
  pub running : Pausable.is_paused s.pause ≡ false
  pub stored : s.proposal id ≡ some p
  pub in_time : e.timestamp < p.expires_at
  pub waiting : p.executed ≡ false
  pub approved : get_threshold s ≤ get_approval_count s id
  pub covered : p.amount ≤ℤ get_balance s
  pub floor : get_min_liquidity s ≤ℤ get_balance s -ℤ p.amount

check_inv :
    (e : Env) (id : ℕ) (s s' : Storage) (p : WithdrawalProposal)
    → check_withdrawal e id s ≡ done p s'
    → Checked e id s p × (s' ≡ s)
unfolding check_withdrawal
check_inv e id s s' p h = ground arith

module _ {L : Type 0} (tokens : Tokens L) where
  open tokens use {balance, transfer}

  -- The steps of an execution that returned.
  pub record Withdrawn (e : Env) (id : ℕ) (least : ℤ) (w w' : World L) : Type 0 where
    pub p : WithdrawalProposal
    pub token : Address
    pub ledger : L
    pub checked : Checked e id w.storage p
    pub holds : w.storage.token ≡ some token
    pub sent : transfer token w.ledger e.current_contract p.recipient p.amount ≡ some ledger
    pub enough : least ≤ℤ balance token ledger p.recipient -ℤ balance token w.ledger p.recipient
    pub booked :
        settle id p
          (balance token ledger p.recipient -ℤ balance token w.ledger p.recipient)
          w.storage
        ≡ done tt w'.storage
    pub moved : w'.ledger ≡ ledger

  pub execute-Withdrawn :
      (e : Env) (id : ℕ) (least : ℤ) (w w' : World L)
      → execute_withdrawal tokens e id least w ≡ done tt w'
      → Withdrawn e id least w w'
  unfolding execute_withdrawal
  execute-Withdrawn e id least w w' h = elim (Outcome-cases (check_withdrawal e id w.storage)) [
    | inl (x, failed) ↦ absurd (ground arith)
    | inr (p, s, found) ↦ elim (Option-cases w.storage.token) [
      | inl missing ↦ let c = check_inv e id w.storage s p found in absurd (ground arith)
      | inr (token, holds) ↦
          let c = check_inv e id w.storage s p found in
          elim (Option-cases (transfer token w.ledger e.current_contract p.recipient p.amount)) [
            | inl refused ↦ absurd (ground arith)
            | inr (ledger, sent) ↦ record {
              p = p;
              token = token;
              ledger = ledger;
              checked = c.0;
              holds = holds;
              sent = sent;
              enough = ground arith;
              booked = ground arith;
              moved = ground arith;
            }
          ]
    ]
  ]

-- Every stored proposal asks for something.
abbrev pub PositiveAmounts : Storage → Type 0
PositiveAmounts s = (id : ℕ) (p : WithdrawalProposal) → s.proposal id ≡ some p → pos 1 ≤ℤ p.amount

module _ {L : Type 0} (tokens : Tokens L) (delivers : Delivers tokens) where
  open tokens use {balance, transfer}

  -- The amount that arrived, as a number.
  arrived-cases :
      (a total amount : ℤ)
      → pos 0 ≤ℤ a
      → a ≤ℤ amount
      → amount ≤ℤ total
      → (a ≡ pos (abs a)) × (abs a ≤ abs total)
  arrived-cases (pos n) (pos t) amount h k l = (refl, omega arith)
  arrived-cases (pos n) (negsuc t) amount h k l = absurd (omega arith)
  arrived-cases (negsuc n) total amount h k l = absurd (omega arith)

  positive_total : (amount total : ℤ) → pos 1 ≤ℤ amount → amount ≤ℤ total → 0 < abs total
  positive_total amount (pos t) h k = omega arith
  positive_total amount (negsuc t) h k = absurd (omega arith)

  -- A withdrawal that returned: its steps, and the amount that arrived, which the books have lost.
  pub record Settles (e : Env) (id : ℕ) (least : ℤ) (w w' : World L) : Type 0 where
    pub steps : Withdrawn tokens e id least w w'
    pub arrived : ℕ
    pub received :
        balance steps.token steps.ledger steps.p.recipient
          -ℤ balance steps.token w.ledger steps.p.recipient
        ≡ pos arrived
    pub at_most : pos arrived ≤ℤ steps.p.amount
    pub result : w'.storage ≡ settled id steps.p arrived w.storage
    pub some_there : 0 < abs (get_balance w.storage)
    pub fits : arrived ≤ abs (get_balance w.storage)

  pub withdrawal-Settles :
      (e : Env) (id : ℕ) (least : ℤ) (w w' : World L)
      → IsBalanced w.storage
      → PositiveAmounts w.storage
      → execute_withdrawal tokens e id least w ≡ done tt w'
      → Settles e id least w w'
  withdrawal-Settles e id least w w' v positive h =
      let d = execute-Withdrawn tokens e id least w w' h in
      let low =
        delivers.no_loss d.token w.ledger d.ledger e.current_contract d.p.recipient d.p.amount
          d.sent in
      let high =
        delivers.no_excess d.token w.ledger d.ledger e.current_contract d.p.recipient d.p.amount
          d.sent in
      let total = get_balance w.storage in
      let a : ℤ =
        balance d.token d.ledger d.p.recipient -ℤ balance d.token w.ledger d.p.recipient in
      let (is_n, fits) =
        arrived-cases a total d.p.amount (omega (int_laws, low)) (omega (int_laws, high))
          d.checked.covered in
      let some_there =
        positive_total d.p.amount total (positive id d.p d.checked.stored) d.checked.covered in
      record {
        steps = d;
        arrived = abs a;
        received = is_n;
        at_most = subst (λ z. z ≤ℤ d.p.amount) is_n (omega (int_laws, high));
        result =
            settle_result id d.p (abs a) w.storage w'.storage v some_there fits
              (subst (λ z. settle id d.p z w.storage ≡ done tt w'.storage) is_n d.booked);
        some_there = some_there;
        fits = fits;
      }

  -- With accounts in balance, proposals that ask for positive amounts, and a token that delivers
  -- at least nothing and at most what is sent: an execution that returns was approved by the
  -- threshold, before the proposal expired and not a second time; the total loses at least what
  -- the caller asked for and at most the proposal's amount, the accounts stay in balance and the
  -- total at the liquidity floor or above, and the proposal is marked as executed.
  pub withdrawal_correct :
      (e : Env) (id : ℕ) (least : ℤ) (w w' : World L)
      → IsBalanced w.storage
      → PositiveAmounts w.storage
      → execute_withdrawal tokens e id least w ≡ done tt w'
      → (p : WithdrawalProposal) × Checked e id w.storage p
        × IsBalanced w'.storage
        × (least ≤ℤ get_balance w.storage -ℤ get_balance w'.storage)
        × (get_balance w.storage -ℤ get_balance w'.storage ≤ℤ p.amount)
        × (get_min_liquidity w.storage ≤ℤ get_balance w'.storage)
        × (w'.storage.proposal id ≡ some (record p { executed = true }))
  withdrawal_correct e id least w w' v positive h =
      let r = withdrawal-Settles e id least w w' v positive h in
      let d = r.steps in
      let total = get_balance w.storage in
      let lost : total -ℤ get_balance w'.storage ≡ pos r.arrived =
        subst (λ t. total -ℤ get_balance t ≡ pos r.arrived) (sym r.result)
          (settled_difference id d.p r.arrived w.storage v r.fits) in
      (
        d.p,
        d.checked,
        subst IsBalanced (sym r.result)
            (settled-IsBalanced id d.p r.arrived w.storage v r.some_there r.fits),
        subst (λ z. least ≤ℤ z) (r.received ∙ sym lost) d.enough,
        subst (λ z. z ≤ℤ d.p.amount) (sym lost) r.at_most,
        omega (int_laws, ap pos_part lost, ap neg_part lost, r.at_most, d.checked.floor),
        subst (λ t. t.proposal id ≡ some (record d.p { executed = true })) (sym r.result)
            (ground arith),
      )
