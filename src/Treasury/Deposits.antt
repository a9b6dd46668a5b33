-- ===== src/Treasury/Deposits.antt =====
-- What a deposit does to the accounts (contracts/credence_treasury/src/treasury.rs).
use credence_contracts.Prelude.{
  ℕ, ◌+◌, ◌≤◌, ◌<◌, ◌≡◌, sym, subst, ap, ◌∙◌, ◌⊎◌, true, false, some, arith, inl, inr,
}
use credence_contracts.Prelude.Int.{ℤ, pos, abs, i128_max, is_negative, fits_i128, ◌+ℤ◌}
use credence_contracts.Host.{Address, Env, done}
use credence_contracts.Pausable
use credence_contracts.Treasury.State.{
  Storage, FundSource, protocol_fee, slashed_funds, put_source, get_balance, get_balance_by_source,
  get_cumulative_received, get_cumulative_by_source, is_depositor,
}
use credence_contracts.Treasury.Amounts.{cumulative_to_u256, add_to_cumulative}
use credence_contracts.Treasury.Shares.{
  InSegment, add_to_cumulative_exact, add_to_cumulative_outcome,
}
use credence_contracts.Treasury.Funds.{record_fee}
use credence_contracts.Treasury.Settlement.{IsBalanced}

-- The lifetime amounts of the two sources add up to the lifetime amount of all.
pub record Reconciles (s : Storage) : Type 0 where
  pub in_segment : InSegment (get_cumulative_received s)
  pub each_in_segment : (f : FundSource) → InSegment (get_cumulative_by_source s f)
  pub lifetime :
      cumulative_to_u256 (get_cumulative_received s)
      ≡ cumulative_to_u256 (get_cumulative_by_source s protocol_fee)
        + cumulative_to_u256 (get_cumulative_by_source s slashed_funds)

-- What `record_fee` has checked and written when it returns.
pub record Deposited (e : Env) (from : Address) (n : ℕ) (f : FundSource) (s t : Storage)
    : Type 0 where
  pub running : Pausable.is_paused s.pause ≡ false
  pub authorized : e.authorized from ≡ true
  pub permitted : (s.pause.admin ≡ some from) ⊎ (is_depositor s from ≡ true)
  pub amount : 0 < n
  pub total : get_balance t ≡ get_balance s +ℤ pos n
  pub source : get_balance_by_source t f ≡ get_balance_by_source s f +ℤ pos n
  pub total_fits : fits_i128 (get_balance s +ℤ pos n) ≡ true
  pub sources : t.balance_by_source ≡ put_source f (t.balance_by_source f) s.balance_by_source
  pub lifetime :
      add_to_cumulative (get_cumulative_received s) (pos n) s ≡ done (get_cumulative_received t) s
  pub source_lifetime :
      add_to_cumulative (get_cumulative_by_source s f) (pos n) s
      ≡ done (get_cumulative_by_source t f) s
  pub lifetimes :
      t.cumulative_received_by_source
      ≡ put_source f (t.cumulative_received_by_source f) s.cumulative_received_by_source
  pub same_proposals : t.proposal ≡ s.proposal
  pub same_token : t.token ≡ s.token

pub record-Deposited :
    (e : Env) (from : Address) (n : ℕ) (f : FundSource) (s t : Storage)
    → record_fee e from (pos n) f s ≡ done tt t
    → Deposited e from n f s t
unfolding record_fee
record-Deposited e from n f s t h =
    elim (add_to_cumulative_outcome (get_cumulative_received s) n s) [
      | inl (x, failed) ↦ absurd (ground arith)
      | inr (c, total) ↦ elim (add_to_cumulative_outcome (get_cumulative_by_source s f) n s) [
        | inl (x, failed) ↦ absurd (ground arith)
        | inr (d, source) ↦ record {
          running = ground arith;
          authorized = ground arith;
          permitted = ground arith;
          amount = ground arith;
          total = ground arith;
          source = ground arith;
          total_fits = ground arith;
          sources = ground arith;
          lifetime = ground arith;
          source_lifetime = ground arith;
          lifetimes = ground arith;
          same_proposals = ground arith;
          same_token = ground arith;
        }
      ]
    ]

deposit_fits :
    (z : ℤ) (n : ℕ) → fits_i128 (z +ℤ pos n) ≡ true → is_negative z ≡ false → abs z + n ≤ i128_max
unfolding ◌+ℤ◌
deposit_fits z n h k = ground arith

sum_abs : (z : ℤ) (n : ℕ) → is_negative z ≡ false → z +ℤ pos n ≡ pos (abs z + n)
unfolding ◌+ℤ◌
sum_abs z n h = ground arith

Deposited-IsBalanced :
    (e : Env) (from : Address) (n : ℕ) (f : FundSource) (s t : Storage)
    → Deposited e from n f s t
    → IsBalanced s
    → IsBalanced t
Deposited-IsBalanced e from n protocol_fee s t d v =
    let total = d.total ∙ sum_abs (get_balance s) n v.total_nonneg in
    let one = d.source ∙ sum_abs (get_balance_by_source s protocol_fee) n v.protocol_nonneg in
    let other : get_balance_by_source t slashed_funds ≡ get_balance_by_source s slashed_funds =
      ground (arith, d.sources) in
    record {
      total_nonneg = rw total;
      protocol_nonneg = rw one;
      slashed_nonneg = rw other v.slashed_nonneg;
      sum = rw (total, one, other) (omega (arith, v.sum));
      bounded = rw total (deposit_fits (get_balance s) n d.total_fits v.total_nonneg);
    }
Deposited-IsBalanced e from n slashed_funds s t d v =
    let total = d.total ∙ sum_abs (get_balance s) n v.total_nonneg in
    let one = d.source ∙ sum_abs (get_balance_by_source s slashed_funds) n v.slashed_nonneg in
    let other : get_balance_by_source t protocol_fee ≡ get_balance_by_source s protocol_fee =
      ground (arith, d.sources) in
    record {
      total_nonneg = rw total;
      protocol_nonneg = rw other v.protocol_nonneg;
      slashed_nonneg = rw one;
      sum = rw (total, one, other) (omega (arith, v.sum));
      bounded = rw total (deposit_fits (get_balance s) n d.total_fits v.total_nonneg);
    }

Deposited-Reconciles :
    (e : Env) (from : Address) (n : ℕ) (f : FundSource) (s t : Storage)
    → n ≤ i128_max
    → Deposited e from n f s t
    → Reconciles s
    → Reconciles t
Deposited-Reconciles e from n protocol_fee s t b d v =
    let all =
      add_to_cumulative_exact _ (get_cumulative_received t) n s s b v.in_segment d.lifetime in
    let one =
      add_to_cumulative_exact _ (get_cumulative_by_source t protocol_fee) n s s b
        (v.each_in_segment protocol_fee) d.source_lifetime in
    let other : get_cumulative_by_source t slashed_funds
        ≡ get_cumulative_by_source s slashed_funds =
      ground (arith, d.lifetimes) in
    record {
      in_segment = all.0;
      each_in_segment = elim [
        | protocol_fee ↦ one.0
        | slashed_funds ↦ subst InSegment (sym other) (v.each_in_segment slashed_funds)
      ];
      lifetime = omega (arith, all.1, one.1, ap cumulative_to_u256 other, v.lifetime);
    }
Deposited-Reconciles e from n slashed_funds s t b d v =
    let all =
      add_to_cumulative_exact _ (get_cumulative_received t) n s s b v.in_segment d.lifetime in
    let one =
      add_to_cumulative_exact _ (get_cumulative_by_source t slashed_funds) n s s b
        (v.each_in_segment slashed_funds) d.source_lifetime in
    let other : get_cumulative_by_source t protocol_fee ≡ get_cumulative_by_source s protocol_fee =
      ground (arith, d.lifetimes) in
    record {
      in_segment = all.0;
      each_in_segment = elim [
        | protocol_fee ↦ subst InSegment (sym other) (v.each_in_segment protocol_fee)
        | slashed_funds ↦ one.0
      ];
      lifetime = omega (arith, all.1, one.1, ap cumulative_to_u256 other, v.lifetime);
    }

-- With accounts in balance and lifetime amounts reconciled, and an amount that an i128 holds: a
-- deposit that returns was authorised by the admin or by a depositor, and keeps the accounts in
-- balance and the lifetime amounts reconciled; the total, its source and the lifetime amount have
-- grown by the deposit.
pub deposit_correct :
    (e : Env) (from : Address) (n : ℕ) (f : FundSource) (s t : Storage)
    → n ≤ i128_max
    → IsBalanced s
    → Reconciles s
    → record_fee e from (pos n) f s ≡ done tt t
    → Deposited e from n f s t
      × IsBalanced t
      × Reconciles t
      × (cumulative_to_u256 (get_cumulative_received t)
          ≡ cumulative_to_u256 (get_cumulative_received s) + n)
deposit_correct e from n f s t b v r h =
    let d = record-Deposited e from n f s t h in
    (
      d,
      Deposited-IsBalanced e from n f s t d v,
      Deposited-Reconciles e from n f s t b d r,
      (add_to_cumulative_exact (get_cumulative_received s) (get_cumulative_received t) n s s b
          r.in_segment d.lifetime).1,
    )
