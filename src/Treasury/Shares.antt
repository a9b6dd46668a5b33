-- ===== src/Treasury/Shares.antt =====
-- The treasury's arithmetic is exact (contracts/credence_treasury/src/treasury.rs).
use native.Mathlib.Nat.{
  div-add-mod', mod-lt, div-le_of_le-mul, mul-le-mul_left, mul-le-mul_right, mul-div_cancel,
  mod-eq_of_lt,
}
use native.Mathlib.Decide.{dec_le}
use credence_contracts.Prelude.{
  ap, ℕ, ◌+◌, ◌-◌, ◌*◌, ◌/◌, ◌^◌, ◌≤◌, ◌<◌, ◌≡◌, true, false, arith, Bool-cases, inl, inr, ◌==◌,
  ◌⊎◌,
}
use credence_contracts.Prelude.Int.{pos, abs, i128_max, is_negative}
use credence_contracts.Host.{u64_max, Panic, done, panics, succeeds, Outcome-cases}
use credence_contracts.Treasury.State.{CumulativeAmount}
use credence_contracts.Treasury.Amounts.{
  cumulative_to_u256, add_to_cumulative, proportional_deduction,
}

-- A remainder lies in one segment.
abbrev pub InSegment : CumulativeAmount → Type 0
InSegment c = (is_negative c.remainder ≡ false) × (abs c.remainder ≤ i128_max)

-- Adding to an amount that rolls over adds to the number that it stands for.
pub add_to_cumulative_exact :
    {S : Type 0} (c c' : CumulativeAmount) (n : ℕ) (s s' : S)
    → n ≤ i128_max
    → InSegment c
    → add_to_cumulative c (pos n) s ≡ done c' s'
    → InSegment c' × (cumulative_to_u256 c' ≡ cumulative_to_u256 c + n) × (s' ≡ s)
unfolding add_to_cumulative cumulative_to_u256
add_to_cumulative_exact c c' n s s' b v h = ground arith

pub add_to_cumulative_returns :
    {S : Type 0} (c : CumulativeAmount) (n : ℕ) (s : S)
    → n ≤ i128_max
    → InSegment c
    → c.rollovers < u64_max
    → succeeds (add_to_cumulative c (pos n) s) ≡ true
unfolding add_to_cumulative
add_to_cumulative_returns c n s b v h = ground arith

rest_covered : (p a t v q : ℕ) → t ≡ a + v → p ≤ t → p * a < q * t + t → p ≤ q + v
rest_covered p a t v q e hp h = elim (dec_le p (q + v)) [
  | yes k ↦ k
  | no k ↦ absurd (
      omega (
        arith,
        mul-le-mul_right {m = q + v + 1} {n = p} t (omega arith),
        mul-le-mul_right {m = p} {n = t} v hp,
        ap (λ (x : ℕ). p * x) e,
        h,
      ))
]

-- The share of a part is at most the part, at most the withdrawal, and leaves enough for the rest.
pub share_bounds :
    (p a t : ℕ)
    → p ≤ t
    → a ≤ t
    → 0 < t
    → (p * a / t ≤ p) × (p * a / t ≤ a) × (a - p * a / t ≤ t - p)
share_bounds p a t hp ha h = (
  div-le_of_le-mul t (omega (arith, mul-le-mul_left p ha)),
  div-le_of_le-mul t (omega (arith, mul-le-mul_right a hp)),
  omega (
    arith,
    rest_covered p a t (t - a) (p * a / t) (omega arith) hp
        (omega (arith, div-add-mod' (p * a) t, mod-lt (p * a) h)),
  ),
)

-- Within the total, the deduction is the source's share of the withdrawal, rounded down.
pub proportional_deduction_exact :
    {S : Type 0} (p a t : ℕ) (s : S)
    → p ≤ t
    → a ≤ t
    → t ≤ i128_max
    → proportional_deduction (pos p) (pos a) (pos t) s ≡ done (pos (p * a / t)) s
unfolding proportional_deduction
proportional_deduction_exact p a t s hp ha ht = elim (Bool-cases (t == 0)) [
  | inl none_there ↦ ground arith
  | inr some_there ↦
      let bounds = share_bounds p a t hp ha (ground arith) in
      ground (
        arith,
        bounds,
        mul-div_cancel p {n = t} (ground arith),
        mod-eq_of_lt {n = p * a / t} {m = 2 ^ 128} (omega (arith, bounds.0)),
      )
]

-- Adding returns or panics; it writes nothing.
pub add_to_cumulative_outcome :
    {S : Type 0} (c : CumulativeAmount) (n : ℕ) (s : S)
    → ((x : Panic) × (add_to_cumulative c (pos n) s ≡ panics x))
      ⊎ ((c' : CumulativeAmount) × (add_to_cumulative c (pos n) s ≡ done c' s))
unfolding add_to_cumulative
add_to_cumulative_outcome c n s = elim (Outcome-cases (add_to_cumulative c (pos n) s)) [
  | inl (x, e) ↦ inl (x, e)
  | inr (c', s', e) ↦ inr (c', ground arith)
]
