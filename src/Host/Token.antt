-- ===== src/Host/Token.antt =====
-- The token contracts that the treasury calls. They are not part of the repository: `Tokens` is an
-- argument of the calls that use them, over ledgers of any type.
use credence_contracts.Prelude.{ℕ, ◌≡◌, ◌≢◌, Option, some}
use credence_contracts.Prelude.Int.{ℤ, ◌+ℤ◌, ◌-ℤ◌, ◌≤ℤ◌}

-- The token's address comes first. A transfer that panics gives `none`.
pub record Tokens (L : Type 0) : Type 0 where
  pub balance : ℕ → L → ℕ → ℤ
  pub transfer : ℕ → L → ℕ → ℕ → ℤ → Option L

-- A transfer takes nothing from its receiver and delivers no more than its amount; a token that
-- charges a fee may deliver less.
pub record Delivers {L : Type 0} (k : Tokens L) : Type 0 where
  pub no_loss :
      (token : ℕ) (l l' : L) (from to : ℕ) (n : ℤ)
      → k.transfer token l from to n ≡ some l'
      → k.balance token l to ≤ℤ k.balance token l' to
  pub no_excess :
      (token : ℕ) (l l' : L) (from to : ℕ) (n : ℤ)
      → k.transfer token l from to n ≡ some l'
      → k.balance token l' to ≤ℤ k.balance token l to +ℤ n

-- A token without fees: a transfer between two accounts moves its amount exactly, and one from an
-- account to itself moves nothing.
pub record MovesExactly {L : Type 0} (k : Tokens L) : Type 0 where
  pub receives :
      (token : ℕ) (l l' : L) (from to : ℕ) (n : ℤ)
      → from ≢ to
      → k.transfer token l from to n ≡ some l'
      → k.balance token l' to ≡ k.balance token l to +ℤ n
  pub pays :
      (token : ℕ) (l l' : L) (from to : ℕ) (n : ℤ)
      → from ≢ to
      → k.transfer token l from to n ≡ some l'
      → k.balance token l' from ≡ k.balance token l from -ℤ n
  pub keeps :
      (token : ℕ) (l l' : L) (own : ℕ) (n : ℤ)
      → k.transfer token l own own n ≡ some l'
      → k.balance token l' own ≡ k.balance token l own
