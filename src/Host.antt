-- ===== src/Host.antt =====
-- What the contracts use of the Soroban host: addresses, the ledger's time, authorisation, storage,
-- and calls that panic. The host is not part of the repository: an `Env` is an argument of every
-- call, and says what the host answers during that call.
pub mod Monad
pub mod Token
pub use Monad.*
use credence_contracts.Prelude.{ℕ, ◌+◌, ◌-◌, ◌^◌, Bool, Option, none, ltb, ◌==◌, if◌then◌else◌}
use credence_contracts.Errors.{ContractError}

-- Addresses, 32-byte hashes and texts are only compared, so numbers stand for them.
abbrev pub Address : Type 0
Address = ℕ

abbrev pub Hash : Type 0
Hash = ℕ

-- The ledger during one call: its time in seconds, its sequence number, the address of the running
-- contract, and the addresses whose authorisation the host accepts.
pub record Env : Type 0 where
  pub timestamp : ℕ
  pub sequence : ℕ
  pub current_contract : Address
  pub authorized : Address → Bool

abbrev pub u32_max : ℕ
u32_max = 2 ^ 32 - 1

abbrev pub u64_max : ℕ
u64_max = 2 ^ 64 - 1

-- The entries of instance storage under one kind of key.
abbrev pub Entries : Type 0 → Type 0
Entries V = ℕ → Option V

abbrev pub put {ℓ} : {A : Type ℓ} → ℕ → A → (ℕ → A) → ℕ → A
put k v m j = if j == k then v else m j

-- `require_auth`
abbrev pub require_auth : {S : Type 0} → Env → Address → Action S (Unit {0})
require_auth e a = authorize (e.authorized a)

-- `a.checked_add(b).unwrap_or_else(|| panic_with_error!(err))`, with the type's largest value.
abbrev pub checked_add : {S : Type 0} → ℕ → ℕ → ℕ → ContractError → Action S ℕ
checked_add limit a b err = throw_if (ltb limit (a + b)) err >> pure (a + b)

abbrev pub remove : {V : Type 0} → ℕ → Entries V → Entries V
remove k m j = if j == k then none else m j

-- An entry under a key of two parts.
abbrev pub put_pair : {A : Type 0} → ℕ → ℕ → A → (ℕ → ℕ → A) → ℕ → ℕ → A
put_pair k l v m = put k (put l v (m k)) m
