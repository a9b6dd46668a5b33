-- ===== src/Host/Monad.antt =====
-- A call of a contract: it changes the storage and returns, or it panics. The host takes back what
-- a call that panics has written, so a panic carries no storage.
use credence_contracts.Prelude.{ℕ, ◌≡◌, refl, ◌⊎◌, inl, inr, Bool, true, false, Option, none, some}
use credence_contracts.Errors.{ContractError}

-- `panic_with_error!`, a refusal of `require_auth` by the host, and `panic!` with a text.
pub data Panic : Type 0 where
  error : ContractError → Panic
  unauthorized : Panic
  message : Panic
  -- The code of an error of the contract's own.
  code : ℕ → Panic

pub data Outcome (S A : Type 0) : Type 0 where
  done : A → S → Outcome S A
  panics : Panic → Outcome S A

abbrev pub Action : Type 0 → Type 0 → Type 0
Action S A = S → Outcome S A

abbrev pub pure : {S A : Type 0} → A → Action S A
pure a s = done a s

abbrev pub throw : {S A : Type 0} → ContractError → Action S A
throw e s = panics (error e)

abbrev pub gets : {S A : Type 0} → (S → A) → Action S A
gets f s = done (f s) s

abbrev pub modify : {S : Type 0} → (S → S) → Action S (Unit {0})
modify f s = done tt (f s)

infixl 5 ◌>>=◌ ◌>>◌
abbrev pub ◌>>=◌ : {S A B : Type 0} → Action S A → (A → Action S B) → Action S B
◌>>=◌ m f s = elim (m s) [ done a s' ↦ f a s' | panics p ↦ panics p ]

abbrev pub ◌>>◌ : {S A B : Type 0} → Action S A → Action S B → Action S B
m >> k = m >>= λ _. k

-- `if c { panic_with_error!(e) }`
abbrev pub throw_if : {S : Type 0} → Bool → ContractError → Action S (Unit {0})
throw_if true e s = panics (error e)
throw_if false e s = done tt s

-- The host's answer to a request for authorisation.
abbrev pub authorize : {S : Type 0} → Bool → Action S (Unit {0})
authorize true s = done tt s
authorize false s = panics unauthorized

-- `o.unwrap_or_else(|| panic_with_error!(e))`
abbrev pub or_throw : {S A : Type 0} → Option A → ContractError → Action S A
or_throw none e s = panics (error e)
or_throw (some a) e s = done a s

-- `if c { panic!(..) }`, and `o.unwrap_or_else(|| panic!(..))`.
abbrev pub panic_if : {S : Type 0} → Bool → Action S (Unit {0})
panic_if true s = panics message
panic_if false s = done tt s

abbrev pub or_panic : {S A : Type 0} → Option A → Action S A
or_panic none s = panics message
or_panic (some a) s = done a s

abbrev pub unwrap_or {ℓ} : {A : Type ℓ} → Option A → A → A
unwrap_or none d = d
unwrap_or (some a) d = a

abbrev pub is_some {ℓ} : {A : Type ℓ} → Option A → Bool
is_some none = false
is_some (some a) = true

-- The storage after the call: unchanged, if it panics.
abbrev pub after : {S A : Type 0} → S → Outcome S A → S
after s (done a s') = s'
after s (panics p) = s

-- The call returned.
abbrev pub succeeds : {S A : Type 0} → Outcome S A → Bool
succeeds (done a s) = true
succeeds (panics p) = false

-- `if c { m } else { k }` on calls.
abbrev pub branch : {S A : Type 0} → Bool → Action S A → Action S A → Action S A
branch true m k s = m s
branch false m k s = k s

-- To split on how a call ends, and keep the equation.
pub Outcome-cases :
    {S A : Type 0} (o : Outcome S A)
    → ((p : Panic) × (o ≡ panics p)) ⊎ ((a : A) × (s : S) × (o ≡ done a s))
Outcome-cases (done a s) = inr (a, s, refl)
Outcome-cases (panics p) = inl (p, refl)
