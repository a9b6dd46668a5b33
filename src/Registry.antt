-- ===== src/Registry.antt =====
-- Identities and their bond contracts (contracts/credence_registry/src/lib.rs).
pub mod Hashes
pub mod Calls
pub mod Inverse
pub mod Registration
pub mod Guarantees
pub mod Pages
pub mod Idempotency
mod Tests
use credence_contracts.Prelude.{
  ℕ, ◌+◌, ◌-◌, ◌%◌, ◌^◌, Bool, true, false, Option, none, some, List, [], ◌∷◌, ◌++◌, length, leb,
  ◌==◌, elem, remove_first, not, ◌||◌, ◌&&◌, min, if◌then◌else◌,
}
use credence_contracts.Prelude.Slices.{collect}
use credence_contracts.Errors.{ContractError}
use credence_contracts.Host.{
  Address, Env, Entries, put, remove, done, panics, message, Action, pure, throw, gets, modify,
  ◌>>=◌, ◌>>◌, throw_if, or_throw, unwrap_or, is_some, require_auth, branch,
}
use credence_contracts.Pausable
use credence_contracts.Pausable.{PauseStorage}
use credence_contracts.Registry.Hashes.{Bytes, constant_time_eq}

-- The interface that a bond contract names: 0x43425631.
abbrev pub iface_credence_bond_v1 : ℕ
iface_credence_bond_v1 = 1128420913

abbrev pub max_identities_page_size : ℕ
max_identities_page_size = 200

pub record RegistryEntry : Type 0 where
  pub identity : Address
  pub bond_contract : Address
  pub registered_at : ℕ
  pub active : Bool

-- The keys of `DataKey`; those of the pause module and `Admin` stand in `pause`.
pub record Storage : Type 0 where
  pub pause : PauseStorage
  pub identity_to_bond : Entries RegistryEntry
  pub bond_to_identity : Entries Address
  pub registered_identities : Option (List Address)
  pub allow_non_interface : Entries Bool
  pub bond_code_hash : Option Bytes

-- What other contracts answer during a call. A call of `supports_interface` that fails counts as
-- `false`; a failing call of `get_contract_code_hash` fails the caller.
pub record Contracts : Type 0 where
  pub supports_interface : Address → ℕ → Bool
  pub get_contract_code_hash : Address → Option Bytes

abbrev pub on_pause : {A : Type 0} → Action PauseStorage A → Action Storage A
on_pause m s = elim (m s.pause) [ done a p ↦ done a (record s { pause = p }) | panics x ↦ panics x ]

abbrev pub require_not_paused : Action Storage (Unit {0})
require_not_paused = on_pause Pausable.require_not_paused

abbrev pub get_admin : Action Storage Address
get_admin = gets (λ s. s.pause.admin) >>= λ a. or_throw a ContractError.not_initialized

abbrev pub by_admin : Env → Action Storage (Unit {0})
by_admin e = do require_not_paused; admin ← get_admin; require_auth e admin

abbrev pub get_identities : Storage → List Address
get_identities s = unwrap_or s.registered_identities []

unfoldable pub initialize : Env → Address → Action Storage (Unit {0})
initialize e admin = do
  throw_if (is_some (← gets (λ s. s.pause.admin))) ContractError.already_initialized
  require_auth e admin
  modify (λ s. record s {
    pause = record s.pause {
      admin = some admin;
      paused = some false;
      pause_signer_count = some 0;
      pause_threshold = some 0;
      pause_proposal_counter = some 0;
    };
  })
  modify (λ s. record s { registered_identities = some [] })

abbrev pub new_entry : Env → Address → Address → RegistryEntry
new_entry e identity bond_contract = record {
  identity = identity;
  bond_contract = bond_contract;
  registered_at = e.timestamp;
  active = true;
}

-- The end that `register` and `register_trustless` share: both maps, then the list.
abbrev pub add_entry : RegistryEntry → Action Storage (Unit {0})
add_entry entry = do
  modify (λ s. record s { identity_to_bond = put entry.identity (some entry) s.identity_to_bond })
  modify (λ s. record s {
    bond_to_identity = put entry.bond_contract (some entry.identity) s.bond_to_identity;
  })
  identities ← gets get_identities
  branch (elem entry.identity identities) (pure tt)
      (modify (λ s. record s { registered_identities = some (identities ++ entry.identity ∷ []) }))

unfoldable pub register : Contracts → Env → Address → Address → Bool → Action Storage RegistryEntry
register k e identity bond_contract allow_non_interface = do
  by_admin e
  throw_if
      (not allow_non_interface && not (k.supports_interface bond_contract iface_credence_bond_v1))
      ContractError.unsupported_interface
  throw_if (is_some (← gets (λ s. s.identity_to_bond identity)))
      ContractError.identity_already_registered
  throw_if (is_some (← gets (λ s. s.bond_to_identity bond_contract)))
      ContractError.bond_contract_already_registered
  let entry = new_entry e identity bond_contract
  add_entry entry
  branch allow_non_interface
      (modify (λ s. record s {
        allow_non_interface = put bond_contract (some true) s.allow_non_interface;
      }))
      (pure tt)
  pure entry

abbrev pub get_bond_contract : Address → Action Storage RegistryEntry
get_bond_contract identity = gets (λ s. s.identity_to_bond identity) >>= λ a.
    or_throw a ContractError.identity_not_registered

abbrev pub get_identity : Address → Action Storage Address
get_identity bond_contract = gets (λ s. s.bond_to_identity bond_contract) >>= λ a.
    or_throw a ContractError.bond_contract_not_registered

abbrev pub is_active : Option RegistryEntry → Bool
is_active none = false
is_active (some entry) = entry.active

unfoldable pub is_registered : Storage → Address → Bool
is_registered s identity = is_active (s.identity_to_bond identity)

abbrev pub set_active : Address → RegistryEntry → Bool → Action Storage (Unit {0})
set_active identity entry active = modify (λ s. record s {
  identity_to_bond = put identity (some (record entry { active = active })) s.identity_to_bond;
})

unfoldable pub deactivate : Env → Address → Action Storage (Unit {0})
deactivate e identity = do
  by_admin e
  entry ← get_bond_contract identity
  throw_if (not entry.active) ContractError.already_deactivated
  set_active identity entry false

unfoldable pub reactivate : Env → Address → Action Storage (Unit {0})
reactivate e identity = do
  by_admin e
  entry ← get_bond_contract identity
  throw_if entry.active ContractError.already_active
  set_active identity entry true

-- Named `remove` in the source.
unfoldable pub remove_identity : Env → Address → Action Storage (Unit {0})
remove_identity e identity = do
  by_admin e
  entry ← get_bond_contract identity
  modify (λ s. record s { identity_to_bond = remove identity s.identity_to_bond })
  modify (λ s. record s { bond_to_identity = remove entry.bond_contract s.bond_to_identity })
  identities ← gets get_identities
  branch (elem identity identities)
      (modify (λ s. record s { registered_identities = some (remove_first identity identities) }))
      (pure tt)

-- The sum `start + actual_limit` is a u32 and wraps.
unfoldable pub get_identities_page : ℕ → ℕ → Storage → List Address
unfolding collect
get_identities_page offset limit s =
    let all_identities = get_identities s in
    let actual_limit = min limit max_identities_page_size in
    if leb (length all_identities) offset
    then []
    else (let end = min ((offset + actual_limit) % 2 ^ 32) (length all_identities) in
        collect (end - offset) offset all_identities)

unfoldable pub transfer_admin : Env → Address → Action Storage (Unit {0})
transfer_admin e new_admin = do
  by_admin e
  modify (λ s. record s { pause = record s.pause { admin = some new_admin } })

unfoldable pub set_bond_code_hash : Env → Bytes → Action Storage (Unit {0})
set_bond_code_hash e code_hash = do
  admin ← get_admin
  require_auth e admin
  modify (λ s. record s { bond_code_hash = some code_hash })

abbrev pub get_bond_code_hash : Storage → Bytes
get_bond_code_hash s = unwrap_or s.bond_code_hash []

abbrev pub code_hash_of : Contracts → Address → Action Storage Bytes
code_hash_of k caller s = elim (k.get_contract_code_hash caller) [
  | none ↦ panics message
  | some h ↦ done h s
]

abbrev pub check_code_hash : Contracts → Address → Action Storage (Unit {0})
check_code_hash k caller = do
  expected_hash ← gets get_bond_code_hash
  throw_if (length expected_hash == 0) ContractError.not_initialized
  caller_code_hash ← code_hash_of k caller
  throw_if (not (length caller_code_hash == 32) || not (length expected_hash == 32))
      ContractError.contract_code_verification_failed
  throw_if (not (constant_time_eq caller_code_hash expected_hash))
      ContractError.contract_code_verification_failed

-- The answer for an identity that has an entry.
abbrev pub registered_already : Address → RegistryEntry → Action Storage RegistryEntry
registered_already caller entry =
    branch ((entry.bond_contract == caller) && entry.active) (pure entry)
      (throw ContractError.identity_already_registered)

abbrev pub register_new : Env → Address → Address → Action Storage RegistryEntry
register_new e caller identity = do
  throw_if (is_some (← gets (λ s. s.bond_to_identity caller)))
      ContractError.bond_contract_already_registered
  let entry = new_entry e identity caller
  add_entry entry
  pure entry

abbrev pub register_unless :
    Env → Address → Address → Option RegistryEntry → Action Storage RegistryEntry
register_unless e caller identity none = register_new e caller identity
register_unless e caller identity (some entry) = registered_already caller entry

unfoldable pub register_trustless :
    Contracts → Env → Address → Address → Action Storage RegistryEntry
register_trustless k e caller identity = do
  require_not_paused
  require_auth e caller
  check_code_hash k caller
  existing ← gets (λ s. s.identity_to_bond identity)
  register_unless e caller identity existing
