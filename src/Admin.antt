-- ===== src/Admin.antt =====
-- The roles of admins, their assignment and suspension (contracts/admin/src/lib.rs).
pub mod Roles
pub mod Ownership
pub mod Pausing
pub mod Calls
pub mod Outcomes
pub mod Agreement
pub mod Unchanged
pub mod Invariant
pub mod Authority
pub mod Owner
pub mod Suspension
mod Tests
use credence_contracts.Prelude.{
  ℕ, ◌+◌, Bool, true, false, Option, none, some, List, [], ◌∷◌, ◌++◌, length, ltb, leb, ◌==◌, elem,
  not, ◌||◌, ◌&&◌, if◌then◌else◌,
}
use credence_contracts.Errors.{ContractError}
use credence_contracts.Host.{
  Address, Env, Entries, put, remove, done, panics, Action, pure, throw, gets, modify, ◌>>=◌, ◌>>◌,
  throw_if, or_throw, unwrap_or, is_some, require_auth, branch,
}
use credence_contracts.Pausable
use credence_contracts.Pausable.{PauseStorage}

pub data AdminRole : Type 0 where
  super_admin admin operator : AdminRole

-- The discriminants, by which roles are compared.
abbrev pub level : AdminRole → ℕ
level super_admin = 3
level admin = 2
level operator = 1

abbrev pub same_role : AdminRole → AdminRole → Bool
same_role a b = level a == level b

pub record AdminInfo : Type 0 where
  pub address : Address
  pub role : AdminRole
  pub assigned_at : ℕ
  pub assigned_by : Address
  pub active : Bool
  pub suspended_until : ℕ

-- The keys of `DataKey`; those of the pause module stand in `pause`, whose `admin` stays unused.
pub record Storage : Type 0 where
  pub pause : PauseStorage
  pub admin_list : Option (List Address)
  pub admin_info : Entries AdminInfo
  pub role_admins : AdminRole → Option (List Address)
  pub initialized : Option Bool
  pub min_admins : Option ℕ
  pub max_admins : Option ℕ
  pub owner : Option Address
  pub pending_owner : Option Address

abbrev pub put_role : {V : Type 0} → AdminRole → V → (AdminRole → V) → AdminRole → V
put_role r v m j = if same_role j r then v else m j

abbrev pub on_pause : {A : Type 0} → Action PauseStorage A → Action Storage A
on_pause m s = elim (m s.pause) [ done a p ↦ done a (record s { pause = p }) | panics x ↦ panics x ]

abbrev pub require_not_paused : Action Storage (Unit {0})
require_not_paused = on_pause Pausable.require_not_paused

abbrev pub get_all_admins : Storage → List Address
get_all_admins s = unwrap_or s.admin_list []

abbrev pub get_admins_by_role : Storage → AdminRole → List Address
get_admins_by_role s r = unwrap_or (s.role_admins r) []

abbrev pub get_admin_info : Address → Action Storage AdminInfo
get_admin_info a = gets (λ s. s.admin_info a) >>= λ i. or_throw i ContractError.not_admin

abbrev pub get_role : Address → Action Storage AdminRole
get_role a = do info ← get_admin_info a; pure info.role

abbrev pub get_required_role_to_assign : AdminRole → AdminRole
get_required_role_to_assign super_admin = super_admin
get_required_role_to_assign admin = super_admin
get_required_role_to_assign operator = admin

-- Active, and past its suspension.
abbrev pub is_effective : Env → AdminInfo → Bool
is_effective e info = info.active && leb info.suspended_until e.timestamp

-- The number that stands for the address whose text is the sentinel.
abbrev pub invalid_address_sentinel : Address
invalid_address_sentinel = 0

abbrev pub require_valid_admin_address : Env → Address → Action Storage (Unit {0})
require_valid_admin_address e a = do
  throw_if (a == invalid_address_sentinel) ContractError.invalid_admin_address
  throw_if (a == e.current_contract) ContractError.invalid_admin_address

abbrev pub has_role : Env → AdminInfo → AdminRole → Bool
has_role e info required = is_effective e info && leb (level required) (level info.role)

-- With the panic that every caller makes of its error.
abbrev pub require_role_at_least : Env → Address → AdminRole → Action Storage (Unit {0})
require_role_at_least e caller required = do
  info ← get_admin_info caller
  throw_if (not (has_role e info required)) ContractError.not_admin

abbrev pub holds : Env → AdminRole → Option AdminInfo → Bool
holds e required none = false
holds e required (some info) = has_role e info required

unfoldable pub has_role_at_least : Env → Address → AdminRole → Storage → Bool
has_role_at_least e a required s = holds e required (s.admin_info a)
