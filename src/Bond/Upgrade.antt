-- ===== src/Bond/Upgrade.antt =====
-- Who can replace the implementation of the bond contract
-- (contracts/credence_bond/src/upgrade_auth.rs).
pub mod Calls
pub mod Execution
pub mod Order
pub mod Stuck
mod Tests
use credence_contracts.Prelude.{
  ℕ, ◌+◌, Bool, true, false, Option, none, some, List, [], ◌∷◌, ◌++◌, length, elem, ltb, leb, ◌==◌,
  not, ◌&&◌, if◌then◌else◌,
}
use credence_contracts.Host.{
  or_panic, panic_if, Address, Env, u64_max, Entries, put, done, panics, message, Action, pure,
  gets, modify, ◌>>=◌, ◌>>◌, unwrap_or, is_some, require_auth, branch,
}

pub data UpgradeRole : Type 0 where
  upgrader proposer : UpgradeRole

-- The discriminants, by which roles are compared.
abbrev pub level : UpgradeRole → ℕ
level upgrader = 2
level proposer = 1

abbrev pub is_upgrader : UpgradeRole → Bool
is_upgrader r = level r == 2

pub record UpgradeAuthorization : Type 0 where
  pub authorized_address : Address
  pub role : UpgradeRole
  pub granted_at : ℕ
  pub expires_at : ℕ
  pub granted_by : Address
  pub active : Bool

pub data UpgradeStatus : Type 0 where
  pending approved executed rejected expired : UpgradeStatus

abbrev pub status_code : UpgradeStatus → ℕ
status_code pending = 0
status_code approved = 1
status_code executed = 2
status_code rejected = 3
status_code expired = 4

pub record UpgradeProposal : Type 0 where
  pub proposal_id : ℕ
  pub proposer_address : Address
  pub new_implementation : Address
  pub upgrade_data : List ℕ
  pub created_at : ℕ
  pub status : UpgradeStatus
  pub approvals : List Address
  pub required_approvals : ℕ

pub record UpgradeRecord : Type 0 where
  pub old_implementation : Address
  pub new_implementation : Address
  pub executed_at : ℕ
  pub executed_by : Address
  pub proposal_id : Option ℕ

-- The keys of `UpgradeKey`.
pub record Storage : Type 0 where
  pub auth : Entries UpgradeAuthorization
  pub authorized_upgraders : Option (List Address)
  pub implementation : Option Address
  pub upgrade_admin : Option Address
  pub pending_upgrade_admin : Option Address
  pub proposal : Entries UpgradeProposal
  pub next_proposal_id : Option ℕ
  pub history : Option (List UpgradeRecord)

abbrev pub get_authorized_upgraders : Storage → List Address
get_authorized_upgraders s = unwrap_or s.authorized_upgraders []

abbrev pub get_upgrade_history : Storage → List UpgradeRecord
get_upgrade_history s = unwrap_or s.history []

abbrev pub get_upgrade_auth : Address → Action Storage UpgradeAuthorization
get_upgrade_auth a = gets (λ s. s.auth a) >>= or_panic

abbrev pub get_upgrade_proposal : ℕ → Action Storage UpgradeProposal
get_upgrade_proposal id = gets (λ s. s.proposal id) >>= or_panic

abbrev pub get_implementation : Action Storage Address
get_implementation = gets (λ s. s.implementation) >>= or_panic

-- The authorisation that `initialize_upgrade_auth` and `accept_upgrade_admin` give.
abbrev pub own_auth : Env → Address → UpgradeAuthorization
own_auth e a = record {
  authorized_address = a;
  role = upgrader;
  granted_at = e.timestamp;
  expires_at = 0;
  granted_by = a;
  active = true;
}

unfoldable pub initialize_upgrade_auth : Env → Address → Action Storage (Unit {0})
initialize_upgrade_auth e admin = do
  panic_if (is_some (← gets (λ s. s.upgrade_admin)))
  modify (λ s. record s { upgrade_admin = some admin })
  modify (λ s. record s { auth = put admin (some (own_auth e admin)) s.auth })
  modify (λ s. record s { authorized_upgraders = some (admin ∷ []) })
  modify (λ s. record s { next_proposal_id = some 1 })
  modify (λ s. record s { history = some [] })

abbrev pub require_upgrade_admin : Address → Action Storage (Unit {0})
require_upgrade_admin caller = do
  admin ← gets (λ s. s.upgrade_admin) >>= or_panic
  panic_if (not (caller == admin))

-- The admin may not grant itself a role that it has, or a lower one.
abbrev pub refuse_own_role : Address → Address → UpgradeRole → Action Storage (Unit {0})
refuse_own_role admin address role =
    branch (admin == address)
      (do own ← get_upgrade_auth admin; panic_if (leb (level role) (level own.role))) (pure tt)

unfoldable pub grant_upgrade_auth :
    Env → Address → Address → UpgradeRole → ℕ → Action Storage (Unit {0})
grant_upgrade_auth e admin address role expires_at = do
  require_auth e admin
  require_upgrade_admin admin
  panic_if (is_some (← gets (λ s. s.auth address)))
  refuse_own_role admin address role
  let granted : UpgradeAuthorization = record {
    authorized_address = address;
    role = role;
    granted_at = e.timestamp;
    expires_at = expires_at;
    granted_by = admin;
    active = true;
  }
  modify (λ s. record s { auth = put address (some granted) s.auth })
  branch (is_upgrader role)
      (modify (λ s. record s {
        authorized_upgraders = some (get_authorized_upgraders s ++ address ∷ []);
      }))
      (pure tt)

-- The loop that copies the list without one address.
unfoldable pub without_address : Address → List Address → List Address
without_address a [] = []
without_address a (x ∷ xs) = let rest = without_address a xs in if x == a then rest else x ∷ rest

abbrev pub drop_upgrader : Address → Action Storage (Unit {0})
drop_upgrader address = do
  upgraders ← gets get_authorized_upgraders
  panic_if (leb (length upgraders) 1)
  modify (λ s. record s { authorized_upgraders = some (without_address address upgraders) })

unfoldable pub revoke_upgrade_auth : Env → Address → Address → Action Storage (Unit {0})
revoke_upgrade_auth e admin address = do
  require_auth e admin
  require_upgrade_admin admin
  auth ← get_upgrade_auth address
  branch (is_upgrader auth.role) (drop_upgrader address) (pure tt)
  modify (λ s. record s { auth = put address (some (record auth { active = false })) s.auth })

-- A time of zero never passes.
abbrev pub has_passed : Env → ℕ → Bool
has_passed e expires_at = ltb 0 expires_at && ltb expires_at e.timestamp

abbrev pub can_upgrade : Env → Option UpgradeAuthorization → Bool
can_upgrade e none = false
can_upgrade e (some auth) =
    auth.active && (not (has_passed e auth.expires_at) && is_upgrader auth.role)

abbrev pub is_authorized_upgrader : Env → Storage → Address → Bool
is_authorized_upgrader e s a = can_upgrade e (s.auth a)

abbrev pub require_upgrade_auth : Env → Address → Action Storage (Unit {0})
require_upgrade_auth e caller = do
  ok ← gets (λ s. is_authorized_upgrader e s caller)
  panic_if (not ok)

unfoldable pub propose_upgrade : Env → Address → Address → List ℕ → ℕ → Action Storage ℕ
propose_upgrade e proposer_address new_implementation upgrade_data required_approvals = do
  require_auth e proposer_address
  auth ← get_upgrade_auth proposer_address
  panic_if (not auth.active)
  panic_if (has_passed e auth.expires_at)
  proposal_id ← gets (λ s. unwrap_or s.next_proposal_id 1)
  panic_if (ltb u64_max (proposal_id + 1))
  modify (λ s. record s { next_proposal_id = some (proposal_id + 1) })
  let proposal : UpgradeProposal = record {
    proposal_id = proposal_id;
    proposer_address = proposer_address;
    new_implementation = new_implementation;
    upgrade_data = upgrade_data;
    created_at = e.timestamp;
    status = pending;
    approvals = [];
    required_approvals = required_approvals;
  }
  modify (λ s. record s { proposal = put proposal_id (some proposal) s.proposal })
  pure proposal_id

-- The proposal with one more approval.
abbrev pub add_approval : Address → UpgradeProposal → UpgradeProposal
add_approval approver p = record p {
  approvals = p.approvals ++ approver ∷ [];
  status =
      if leb p.required_approvals (length (p.approvals ++ approver ∷ []))
      then approved
      else p.status;
}

unfoldable pub approve_upgrade_proposal : Env → Address → ℕ → Action Storage (Unit {0})
approve_upgrade_proposal e approver id = do
  require_auth e approver
  require_upgrade_auth e approver
  p ← get_upgrade_proposal id
  panic_if (not (status_code p.status == 0))
  panic_if (elem approver p.approvals)
  modify (λ s. record s { proposal = put id (some (add_approval approver p)) s.proposal })

abbrev pub use_proposal : Address → Option ℕ → Action Storage (Unit {0})
use_proposal new_implementation none = pure tt
use_proposal new_implementation (some id) = do
  p ← get_upgrade_proposal id
  panic_if (not (status_code p.status == 1))
  panic_if (not (p.new_implementation == new_implementation))
  modify (λ s. record s { proposal = put id (some (record p { status = executed })) s.proposal })

unfoldable pub execute_upgrade : Env → Address → Address → Option ℕ → Action Storage (Unit {0})
execute_upgrade e executor new_implementation proposal_id = do
  require_auth e executor
  require_upgrade_auth e executor
  use_proposal new_implementation proposal_id
  current_impl ← get_implementation
  panic_if (new_implementation == current_impl)
  let entry : UpgradeRecord = record {
    old_implementation = current_impl;
    new_implementation = new_implementation;
    executed_at = e.timestamp;
    executed_by = executor;
    proposal_id = proposal_id;
  }
  modify (λ s. record s { history = some (get_upgrade_history s ++ entry ∷ []) })
  modify (λ s. record s { implementation = some new_implementation })

-- The number that stands for the address whose text is all zeros.
abbrev pub zero_address : Address
zero_address = 0

unfoldable pub transfer_upgrade_admin : Env → Address → Address → Action Storage (Unit {0})
transfer_upgrade_admin e admin new_admin = do
  require_auth e admin
  require_upgrade_admin admin
  panic_if (admin == new_admin)
  panic_if (new_admin == zero_address)
  modify (λ s. record s { pending_upgrade_admin = some new_admin })

unfoldable pub accept_upgrade_admin : Env → Address → Action Storage (Unit {0})
accept_upgrade_admin e caller = do
  require_auth e caller
  pending_admin ← gets (λ s. s.pending_upgrade_admin) >>= or_panic
  panic_if (not (caller == pending_admin))
  gets (λ s. s.upgrade_admin) >>= or_panic
  modify (λ s. record s { upgrade_admin = some caller })
  modify (λ s. record s { auth = put caller (some (own_auth e caller)) s.auth })
  upgraders ← gets get_authorized_upgraders
  branch (elem caller upgraders) (pure tt)
      (modify (λ s. record s { authorized_upgraders = some (upgraders ++ caller ∷ []) }))
  modify (λ s. record s { pending_upgrade_admin = none })
