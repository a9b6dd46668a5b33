-- ===== src/Admin/Roles.antt =====
-- Setup, assignment, removal and suspension of admins (contracts/admin/src/lib.rs).
use credence_contracts.Prelude.{
  ℕ, ◌+◌, Bool, true, false, Option, none, some, List, [], ◌∷◌, ◌++◌, length, ltb, leb, ◌==◌, elem,
  remove_first, not, ◌&&◌, if◌then◌else◌,
}
use credence_contracts.Errors.{ContractError}
use credence_contracts.Host.{
  Address, Env, Entries, put, remove, Action, pure, gets, modify, ◌>>=◌, ◌>>◌, throw_if, unwrap_or,
  is_some, require_auth, branch,
}
use credence_contracts.Admin.{
  AdminRole, super_admin, level, same_role, AdminInfo, Storage, put_role, require_not_paused,
  get_all_admins, get_admins_by_role, get_admin_info, get_role, get_required_role_to_assign,
  is_effective, require_valid_admin_address, require_role_at_least,
}

abbrev pub new_info : Env → Address → Address → AdminRole → AdminInfo
new_info e by address role = record {
  address = address;
  role = role;
  assigned_at = e.timestamp;
  assigned_by = by;
  active = true;
  suspended_until = 0;
}

-- The storage that `initialize` leaves.
abbrev pub initial : Env → Address → ℕ → ℕ → Storage → Storage
initial e first min_admins max_admins s = record s {
  initialized = some true;
  min_admins = some min_admins;
  max_admins = some max_admins;
  pause = record s.pause {
    paused = some false;
    pause_signer_count = some 0;
    pause_threshold = some 0;
    pause_proposal_counter = some 0;
  };
  admin_info = put first (some (new_info e first first super_admin)) s.admin_info;
  admin_list = some (first ∷ []);
  role_admins = λ r. if same_role r super_admin then some (first ∷ []) else some [];
  owner = some first;
}

unfoldable pub initialize : Env → Address → ℕ → ℕ → Action Storage (Unit {0})
initialize e first min_admins max_admins = do
  throw_if (is_some (← gets (λ s. s.initialized))) ContractError.already_initialized
  throw_if (min_admins == 0) ContractError.invalid_pause_action
  throw_if (ltb max_admins min_admins) ContractError.invalid_pause_action
  require_auth e first
  modify (initial e first min_admins max_admins)

-- The caller may not assign itself a role that it has, or a lower one.
abbrev pub refuse_own_role : Address → Address → AdminRole → Action Storage (Unit {0})
refuse_own_role caller target role =
    branch (caller == target)
      (do own ← get_role caller; throw_if (leb (level role) (level own)) ContractError.not_admin)
      (pure tt)

unfoldable pub add_admin : Env → Address → Address → AdminRole → Action Storage AdminInfo
add_admin e caller new_admin role = do
  require_not_paused
  require_auth e caller
  require_valid_admin_address e new_admin
  require_role_at_least e caller (get_required_role_to_assign role)
  throw_if (is_some (← gets (λ s. s.admin_info new_admin))) ContractError.already_active
  refuse_own_role caller new_admin role
  current_count ← gets (λ s. length (get_all_admins s))
  max_admins ← gets (λ s. unwrap_or s.max_admins 100)
  throw_if (leb max_admins current_count) ContractError.threshold_exceeds_signers
  let info = new_info e caller new_admin role
  modify (λ s. record s { admin_info = put new_admin (some info) s.admin_info })
  modify (λ s. record s { admin_list = some (get_all_admins s ++ new_admin ∷ []) })
  modify (λ s. record s {
    role_admins = put_role role (some (get_admins_by_role s role ++ new_admin ∷ [])) s.role_admins;
  })
  pure info

abbrev pub leave_list : Address → Action Storage (Unit {0})
leave_list a = do
  list ← gets get_all_admins
  branch (elem a list) (modify (λ s. record s { admin_list = some (remove_first a list) }))
      (pure tt)

abbrev pub leave_role : Address → AdminRole → Action Storage (Unit {0})
leave_role a role = do
  list ← gets (λ s. get_admins_by_role s role)
  branch (elem a list)
      (modify
        (λ s. record s { role_admins = put_role role (some (remove_first a list)) s.role_admins }))
      (pure tt)

unfoldable pub remove_admin : Env → Address → Address → Action Storage (Unit {0})
remove_admin e caller target = do
  require_not_paused
  require_auth e caller
  require_valid_admin_address e target
  info ← get_admin_info target
  caller_role ← get_role caller
  throw_if (leb (level caller_role) (level info.role)) ContractError.not_admin
  count ← gets (λ s. length (get_admins_by_role s info.role))
  min_admins ← gets (λ s. unwrap_or s.min_admins 1)
  throw_if (same_role info.role super_admin && leb count min_admins)
      ContractError.invalid_pause_action
  modify (λ s. record s { admin_info = remove target s.admin_info })
  leave_list target
  leave_role target info.role

unfoldable pub update_admin_role : Env → Address → Address → AdminRole → Action Storage AdminInfo
update_admin_role e caller target new_role = do
  require_not_paused
  require_auth e caller
  require_valid_admin_address e target
  info ← get_admin_info target
  require_role_at_least e caller (get_required_role_to_assign new_role)
  refuse_own_role caller target new_role
  leave_role target info.role
  modify (λ s. record s {
    role_admins =
        put_role new_role (some (get_admins_by_role s new_role ++ target ∷ [])) s.role_admins;
  })
  let updated : AdminInfo = record info {
    role = new_role;
    assigned_at = e.timestamp;
    assigned_by = caller;
  }
  modify (λ s. record s { admin_info = put target (some updated) s.admin_info })
  pure updated

abbrev pub store_info : Address → AdminInfo → Action Storage (Unit {0})
store_info a info = modify (λ s. record s { admin_info = put a (some info) s.admin_info })

unfoldable pub deactivate_admin : Env → Address → Address → Action Storage (Unit {0})
deactivate_admin e caller target = do
  require_not_paused
  require_auth e caller
  require_valid_admin_address e target
  info ← get_admin_info target
  caller_role ← get_role caller
  throw_if (leb (level caller_role) (level info.role)) ContractError.not_admin
  throw_if (not info.active) ContractError.already_deactivated
  store_info target (record info { active = false })

unfoldable pub reactivate_admin : Env → Address → Address → Action Storage (Unit {0})
reactivate_admin e caller target = do
  require_not_paused
  require_auth e caller
  require_valid_admin_address e target
  info ← get_admin_info target
  caller_role ← get_role caller
  throw_if (ltb (level caller_role) (level info.role)) ContractError.not_admin
  throw_if info.active ContractError.already_active
  store_info target (record info { active = true })

abbrev pub counts_as_active : Env → Option AdminInfo → Bool
counts_as_active e none = false
counts_as_active e (some info) = is_effective e info

-- The loop of `suspend_admin`, over the list without the target. The list is at most as long as a
-- vector, so that the u32 does not wrap.
unfoldable pub count_effective : Env → Entries AdminInfo → Address → List Address → ℕ → ℕ
count_effective e infos target [] n = n
count_effective e infos target (a ∷ list) n =
    let rest = count_effective e infos target list n in
    let more = count_effective e infos target list (n + 1) in
    if a == target then rest else (if counts_as_active e (infos a) then more else rest)

unfoldable pub suspend_admin : Env → Address → Address → ℕ → Action Storage (Unit {0})
unfolding count_effective
suspend_admin e caller target until_ts = do
  require_not_paused
  require_auth e caller
  throw_if (leb until_ts e.timestamp) ContractError.admin_suspended
  info ← get_admin_info target
  throw_if (not info.active) ContractError.already_deactivated
  caller_info ← get_admin_info caller
  throw_if (ltb (level caller_info.role) (level info.role)) ContractError.not_admin
  min_admins ← gets (λ s. unwrap_or s.min_admins 1)
  effective_active ← gets (λ s. count_effective e s.admin_info target (get_all_admins s) 0)
  throw_if (ltb effective_active min_admins) ContractError.invalid_pause_action
  store_info target (record info { suspended_until = until_ts })
