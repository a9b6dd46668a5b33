-- ===== src/Admin/Outcomes.antt =====
-- What the calls on admins check and store when they return (contracts/admin/src/lib.rs).
use credence_contracts.Prelude.{
  ℕ, ◌≤◌, ◌<◌, ◌≡◌, refl, true, false, none, some, [], ◌∷◌, ◌++◌, length, elem, remove_first,
  if◌then◌else◌, arith, Option-cases, inl, inr,
}
use credence_contracts.Host.{Address, Env, put, remove, done, unwrap_or}
use credence_contracts.Pausable.{is_paused}
use credence_contracts.Admin.{
  AdminRole, level, AdminInfo, Storage, put_role, get_all_admins, get_admins_by_role,
  get_required_role_to_assign, holds,
}
use credence_contracts.Admin.Roles.{
  new_info, initial, initialize, add_admin, remove_admin, update_admin_role, deactivate_admin,
  reactivate_admin, suspend_admin, count_effective,
}

-- What the operations make of the storage.
abbrev pub with_admin : Address → AdminInfo → Storage → Storage
with_admin a info s = record s {
  admin_info = put a (some info) s.admin_info;
  admin_list = some (get_all_admins s ++ a ∷ []);
  role_admins = put_role info.role (some (get_admins_by_role s info.role ++ a ∷ [])) s.role_admins;
}

abbrev pub off_list : Address → Storage → Storage
off_list a s = record s {
  admin_list =
      if elem a (get_all_admins s) then some (remove_first a (get_all_admins s)) else s.admin_list;
}

abbrev pub off_role : Address → AdminRole → Storage → Storage
off_role a r s = record s {
  role_admins =
      if elem a (get_admins_by_role s r)
      then put_role r (some (remove_first a (get_admins_by_role s r))) s.role_admins
      else s.role_admins;
}

abbrev pub onto_role : Address → AdminRole → Storage → Storage
onto_role a r s = record s {
  role_admins = put_role r (some (get_admins_by_role s r ++ a ∷ [])) s.role_admins;
}

abbrev pub with_info : Address → AdminInfo → Storage → Storage
with_info a info s = record s { admin_info = put a (some info) s.admin_info }

abbrev pub without_admin : Address → AdminRole → Storage → Storage
without_admin a r s = off_role a r (off_list a (record s { admin_info = remove a s.admin_info }))

-- A caller that authorised its call of a running contract.
abbrev pub Called : Env → Address → Storage → Type 0
Called e caller s = (is_paused s.pause ≡ false) × (e.authorized caller ≡ true)

pub record Initialized (e : Env) (first : Address) (low high : ℕ) (s t : Storage) : Type 0 where
  pub uninitialized : s.initialized ≡ none
  pub positive : 0 < low
  pub ordered : low ≤ high
  pub authorized : e.authorized first ≡ true
  pub stored : t ≡ initial e first low high s

pub initialize-Initialized :
    (e : Env) (first : Address) (low high : ℕ) (s t : Storage)
    → initialize e first low high s ≡ done tt t
    → Initialized e first low high s t
unfolding initialize
initialize-Initialized e first low high s t h = record {
  uninitialized = ground arith;
  positive = ground arith;
  ordered = ground arith;
  authorized = ground arith;
  stored = ground arith;
}

pub record AdminAdded (e : Env) (caller a : Address) (r : AdminRole) (s t : Storage)
    (info : AdminInfo) : Type 0 where
  pub called : Called e caller s
  pub allowed : holds e (get_required_role_to_assign r) (s.admin_info caller) ≡ true
  pub fresh : s.admin_info a ≡ none
  pub room : length (get_all_admins s) < unwrap_or s.max_admins 100
  pub entry : info ≡ new_info e caller a r
  pub stored : t ≡ with_admin a (new_info e caller a r) s

pub add_admin-AdminAdded :
    (e : Env) (caller a : Address) (r : AdminRole) (s t : Storage) (info : AdminInfo)
    → add_admin e caller a r s ≡ done info t
    → AdminAdded e caller a r s t info
unfolding add_admin
add_admin-AdminAdded e caller a r s t info h = elim (Option-cases (s.admin_info caller)) [
  | inl missing ↦ absurd (ground arith)
  | inr (own, found) ↦ record {
    called = (ground arith, ground arith);
    allowed = ground arith;
    fresh = ground arith;
    room = ground arith;
    entry = ground arith;
    stored = ground arith;
  }
]

pub record AdminRemoved (e : Env) (caller a : Address) (s t : Storage) : Type 0 where
  pub called : Called e caller s
  pub info : AdminInfo
  pub found : s.admin_info a ≡ some info
  pub own : AdminInfo
  pub own_found : s.admin_info caller ≡ some own
  pub outranks : level info.role < level own.role
  pub stored : t ≡ without_admin a info.role s

pub remove_admin-AdminRemoved :
    (e : Env) (caller a : Address) (s t : Storage)
    → remove_admin e caller a s ≡ done tt t
    → AdminRemoved e caller a s t
unfolding remove_admin
remove_admin-AdminRemoved e caller a s t h = elim (Option-cases (s.admin_info a)) [
  | inl missing ↦ absurd (ground arith)
  | inr (info, found) ↦ elim (Option-cases (s.admin_info caller)) [
    | inl missing ↦ absurd (ground arith)
    | inr (own, own_found) ↦ record {
      called = (ground arith, ground arith);
      info = info;
      found = found;
      own = own;
      own_found = own_found;
      outranks = ground arith;
      stored = ground arith;
    }
  ]
]

pub record RoleUpdated (e : Env) (caller a : Address) (r : AdminRole) (s t : Storage)
    (updated : AdminInfo) : Type 0 where
  pub called : Called e caller s
  pub allowed : holds e (get_required_role_to_assign r) (s.admin_info caller) ≡ true
  pub info : AdminInfo
  pub found : s.admin_info a ≡ some info
  pub entry : updated ≡ (record info { role = r; assigned_at = e.timestamp; assigned_by = caller })
  pub stored : t ≡ with_info a updated (onto_role a r (off_role a info.role s))

pub update_admin_role-RoleUpdated :
    (e : Env) (caller a : Address) (r : AdminRole) (s t : Storage) (updated : AdminInfo)
    → update_admin_role e caller a r s ≡ done updated t
    → RoleUpdated e caller a r s t updated
unfolding update_admin_role
update_admin_role-RoleUpdated e caller a r s t updated h = elim (Option-cases (s.admin_info a)) [
  | inl missing ↦ absurd (ground arith)
  | inr (info, found) ↦ elim (Option-cases (s.admin_info caller)) [
    | inl missing ↦ absurd (ground arith)
    | inr (own, own_found) ↦ record {
      called = (ground arith, ground arith);
      allowed = ground arith;
      info = info;
      found = found;
      entry = ground arith;
      stored = ground arith;
    }
  ]
]

-- The three calls that change one entry, without its role: `deactivate_admin`, `reactivate_admin`
-- and `suspend_admin`.
pub record InfoChanged (e : Env) (caller a : Address) (s t : Storage) : Type 0 where
  pub called : Called e caller s
  pub info : AdminInfo
  pub found : s.admin_info a ≡ some info
  pub own : AdminInfo
  pub own_found : s.admin_info caller ≡ some own
  pub ranks : level info.role ≤ level own.role
  pub changed : AdminInfo
  pub same_address : changed.address ≡ info.address
  pub role_kept : changed.role ≡ info.role
  pub stored : t ≡ with_info a changed s

pub deactivate_admin-InfoChanged :
    (e : Env) (caller a : Address) (s t : Storage)
    → deactivate_admin e caller a s ≡ done tt t
    → (c : InfoChanged e caller a s t) × (level c.info.role < level c.own.role)
      × (c.info.active ≡ true)
      × (c.changed ≡ (record c.info { active = false }))
unfolding deactivate_admin
deactivate_admin-InfoChanged e caller a s t h = elim (Option-cases (s.admin_info a)) [
  | inl missing ↦ absurd (ground arith)
  | inr (info, found) ↦ elim (Option-cases (s.admin_info caller)) [
    | inl missing ↦ absurd (ground arith)
    | inr (own, own_found) ↦ (
      record {
        called = (ground arith, ground arith);
        info = info;
        found = found;
        own = own;
        own_found = own_found;
        ranks = ground arith;
        changed = record info { active = false };
        same_address = refl;
        role_kept = refl;
        stored = ground arith;
      },
      ground arith,
      ground arith,
      refl,
    )
  ]
]

pub reactivate_admin-InfoChanged :
    (e : Env) (caller a : Address) (s t : Storage)
    → reactivate_admin e caller a s ≡ done tt t
    → (c : InfoChanged e caller a s t) × (c.info.active ≡ false)
      × (c.changed ≡ (record c.info { active = true }))
unfolding reactivate_admin
reactivate_admin-InfoChanged e caller a s t h = elim (Option-cases (s.admin_info a)) [
  | inl missing ↦ absurd (ground arith)
  | inr (info, found) ↦ elim (Option-cases (s.admin_info caller)) [
    | inl missing ↦ absurd (ground arith)
    | inr (own, own_found) ↦ (
      record {
        called = (ground arith, ground arith);
        info = info;
        found = found;
        own = own;
        own_found = own_found;
        ranks = ground arith;
        changed = record info { active = true };
        same_address = refl;
        role_kept = refl;
        stored = ground arith;
      },
      ground arith,
      refl,
    )
  ]
]

pub suspend_admin-InfoChanged :
    (e : Env) (caller a : Address) (until_ts : ℕ) (s t : Storage)
    → suspend_admin e caller a until_ts s ≡ done tt t
    → (c : InfoChanged e caller a s t) × (c.info.active ≡ true)
      × (c.changed ≡ (record c.info { suspended_until = until_ts }))
      × (e.timestamp < until_ts)
      × (unwrap_or s.min_admins 1 ≤ count_effective e s.admin_info a (get_all_admins s) 0)
unfolding suspend_admin
suspend_admin-InfoChanged e caller a until_ts s t h = elim (Option-cases (s.admin_info a)) [
  | inl missing ↦ absurd (ground arith)
  | inr (info, found) ↦ elim (Option-cases (s.admin_info caller)) [
    | inl missing ↦ absurd (ground arith)
    | inr (own, own_found) ↦ (
      record {
        called = (ground arith, ground arith);
        info = info;
        found = found;
        own = own;
        own_found = own_found;
        ranks = ground arith;
        changed = record info { suspended_until = until_ts };
        same_address = refl;
        role_kept = refl;
        stored = ground arith;
      },
      ground arith,
      refl,
      ground arith,
      ground arith,
    )
  ]
]
