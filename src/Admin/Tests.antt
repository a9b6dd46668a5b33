-- ===== src/Admin/Tests.antt =====
-- The admin contract on concrete storages (contracts/admin/src/lib.rs).
use credence_contracts.Prelude.{◌≤◌, ◌<◌, ◌≡◌, ◌⊎◌, refl, true, none, some, [], ◌∷◌, length, arith}
use credence_contracts.Host.{Address, Env, put, done, unwrap_or}
use credence_contracts.Admin.{
  super_admin, admin, operator, AdminInfo, Storage, get_all_admins, put_role,
}
use credence_contracts.Admin.Roles.{
  new_info, initial, add_admin, update_admin_role, suspend_admin, count_effective,
}
use credence_contracts.Admin.Calls.{Call, apply}
use credence_contracts.Admin.Outcomes.{InfoChanged}
use credence_contracts.Admin.Agreement.{RolesAgree, role_is}
use credence_contracts.Admin.Invariant.{apply-RolesAgree}
use credence_contracts.Admin.Authority.{Granted, roles_need_authority}
use credence_contracts.Admin.Owner.{OwnerStep, PendingStep, owner_moves_in_two_steps}
use credence_contracts.Admin.Suspension.{effective_admins, suspension_exact, demotes_anyone}

abbrev host : Env
host = record { timestamp = 50; sequence = 1; current_contract = 9; authorized = λ a. true }

abbrev blank : Storage
blank = record {
  pause = record {
    admin = none;
    paused = none;
    pause_signer = λ a. none;
    pause_signer_count = none;
    pause_threshold = none;
    pause_proposal_counter = none;
    pause_proposal = λ i. none;
    pause_approval = λ i a. none;
    pause_approval_count = λ i. none;
  };
  admin_list = none;
  admin_info = λ a. none;
  role_admins = λ r. none;
  initialized = none;
  min_admins = none;
  max_admins = none;
  owner = none;
  pending_owner = none;
}

blank-RolesAgree : RolesAgree blank
blank-RolesAgree = record {
  named = λ a. tt;
  distinct = tt;
  listed = λ a. refl;
  bounded = omega arith;
  roles_distinct = λ r. tt;
  by_role = λ r a. refl;
  empty = λ h a. refl;
}

apply-RolesAgree_example : RolesAgree (apply host (Call.set_up 1 1 10) blank)
apply-RolesAgree_example = apply-RolesAgree host (Call.set_up 1 1 10) blank blank-RolesAgree

-- The super admins 1 and 2, and the operator 5.
abbrev staffed : Storage
staffed = record (initial host 1 1 10 blank) {
  admin_info =
      put 5 (some (new_info host 1 5 operator))
        (put 2 (some (new_info host 1 2 super_admin)) (initial host 1 1 10 blank).admin_info);
  admin_list = some (1 ∷ 2 ∷ 5 ∷ []);
  role_admins =
      put_role operator (some (5 ∷ []))
        (put_role super_admin (some (1 ∷ 2 ∷ [])) (initial host 1 1 10 blank).role_admins);
}

promoted : role_is admin ((apply host (Call.add 1 6 admin) staffed).admin_info 6) ≡ true
unfolding apply add_admin
promoted = refl

roles_need_authority_example :
    (role_is admin (staffed.admin_info 6) ≡ true)
    ⊎ Granted host (Call.add 1 6 admin) admin 6 staffed
roles_need_authority_example =
    roles_need_authority host (Call.add 1 6 admin) admin 6 staffed promoted

owner_moves_in_two_steps_example :
    ((a : Address)
      → (apply host (Call.offer 1 2) staffed).owner ≡ some a
      → OwnerStep host (Call.offer 1 2) staffed a)
    × ((a : Address)
        → (apply host (Call.offer 1 2) staffed).pending_owner ≡ some a
        → PendingStep host (Call.offer 1 2) staffed a)
owner_moves_in_two_steps_example = owner_moves_in_two_steps host (Call.offer 1 2) staffed

abbrev suspended : Storage
suspended = record staffed {
  admin_info =
      put 2 (some (record (new_info host 1 2 super_admin) { suspended_until = 90 }))
        staffed.admin_info;
}

suspends : suspend_admin host 1 2 90 staffed ≡ done tt suspended
unfolding suspend_admin count_effective
suspends = refl

suspension_exact_example :
    (c : InfoChanged host 1 2 staffed suspended) × (c.info.active ≡ true)
    × (c.changed ≡ (record c.info { suspended_until = 90 }))
    × (host.timestamp < 90)
    × (unwrap_or staffed.min_admins 1
        ≤ length (effective_admins host suspended.admin_info (get_all_admins suspended)))
suspension_exact_example = suspension_exact host 1 2 90 staffed suspended suspends

demotes_anyone_example :
    (t : Storage) × (updated : AdminInfo) × (update_admin_role host 2 1 operator staffed
      ≡ done updated t)
    × (t.admin_info 1 ≡ some updated)
    × (updated.role ≡ operator)
demotes_anyone_example =
    demotes_anyone host 2 1 (new_info host 1 1 super_admin) staffed (refl, refl) refl refl refl refl
      refl
