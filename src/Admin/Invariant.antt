-- ===== src/Admin/Invariant.antt =====
-- Every call keeps the lists of admins in agreement with their entries (contracts/admin/src/lib.rs).
use credence_contracts.Prelude.{
  ◌≡◌, refl, sym, ap, subst, Bool, true, Option, arith, Option-cases, inl, inr,
}
use credence_contracts.Host.{Outcome, Address, Env, done, panics, after, is_some}
use credence_contracts.Admin.{AdminRole, AdminInfo, Storage, get_required_role_to_assign, holds}
use credence_contracts.Admin.Roles.{
  new_info, initialize, add_admin, remove_admin, update_admin_role, deactivate_admin,
  reactivate_admin, suspend_admin,
}
use credence_contracts.Pausable
use credence_contracts.Pausable.{PauseStorage}
use credence_contracts.Admin.Ownership.{transfer_ownership, accept_ownership}
use credence_contracts.Admin.Pausing.{
  set_pause_signer, set_pause_threshold, pause, unpause, approve_pause_proposal,
  execute_pause_proposal,
}
use credence_contracts.Admin.Calls.{Call, apply}
use credence_contracts.Admin.Outcomes.{
  off_role, onto_role, with_info, initialize-Initialized, add_admin-AdminAdded,
  remove_admin-AdminRemoved, update_admin_role-RoleUpdated, InfoChanged,
  deactivate_admin-InfoChanged, reactivate_admin-InfoChanged, suspend_admin-InfoChanged,
}
use credence_contracts.Admin.Agreement.{
  RolesAgree, initial-RolesAgree, with_admin-RolesAgree, without_admin-RolesAgree,
  with_info-RolesAgree, updated-RolesAgree,
}
use credence_contracts.Admin.Unchanged.{
  SameAdmins-RolesAgree, on_pause-SameAdmins, transfer_ownership-SameAdmins,
  accept_ownership-SameAdmins, set_pause_signer-SameAdmins, set_pause_threshold-SameAdmins,
  pause-SameAdmins, unpause-SameAdmins,
}

-- Whoever holds a role, holds it after the setup.
ready :
    (e : Env) (caller : Address) (r : AdminRole) (s : Storage)
    → RolesAgree s
    → holds e r (s.admin_info caller) ≡ true
    → is_some s.initialized ≡ true
ready e caller r s v h = elim (Option-cases s.initialized) [
  | inl unset ↦ absurd (ground (arith, v.empty unset caller))
  | inr (x, set) ↦ ap (λ (o : Option Bool). is_some o) set
]

changed-RolesAgree :
    (e : Env) (caller a : Address) (s t : Storage)
    → InfoChanged e caller a s t
    → RolesAgree s
    → RolesAgree t
changed-RolesAgree e caller a s t c v =
    subst RolesAgree (sym c.stored)
      (with_info-RolesAgree a c.info c.changed s v c.found c.same_address c.role_kept)

after-RolesAgree :
    {A : Type 0} (s : Storage) (o : Outcome Storage A)
    → RolesAgree s
    → ((x : A) (t : Storage) → o ≡ done x t → RolesAgree t)
    → RolesAgree (after s o)
after-RolesAgree s (panics x) v f = v
after-RolesAgree s (done a t) v f = f a t refl

-- Every call keeps the admins in order: each entry names the address it stands under; the list of
-- admins has every address with an entry exactly once, and is no longer than the limit of the setup,
-- or a hundred; the list of each role has exactly the addresses whose entry has the role, each once;
-- and there is no entry before the setup.
pub apply-RolesAgree : (e : Env) (c : Call) (s : Storage) → RolesAgree s → RolesAgree (apply e c s)
unfolding apply
apply-RolesAgree e (Call.set_up first low high) s v =
    after-RolesAgree s (initialize e first low high s) v (λ x t h.
      let i = initialize-Initialized e first low high s t h in
      subst RolesAgree (sym i.stored) (initial-RolesAgree e first low high s t v i))
apply-RolesAgree e (Call.add caller a role) s v =
    after-RolesAgree s (add_admin e caller a role s) v (λ x t h.
      let w = add_admin-AdminAdded e caller a role s t x h in
      subst RolesAgree (sym w.stored) (
        with_admin-RolesAgree a (new_info e caller a role) s v refl w.fresh w.room
          (ready e caller (get_required_role_to_assign role) s v w.allowed)))
apply-RolesAgree e (Call.take_out caller a) s v =
    after-RolesAgree s (remove_admin e caller a s) v (λ x t h.
      let w = remove_admin-AdminRemoved e caller a s t h in
      subst RolesAgree (sym w.stored) (without_admin-RolesAgree a w.info s v w.found))
apply-RolesAgree e (Call.change_role caller a role) s v =
    after-RolesAgree s (update_admin_role e caller a role s) v (λ x t h.
      let w = update_admin_role-RoleUpdated e caller a role s t x h in
      subst RolesAgree (sym w.stored) (
        subst
          (λ (r : AdminRole). RolesAgree (with_info a x (onto_role a r (off_role a w.info.role s))))
          (ap (λ (i : AdminInfo). i.role) w.entry)
          (updated-RolesAgree a w.info x s v w.found (ap (λ (i : AdminInfo). i.address) w.entry))))
apply-RolesAgree e (Call.switch_off caller a) s v =
    after-RolesAgree s (deactivate_admin e caller a s) v (λ x t h.
      changed-RolesAgree e caller a s t (deactivate_admin-InfoChanged e caller a s t h).0 v)
apply-RolesAgree e (Call.switch_on caller a) s v =
    after-RolesAgree s (reactivate_admin e caller a s) v (λ x t h.
      changed-RolesAgree e caller a s t (reactivate_admin-InfoChanged e caller a s t h).0 v)
apply-RolesAgree e (Call.suspend caller a until_ts) s v =
    after-RolesAgree s (suspend_admin e caller a until_ts s) v (λ x t h.
      changed-RolesAgree e caller a s t (suspend_admin-InfoChanged e caller a until_ts s t h).0 v)
apply-RolesAgree e (Call.offer caller a) s v =
    SameAdmins-RolesAgree s (after s (transfer_ownership e caller a s))
      (transfer_ownership-SameAdmins e caller a s) v
apply-RolesAgree e (Call.accept caller) s v =
    SameAdmins-RolesAgree s (after s (accept_ownership e caller s))
      (accept_ownership-SameAdmins e caller s) v
apply-RolesAgree e (Call.set_signer a signer enabled) s v =
    SameAdmins-RolesAgree s (after s (set_pause_signer e a signer enabled s))
      (set_pause_signer-SameAdmins e a signer enabled s) v
apply-RolesAgree e (Call.set_limit a limit) s v =
    SameAdmins-RolesAgree s (after s (set_pause_threshold e a limit s))
      (set_pause_threshold-SameAdmins e a limit s) v
apply-RolesAgree e (Call.request_pause caller) s v =
    SameAdmins-RolesAgree s (after s (pause e caller s)) (pause-SameAdmins e caller s) v
apply-RolesAgree e (Call.request_unpause caller) s v =
    SameAdmins-RolesAgree s (after s (unpause e caller s)) (unpause-SameAdmins e caller s) v
apply-RolesAgree e (Call.approve signer id) s v =
    SameAdmins-RolesAgree s (after s (approve_pause_proposal e signer id s))
      (on_pause-SameAdmins (Pausable.approve_pause_proposal e signer id) s) v
apply-RolesAgree e (Call.execute id) s v =
    SameAdmins-RolesAgree s (after s (execute_pause_proposal id s))
      (on_pause-SameAdmins (Pausable.execute_pause_proposal id) s) v
