-- ===== src/Admin/Authority.antt =====
-- Who can give a role, and how the contract changes its owner (contracts/admin/src/lib.rs).
use credence_contracts.Prelude.{
  ℕ, ◌≡◌, refl, sym, ap, ◌∙◌, ◌⊎◌, inl, inr, true, Option, none, some, ◌==◌, ==_iff, arith,
  Bool-cases,
}
use credence_contracts.Host.{Outcome, Address, Env, Entries, put, remove, done, panics, after}
use credence_contracts.Pausable
use credence_contracts.Pausable.{PauseStorage}
use credence_contracts.Admin.{
  AdminRole, super_admin, same_role, AdminInfo, Storage, get_required_role_to_assign, holds,
}
use credence_contracts.Admin.Roles.{
  initialize, add_admin, remove_admin, update_admin_role, deactivate_admin, reactivate_admin,
  suspend_admin, new_info,
}
use credence_contracts.Admin.Ownership.{transfer_ownership, accept_ownership}
use credence_contracts.Admin.Pausing.{set_pause_signer, set_pause_threshold, pause, unpause}
use credence_contracts.Admin.Calls.{Call, apply}
use credence_contracts.Admin.Outcomes.{
  Called, initialize-Initialized, add_admin-AdminAdded, remove_admin-AdminRemoved,
  update_admin_role-RoleUpdated, InfoChanged, deactivate_admin-InfoChanged,
  reactivate_admin-InfoChanged, suspend_admin-InfoChanged,
}
use credence_contracts.Admin.Agreement.{role_is}
use credence_contracts.Admin.Unchanged.{
  SameAdmins, on_pause-SameAdmins, transfer_ownership-SameAdmins, accept_ownership-SameAdmins,
  set_pause_signer-SameAdmins, set_pause_threshold-SameAdmins, pause-SameAdmins, unpause-SameAdmins,
}

-- The authority behind a role `r` of `a`: the call is the setup by that address, or it assigns that
-- role to it, where the caller authorised its call of a running contract, and held the role that
-- assigning `r` takes.
abbrev pub Granted : Env → Call → AdminRole → Address → Storage → Type 0
Granted e c r a s =
    ((low high : ℕ) × (c ≡ Call.set_up a low high)
      × (s.initialized ≡ none)
      × (r ≡ super_admin)
      × (e.authorized a ≡ true))
    ⊎ ((caller : Address) × ((c ≡ Call.add caller a r) ⊎ (c ≡ Call.change_role caller a r))
        × Called e caller s
        × (holds e (get_required_role_to_assign r) (s.admin_info caller) ≡ true))

-- After a call, an address has a role: it had the role before, or the role was granted.
abbrev Justified : Env → Call → AdminRole → Address → Storage → Type 0
Justified e c r a s = (role_is r (s.admin_info a) ≡ true) ⊎ Granted e c r a s

-- A new entry at one address.
entry_cases :
    (r : AdminRole) (a b : Address) (info : AdminInfo) (m : Entries AdminInfo)
    → role_is r (put b (some info) m a) ≡ true
    → (role_is r (m a) ≡ true) ⊎ ((a ≡ b) × (same_role info.role r ≡ true))
entry_cases r a b info m h = elim (Bool-cases (a == b)) [
  | inl here ↦ inr (ground (arith, ==_iff a b), ground arith)
  | inr elsewhere ↦ inl (ground arith)
]

changed_role :
    (e : Env) (d : Call) (caller b : Address) (r : AdminRole) (a : Address) (s t : Storage)
    → InfoChanged e caller b s t
    → role_is r (t.admin_info a) ≡ true
    → Justified e d r a s
changed_role e d caller b r a s t c h =
    elim (entry_cases r a b c.changed s.admin_info
      (ap (λ (z : Storage). role_is r (z.admin_info a)) (sym c.stored) ∙ h)) [
        | inl before ↦ inl before
        | inr (here, role) ↦ inl (
            ap (λ (z : Address). role_is r (s.admin_info z)) here
            ∙ ap (λ (o : Option AdminInfo). role_is r o) c.found
            ∙ ap (λ (q : AdminRole). same_role q r) (sym c.role_kept)
            ∙ role)
      ]

unchanged_role :
    (e : Env) (c : Call) (r : AdminRole) (a : Address) (s t : Storage)
    → SameAdmins s t
    → role_is r (t.admin_info a) ≡ true
    → Justified e c r a s
unchanged_role e c r a s t k h =
    inl (ap (λ (m : ℕ → Option AdminInfo). role_is r (m a)) (sym k.infos) ∙ h)

removed_role :
    (r : AdminRole) (a b : Address) (s : Storage)
    → role_is r (remove b s.admin_info a) ≡ true
    → role_is r (s.admin_info a) ≡ true
removed_role r a b s h = ground arith

after-Justified :
    {A : Type 0} (e : Env) (c : Call) (r : AdminRole) (a : Address) (s : Storage)
    (o : Outcome Storage A)
    → role_is r ((after s o).admin_info a) ≡ true
    → ((x : A) (t : Storage)
        → o ≡ done x t
        → role_is r (t.admin_info a) ≡ true
        → Justified e c r a s)
    → Justified e c r a s
after-Justified e c r a s (panics x) h f = inl h
after-Justified e c r a s (done x t) h f = f x t refl h

-- The same role, given to the same address.
assigned_lem :
    (f : Address → Address → AdminRole → Call) (caller a b : Address) (q r : AdminRole)
    → a ≡ b
    → same_role q r ≡ true
    → f caller b q ≡ f caller a r
assigned_lem f caller a b q r here same =
    let equal : q ≡ r = ground (arith, same) in
    ap (λ z. f caller z q) (sym here) ∙ ap (λ z. f caller a z) equal

-- An address that has a role after a call had it before; or the call is the setup of the contract
-- by that address, which was not done before, the role is that of a super admin, and the address
-- authorised the call; or the call adds the address with that role, or changes its role to that
-- one, the contract is not paused, and the caller of that call authorised it and is an admin in
-- service whose role is at least the one that assigning the role takes.
pub roles_need_authority :
    (e : Env) (c : Call) (r : AdminRole) (a : Address) (s : Storage)
    → role_is r ((apply e c s).admin_info a) ≡ true
    → (role_is r (s.admin_info a) ≡ true) ⊎ Granted e c r a s
unfolding apply
roles_need_authority e (Call.set_up first low high) r a s h =
    after-Justified e (Call.set_up first low high) r a s (initialize e first low high s) h
      (λ x t k m.
        let i = initialize-Initialized e first low high s t k in
        elim (entry_cases r a first (new_info e first first super_admin) s.admin_info
          (ap (λ (z : Storage). role_is r (z.admin_info a)) (sym i.stored) ∙ m)) [
            | inl before ↦ inl before
            | inr (here, role) ↦ inr (
                inl (
                  low,
                  high,
                  ap (λ (z : Address). Call.set_up z low high) (sym here),
                  i.uninitialized,
                  ground (arith, role),
                  ap e.authorized here ∙ i.authorized,
                ))
          ])
roles_need_authority e (Call.add caller b role) r a s h =
    after-Justified e (Call.add caller b role) r a s (add_admin e caller b role s) h (λ x t k m.
      let w = add_admin-AdminAdded e caller b role s t x k in
      elim (entry_cases r a b (new_info e caller b role) s.admin_info
        (ap (λ (z : Storage). role_is r (z.admin_info a)) (sym w.stored) ∙ m)) [
          | inl before ↦ inl before
          | inr (here, same) ↦ inr (
              inr (
                caller,
                inl (assigned_lem Call.add caller a b role r here same),
                w.called,
                ground (arith, same, w.allowed),
              ))
        ])
roles_need_authority e (Call.take_out caller b) r a s h =
    after-Justified e (Call.take_out caller b) r a s (remove_admin e caller b s) h (λ x t k m.
      let w = remove_admin-AdminRemoved e caller b s t k in
      inl (
        removed_role r a b s (ap (λ (z : Storage). role_is r (z.admin_info a)) (sym w.stored) ∙ m)))
roles_need_authority e (Call.change_role caller b role) r a s h =
    after-Justified e (Call.change_role caller b role) r a s (update_admin_role e caller b role s) h
      (λ x t k m.
        let w = update_admin_role-RoleUpdated e caller b role s t x k in
        elim (entry_cases r a b x s.admin_info
          (ap (λ (z : Storage). role_is r (z.admin_info a)) (sym w.stored) ∙ m)) [
            | inl before ↦ inl before
            | inr (here, same) ↦ inr (
                inr (
                  caller,
                  inr (
                      assigned_lem Call.change_role caller a b role r here
                        (ap (λ (i : AdminInfo). same_role i.role r) (sym w.entry) ∙ same)),
                  w.called,
                  ground (arith, same, w.allowed, ap (λ (i : AdminInfo). i.role) w.entry),
                ))
          ])
roles_need_authority e (Call.switch_off caller b) r a s h =
    after-Justified e (Call.switch_off caller b) r a s (deactivate_admin e caller b s) h (λ x t k.
      changed_role e (Call.switch_off caller b) caller b r a s t
        (deactivate_admin-InfoChanged e caller b s t k).0)
roles_need_authority e (Call.switch_on caller b) r a s h =
    after-Justified e (Call.switch_on caller b) r a s (reactivate_admin e caller b s) h (λ x t k.
      changed_role e (Call.switch_on caller b) caller b r a s t
        (reactivate_admin-InfoChanged e caller b s t k).0)
roles_need_authority e (Call.suspend caller b until_ts) r a s h =
    after-Justified e (Call.suspend caller b until_ts) r a s (suspend_admin e caller b until_ts s) h
      (λ x t k.
        changed_role e (Call.suspend caller b until_ts) caller b r a s t
          (suspend_admin-InfoChanged e caller b until_ts s t k).0)
roles_need_authority e (Call.offer caller b) r a s h =
    unchanged_role e (Call.offer caller b) r a s (after s (transfer_ownership e caller b s))
      (transfer_ownership-SameAdmins e caller b s) h
roles_need_authority e (Call.accept caller) r a s h =
    unchanged_role e (Call.accept caller) r a s (after s (accept_ownership e caller s))
      (accept_ownership-SameAdmins e caller s) h
roles_need_authority e (Call.set_signer b signer enabled) r a s h =
    unchanged_role e (Call.set_signer b signer enabled) r a s
      (after s (set_pause_signer e b signer enabled s))
      (set_pause_signer-SameAdmins e b signer enabled s) h
roles_need_authority e (Call.set_limit b limit) r a s h =
    unchanged_role e (Call.set_limit b limit) r a s (after s (set_pause_threshold e b limit s))
      (set_pause_threshold-SameAdmins e b limit s) h
roles_need_authority e (Call.request_pause caller) r a s h =
    unchanged_role e (Call.request_pause caller) r a s (after s (pause e caller s))
      (pause-SameAdmins e caller s) h
roles_need_authority e (Call.request_unpause caller) r a s h =
    unchanged_role e (Call.request_unpause caller) r a s (after s (unpause e caller s))
      (unpause-SameAdmins e caller s) h
roles_need_authority e (Call.approve signer id) r a s h =
    unchanged_role e (Call.approve signer id) r a s _
      (on_pause-SameAdmins (Pausable.approve_pause_proposal e signer id) s) h
roles_need_authority e (Call.execute id) r a s h =
    unchanged_role e (Call.execute id) r a s _
      (on_pause-SameAdmins (Pausable.execute_pause_proposal id) s) h
