-- ===== src/Admin/Suspension.antt =====
-- A suspension leaves enough admins, and no removal reaches a super admin (contracts/admin/src/lib.rs).
use credence_contracts.Prelude.{
  ℕ, ◌+◌, ◌≤◌, ◌<◌, ◌≡◌, refl, sym, ap, subst, ◌∙◌, true, false, none, some, List, [], ◌∷◌, length,
  ◌==◌, ==_iff, if◌then◌else◌, arith, Option-cases, inl, inr,
}
use credence_contracts.Host.{Address, Env, Entries, put, done, unwrap_or}
use credence_contracts.Admin.{
  super_admin, admin, operator, same_role, AdminInfo, Storage, get_all_admins, is_effective, holds,
  invalid_address_sentinel,
}
use credence_contracts.Admin.Roles.{
  remove_admin, update_admin_role, suspend_admin, count_effective, counts_as_active,
}
use credence_contracts.Admin.Outcomes.{
  Called, with_info, onto_role, off_role, InfoChanged, suspend_admin-InfoChanged, AdminRemoved,
  remove_admin-AdminRemoved,
}

-- The addresses of a list that are active and not suspended.
abbrev pub effective_admins : Env → Entries AdminInfo → List Address → List Address
effective_admins e infos [] = []
effective_admins e infos (a ∷ list) =
    let rest = effective_admins e infos list in
    if counts_as_active e (infos a) then a ∷ rest else rest

-- The count of the code is that of the list once the target is out of service.
count_effective_lem :
    (e : Env) (infos : Entries AdminInfo) (target : Address) (changed : AdminInfo)
    (list : List Address) (n : ℕ)
    → is_effective e changed ≡ false
    → count_effective e infos target list n
      ≡ n + length (effective_admins e (put target (some changed) infos) list)
unfolding count_effective
count_effective_lem e infos target changed [] n h = omega arith
count_effective_lem e infos target changed (a ∷ list) n h = ground (
  arith,
  h,
  count_effective_lem e infos target changed list n h,
  count_effective_lem e infos target changed list (n + 1) h,
)

-- A suspension that returns was authorised by a caller that has an entry of at least the target's
-- role, while the contract ran; the target was active, and is now suspended until a later
-- time; and at least the minimal number of admins, or one without a setup, stay in service.
pub suspension_exact :
    (e : Env) (caller a : Address) (until_ts : ℕ) (s t : Storage)
    → suspend_admin e caller a until_ts s ≡ done tt t
    → (c : InfoChanged e caller a s t) × (c.info.active ≡ true)
      × (c.changed ≡ (record c.info { suspended_until = until_ts }))
      × (e.timestamp < until_ts)
      × (unwrap_or s.min_admins 1 ≤ length (effective_admins e t.admin_info (get_all_admins t)))
suspension_exact e caller a until_ts s t h =
    let (c, active, change, future, enough) = suspend_admin-InfoChanged e caller a until_ts s t h in
    let out : is_effective e c.changed ≡ false = ground (arith, change) in
    let count = count_effective_lem e s.admin_info a c.changed (get_all_admins s) 0 out in
    (
      c,
      active,
      change,
      future,
      subst
          (λ (z : Storage).
            unwrap_or s.min_admins 1 ≤ length (effective_admins e z.admin_info (get_all_admins z)))
          (sym c.stored) (omega (arith, enough, count)),
    )

-- A removal that returns was authorised by a caller whose role is above the target's, while the
-- contract ran; the target had an entry, which is gone; and the target was no super admin.
pub removal_exact :
    (e : Env) (caller a : Address) (s t : Storage)
    → remove_admin e caller a s ≡ done tt t
    → (w : AdminRemoved e caller a s t) × (t.admin_info a ≡ none)
      × (same_role w.info.role super_admin ≡ false)
removal_exact e caller a s t h =
    let w = remove_admin-AdminRemoved e caller a s t h in
    (
      w,
      ap (λ (z : Storage). z.admin_info a) w.stored ∙ ground (arith, ==_iff a a),
      ground (arith, w.outranks),
    )

-- Any admin in service whose role is at least `admin` can make an operator of any other address
-- with an entry, a super admin's included, as long as the contract runs and the address is neither
-- the sentinel nor the contract's own: the call returns.
pub demotes_anyone :
    (e : Env) (caller a : Address) (info : AdminInfo) (s : Storage)
    → Called e caller s
    → holds e admin (s.admin_info caller) ≡ true
    → s.admin_info a ≡ some info
    → (caller == a) ≡ false
    → (a == invalid_address_sentinel) ≡ false
    → (a == e.current_contract) ≡ false
    → (t : Storage) × (updated : AdminInfo) × (update_admin_role e caller a operator s
        ≡ done updated t)
      × (t.admin_info a ≡ some updated)
      × (updated.role ≡ operator)
unfolding update_admin_role
demotes_anyone e caller a info s (running, authorized) h found other valid outside =
    elim (Option-cases (s.admin_info caller)) [
      | inl missing ↦ absurd (ground arith)
      | inr (own, own_found) ↦
          let updated : AdminInfo = record info {
            role = operator;
            assigned_at = e.timestamp;
            assigned_by = caller;
          } in
          (
            with_info a updated (onto_role a operator (off_role a info.role s)),
            updated,
            ground arith,
            ground (arith, ==_iff a a),
            refl,
          )
    ]
