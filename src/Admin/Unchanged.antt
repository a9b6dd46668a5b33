-- ===== src/Admin/Unchanged.antt =====
-- The calls that leave admins and their lists alone (contracts/admin/src/lib.rs).
use credence_contracts.Prelude.{
  ℕ, ◌≤◌, ◌≡◌, refl, sym, ap, subst, ◌∙◌, Bool, Option, List, [], length, elem, Distinct, arith,
}
use credence_contracts.Host.{Action, Outcome, Address, Env, done, panics, after, is_some, unwrap_or}
use credence_contracts.Admin.{AdminRole, AdminInfo, Storage, on_pause, get_all_admins}
use credence_contracts.Pausable
use credence_contracts.Pausable.{PauseStorage}
use credence_contracts.Admin.Ownership.{transfer_ownership, accept_ownership}
use credence_contracts.Admin.Pausing.{set_pause_signer, set_pause_threshold, pause, unpause}
use credence_contracts.Admin.Agreement.{IsNamed, role_is, RolesAgree}

-- A call that touches neither the entries nor the lists.
pub record SameAdmins (s t : Storage) : Type 0 where
  pub infos : t.admin_info ≡ s.admin_info
  pub list : t.admin_list ≡ s.admin_list
  pub roles : t.role_admins ≡ s.role_admins
  pub limit : t.max_admins ≡ s.max_admins
  pub setup : t.initialized ≡ s.initialized

pub SameAdmins-RolesAgree : (s t : Storage) → SameAdmins s t → RolesAgree s → RolesAgree t
SameAdmins-RolesAgree s t k v = record {
  named = λ a. subst (λ (f : ℕ → Option AdminInfo). IsNamed a (f a)) (sym k.infos) (v.named a);
  distinct =
      subst (λ (l : Option (List Address)). Distinct (unwrap_or l [])) (sym k.list) v.distinct;
  listed = λ a.
      ap (λ (l : Option (List Address)). elem a (unwrap_or l [])) k.list
      ∙ v.listed a
      ∙ ap (λ (f : ℕ → Option AdminInfo). is_some (f a)) (sym k.infos);
  bounded =
      subst (λ (l : Option (List Address)). length (unwrap_or l []) ≤ unwrap_or t.max_admins 100)
        (sym k.list)
        (subst (λ (n : Option ℕ). length (get_all_admins s) ≤ unwrap_or n 100) (sym k.limit)
          v.bounded);
  roles_distinct = λ r.
      subst (λ (f : AdminRole → Option (List Address)). Distinct (unwrap_or (f r) [])) (sym k.roles)
        (v.roles_distinct r);
  by_role = λ r a.
      ap (λ (f : AdminRole → Option (List Address)). elem a (unwrap_or (f r) [])) k.roles
      ∙ v.by_role r a
      ∙ ap (λ (f : ℕ → Option AdminInfo). role_is r (f a)) (sym k.infos);
  empty = λ m a. ap (λ (f : ℕ → Option AdminInfo). f a) k.infos ∙ v.empty (sym k.setup ∙ m) a;
}

same : {p : PauseStorage} (s : Storage) → SameAdmins s (record s { pause = p })
same s = record { infos = refl; list = refl; roles = refl; limit = refl; setup = refl }

fields-SameAdmins :
    (s t : Storage)
    → (t.admin_info ≡ s.admin_info)
      × (t.admin_list ≡ s.admin_list)
      × (t.role_admins ≡ s.role_admins)
      × (t.max_admins ≡ s.max_admins)
      × (t.initialized ≡ s.initialized)
    → SameAdmins s t
fields-SameAdmins s t (a, b, c, d, f) = record {
  infos = a;
  list = b;
  roles = c;
  limit = d;
  setup = f;
}

pub transfer_ownership-SameAdmins :
    (e : Env) (caller a : Address) (s : Storage)
    → SameAdmins s (after s (transfer_ownership e caller a s))
unfolding transfer_ownership
transfer_ownership-SameAdmins e caller a s = fields-SameAdmins s _ (ground arith)

pub accept_ownership-SameAdmins :
    (e : Env) (caller : Address) (s : Storage)
    → SameAdmins s (after s (accept_ownership e caller s))
unfolding accept_ownership
accept_ownership-SameAdmins e caller s = fields-SameAdmins s _ (ground arith)

pub set_pause_signer-SameAdmins :
    (e : Env) (a signer : Address) (enabled : Bool) (s : Storage)
    → SameAdmins s (after s (set_pause_signer e a signer enabled s))
unfolding set_pause_signer
set_pause_signer-SameAdmins e a signer enabled s = fields-SameAdmins s _ (ground arith)

pub set_pause_threshold-SameAdmins :
    (e : Env) (a : Address) (limit : ℕ) (s : Storage)
    → SameAdmins s (after s (set_pause_threshold e a limit s))
unfolding set_pause_threshold
set_pause_threshold-SameAdmins e a limit s = fields-SameAdmins s _ (ground arith)

pub pause-SameAdmins :
    (e : Env) (caller : Address) (s : Storage) → SameAdmins s (after s (pause e caller s))
unfolding pause Pausable.propose_action
pause-SameAdmins e caller s = fields-SameAdmins s _ (ground arith)

pub unpause-SameAdmins :
    (e : Env) (caller : Address) (s : Storage) → SameAdmins s (after s (unpause e caller s))
unfolding unpause Pausable.propose_action
unpause-SameAdmins e caller s = fields-SameAdmins s _ (ground arith)

lifted :
    {A : Type 0} (s : Storage) (o : Outcome PauseStorage A)
    → SameAdmins s (
        after {A = A} s
          (elim o [ done a p ↦ done a (record s { pause = p }) | panics x ↦ panics x ]))
lifted s (panics x) = same s
lifted s (done a p) = same s

pub on_pause-SameAdmins :
    {A : Type 0} (m : Action PauseStorage A) (s : Storage) → SameAdmins s (after s (on_pause m s))
on_pause-SameAdmins m s = lifted s (m s.pause)
