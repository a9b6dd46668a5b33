-- ===== src/Admin/Agreement.antt =====
-- The lists of admins agree with their entries (contracts/admin/src/lib.rs).
use credence_contracts.Prelude.{
  ℕ, ◌≤◌, ◌<◌, ◌≡◌, refl, sym, ap, subst, ◌∙◌, Bool, true, false, ◌&&◌, Option, none, some, List,
  [], ◌∷◌, ◌++◌, length, elem, Distinct, elem-append, append-Distinct, remove_first,
  elem-remove_first, remove_first-Distinct, length-remove_first, length-append, ◌==◌, ==_iff,
  if◌then◌else◌, arith, Bool-cases, inl, inr,
}
use credence_contracts.Host.{Address, Env, Entries, put, remove, is_some, unwrap_or}
use credence_contracts.Admin.{
  AdminRole, super_admin, same_role, AdminInfo, Storage, put_role, get_all_admins,
  get_admins_by_role,
}
use credence_contracts.Admin.Roles.{new_info, initial}
use credence_contracts.Admin.Outcomes.{
  with_admin, off_role, onto_role, with_info, without_admin, Initialized,
}

-- The entry, if there is one, names the address that it stands under.
abbrev pub IsNamed : Address → Option AdminInfo → Type 0
IsNamed a none = Unit
IsNamed a (some info) = info.address ≡ a

abbrev pub role_is : AdminRole → Option AdminInfo → Bool
role_is r none = false
role_is r (some info) = same_role info.role r

-- Each entry names its address; the list has every address with an entry exactly once, and is no
-- longer than the limit; the list of each role has exactly those whose entry has the role, each
-- once; and there are no entries before the setup.
pub record RolesAgree (s : Storage) : Type 0 where
  pub named : (a : Address) → IsNamed a (s.admin_info a)
  pub distinct : Distinct (get_all_admins s)
  pub listed : (a : Address) → elem a (get_all_admins s) ≡ is_some (s.admin_info a)
  pub bounded : length (get_all_admins s) ≤ unwrap_or s.max_admins 100
  pub roles_distinct : (r : AdminRole) → Distinct (get_admins_by_role s r)
  pub by_role :
      (r : AdminRole) (a : Address) → elem a (get_admins_by_role s r) ≡ role_is r (s.admin_info a)
  pub empty : s.initialized ≡ none → (a : Address) → s.admin_info a ≡ none

put-IsNamed :
    (m : Entries AdminInfo) (b : Address) (info : AdminInfo) (a : Address)
    → info.address ≡ b
    → IsNamed a (m a)
    → IsNamed a (put b (some info) m a)
put-IsNamed m b info a k v = elim (Bool-cases (a == b)) [
  | inl here ↦ rw here (k ∙ sym (ground (arith, ==_iff a b)))
  | inr elsewhere ↦ rw elsewhere v
]

remove-IsNamed :
    (m : Entries AdminInfo) (b a : Address) → IsNamed a (m a) → IsNamed a (remove b m a)
remove-IsNamed m b a v = elim (Bool-cases (a == b)) [
  | inl here ↦ rw here tt
  | inr elsewhere ↦ rw elsewhere v
]

same_role_eq : (r q : AdminRole) → same_role r q ≡ true → r ≡ q
same_role_eq r q h = ground arith

pub initial-RolesAgree :
    (e : Env) (first : Address) (low high : ℕ) (s t : Storage)
    → RolesAgree s
    → Initialized e first low high s t
    → RolesAgree (initial e first low high s)
initial-RolesAgree e first low high s t v i = record {
  named =
      λ a. put-IsNamed s.admin_info first (new_info e first first super_admin) a refl (v.named a);
  distinct = (refl, tt);
  listed = λ a. ground (arith, v.empty i.uninitialized a);
  bounded = omega (arith, i.positive, i.ordered);
  roles_distinct = λ r. ground arith;
  by_role = λ r a. ground (arith, v.empty i.uninitialized a);
  empty = λ m. absurd (ground arith);
}

put_role-Distinct :
    (m : AdminRole → Option (List Address)) (r q : AdminRole) (l : List Address)
    → Distinct l
    → Distinct (unwrap_or (m q) [])
    → Distinct (unwrap_or (put_role r (some l) m q) [])
put_role-Distinct m r q l d k = elim (Bool-cases (same_role q r)) [
  | inl here ↦ rw here d
  | inr elsewhere ↦ rw elsewhere k
]

-- Taking an address off the list of a role, and putting one onto it.
elem-off_role :
    (a : Address) (r q : AdminRole) (x : Address) (s : Storage)
    → Distinct (get_admins_by_role s r)
    → elem x (get_admins_by_role (off_role a r s) q)
      ≡ (if same_role q r && (x == a) then false else elem x (get_admins_by_role s q))
elem-off_role a r q x s d =
    ground (arith, elem-remove_first a x (get_admins_by_role s r) d, same_role_eq q r, ==_iff x a)

off_role-Distinct :
    (a : Address) (r q : AdminRole) (s : Storage)
    → ((p : AdminRole) → Distinct (get_admins_by_role s p))
    → Distinct (get_admins_by_role (off_role a r s) q)
off_role-Distinct a r q s d = elim (Bool-cases (elem a (get_admins_by_role s r))) [
  | inl there ↦ rw there (
      put_role-Distinct s.role_admins r q (remove_first a (get_admins_by_role s r))
        (remove_first-Distinct a (get_admins_by_role s r) (d r)) (d q))
  | inr absent ↦ rw absent (d q)
]

elem-onto_role :
    (a : Address) (r q : AdminRole) (x : Address) (s : Storage)
    → elem x (get_admins_by_role (onto_role a r s) q)
      ≡ (if same_role q r && (x == a) then true else elem x (get_admins_by_role s q))
elem-onto_role a r q x s =
    ground (arith, elem-append x (get_admins_by_role s r) (a ∷ []), same_role_eq q r, ==_iff x a)

onto_role-Distinct :
    (a : Address) (r q : AdminRole) (s : Storage)
    → ((p : AdminRole) → Distinct (get_admins_by_role s p))
    → elem a (get_admins_by_role s r) ≡ false
    → Distinct (get_admins_by_role (onto_role a r s) q)
onto_role-Distinct a r q s d h =
    put_role-Distinct s.role_admins r q (get_admins_by_role s r ++ a ∷ [])
      (append-Distinct a (get_admins_by_role s r) (d r) h) (d q)

pub with_admin-RolesAgree :
    (b : Address) (info : AdminInfo) (s : Storage)
    → RolesAgree s
    → info.address ≡ b
    → s.admin_info b ≡ none
    → length (get_all_admins s) < unwrap_or s.max_admins 100
    → is_some s.initialized ≡ true
    → RolesAgree (with_admin b info s)
with_admin-RolesAgree b info s v k fresh room ready = record {
  named = λ a. put-IsNamed s.admin_info b info a k (v.named a);
  distinct =
      append-Distinct b (get_all_admins s) v.distinct
        (v.listed b ∙ ap (λ (o : Option AdminInfo). is_some o) fresh);
  listed = λ a. ground (arith, v.listed a, elem-append a (get_all_admins s) (b ∷ []));
  bounded = omega (arith, room, length-append {0} (get_all_admins s) (b ∷ []));
  roles_distinct = λ r.
      onto_role-Distinct b info.role r s v.roles_distinct
        (v.by_role info.role b ∙ ap (λ (o : Option AdminInfo). role_is info.role o) fresh);
  by_role = λ r a. ground (
    arith,
    v.by_role r a,
    v.by_role info.role a,
    elem-append a (get_admins_by_role s info.role) (b ∷ []),
    same_role_eq r info.role,
  );
  empty = λ m. absurd (ground arith);
}

pub without_admin-RolesAgree :
    (b : Address) (info : AdminInfo) (s : Storage)
    → RolesAgree s
    → s.admin_info b ≡ some info
    → RolesAgree (without_admin b info.role s)
without_admin-RolesAgree b info s v found = record {
  named = λ a. remove-IsNamed s.admin_info b a (v.named a);
  distinct = ground (arith, remove_first-Distinct b (get_all_admins s) v.distinct, v.distinct);
  listed = λ a. ground (
    arith,
    v.listed a,
    v.listed b,
    elem-remove_first b a (get_all_admins s) v.distinct,
    ==_iff a b,
  );
  bounded = ground (arith, v.bounded, length-remove_first b (get_all_admins s));
  roles_distinct = λ r. off_role-Distinct b info.role r s v.roles_distinct;
  by_role = λ r a. ground (
    arith,
    v.by_role r a,
    elem-off_role b info.role r a s (v.roles_distinct info.role),
    same_role_eq r info.role,
    ==_iff a b,
  );
  empty = λ m. absurd (ground (arith, v.empty m b));
}

pub with_info-RolesAgree :
    (b : Address) (info changed : AdminInfo) (s : Storage)
    → RolesAgree s
    → s.admin_info b ≡ some info
    → changed.address ≡ info.address
    → changed.role ≡ info.role
    → RolesAgree (with_info b changed s)
with_info-RolesAgree b info changed s v found k l =
    let own : info.address ≡ b = subst (IsNamed b) found (v.named b) in
    record {
      named = λ a. put-IsNamed s.admin_info b changed a (k ∙ own) (v.named a);
      distinct = v.distinct;
      listed = λ a. ground (arith, v.listed a, found);
      bounded = v.bounded;
      roles_distinct = v.roles_distinct;
      by_role = λ r a. ground (arith, v.by_role r a, found, l);
      empty = λ m. absurd (ground (arith, v.empty m b));
    }

pub updated-RolesAgree :
    (b : Address) (info updated : AdminInfo) (s : Storage)
    → RolesAgree s
    → s.admin_info b ≡ some info
    → updated.address ≡ info.address
    → RolesAgree (with_info b updated (onto_role b updated.role (off_role b info.role s)))
updated-RolesAgree b info updated s v found k =
    let own : info.address ≡ b = subst (IsNamed b) found (v.named b) in
    let off = off_role b info.role s in
    let gone : elem b (get_admins_by_role off updated.role) ≡ false = ground (
      arith,
      elem-off_role b info.role updated.role b s (v.roles_distinct info.role),
      v.by_role updated.role b,
      ==_iff b b,
      found,
    ) in
    record {
      named = λ a. put-IsNamed s.admin_info b updated a (k ∙ own) (v.named a);
      distinct = v.distinct;
      listed = λ a. ground (arith, v.listed a, found);
      bounded = v.bounded;
      roles_distinct = λ r.
          onto_role-Distinct b updated.role r off
            (λ p. off_role-Distinct b info.role p s v.roles_distinct) gone;
      by_role = λ r a.
          elem-onto_role b updated.role r a off
          ∙ ground (
            arith,
            elem-off_role b info.role r a s (v.roles_distinct info.role),
            v.by_role r a,
            found,
            ==_iff a b,
          );
      empty = λ m. absurd (ground (arith, v.empty m b));
    }
