-- ===== src/Registry/Guarantees.antt =====
-- What the registry promises over its calls (contracts/credence_registry/src/lib.rs).
use credence_contracts.Prelude.{
  ◌≡◌, refl, sym, ap, subst, ◌∙◌, inl, inr, Bool, true, false, Option, none, some, List, [], ◌∷◌,
  ◌++◌, elem, remove_first, elem-append, ◌==◌, ==_iff, arith, Bool-cases,
}
use credence_contracts.Host.{Outcome, Address, Env, put, after, done, panics, is_some}
use credence_contracts.Pausable.{
  PauseStorage, set_pause_signer, set_pause_threshold, pause, unpause, propose_action,
  approve_pause_proposal, execute_pause_proposal,
}
use credence_contracts.Pausable.Calls
use credence_contracts.Registry.{
  Storage, Contracts, RegistryEntry, new_entry, get_identities, initialize, register, deactivate,
  remove_identity, reactivate, transfer_admin, set_bond_code_hash, register_trustless,
  get_bond_contract, get_identity,
}
use credence_contracts.Registry.Hashes.{Bytes}
use credence_contracts.Registry.Calls.{Call, apply}
use credence_contracts.Registry.Inverse.{
  IsInverse, IsNamed, SameMaps, with_entry, without_entry, with_flag, with_entry-IsInverse,
  without_entry-IsInverse, SameMaps-IsInverse,
}
use credence_contracts.Registry.Registration.{
  ByAdmin, register-Registered, remove_identity-Removed, Switched, deactivate-Switched,
  reactivate-Switched, register_trustless_exact,
}

pausing_admin : (e : Env) (c : Calls.Call) (p : PauseStorage) → (Calls.apply e c p).admin ≡ p.admin
unfolding Calls.apply set_pause_signer set_pause_threshold pause unpause propose_action
    approve_pause_proposal execute_pause_proposal
pausing_admin e (Calls.Call.set_signer admin signer enabled) p = ground arith
pausing_admin e (Calls.Call.set_limit admin limit) p = ground arith
pausing_admin e (Calls.Call.request_pause caller) p = ground arith
pausing_admin e (Calls.Call.request_unpause caller) p = ground arith
pausing_admin e (Calls.Call.approve signer id) p = ground arith
pausing_admin e (Calls.Call.execute id) p = ground arith

flag-IsInverse :
    (allow : Bool) (b : Address) (s : Storage) → IsInverse s → IsInverse (with_flag allow b s)
flag-IsInverse true b s v =
    SameMaps-IsInverse s _
      (record { bonds = λ i. refl; names = λ i k. k; reverse = refl; list = refl }) (λ m. (m, refl))
      v
flag-IsInverse false b s v = v

Switched-IsInverse :
    (e : Env) (identity : Address) (active : Bool) (s t : Storage)
    → Switched e identity active s t
    → IsInverse s
    → IsInverse t
Switched-IsInverse e identity active s t w v = subst IsInverse (sym w.stored) (
    SameMaps-IsInverse s _
      (record {
        bonds = λ i. ground (arith, w.found);
        names = λ i k. elim (Bool-cases (i == identity)) [
          | inl here ↦ rw here (ground (arith, w.found))
          | inr elsewhere ↦ rw elsewhere k
        ];
        reverse = refl;
        list = refl;
      })
      (λ m. (m, refl)) v)

after-IsInverse :
    {A : Type 0} (s : Storage) (o : Outcome Storage A)
    → IsInverse s
    → ((a : A) (t : Storage) → o ≡ done a t → IsInverse t)
    → IsInverse (after s o)
after-IsInverse s (panics x) v f = v
after-IsInverse s (done a t) v f = f a t refl

abbrev same_maps :
    {p : PauseStorage} {h : Option Bytes} (s : Storage)
    → SameMaps s (record s { pause = p; bond_code_hash = h })
same_maps s = record { bonds = λ i. refl; names = λ i k. k; reverse = refl; list = refl }

initialize-IsInverse :
    (e : Env) (admin : Address) (s t : Storage)
    → IsInverse s
    → initialize e admin s ≡ done tt t
    → IsInverse t
unfolding initialize
initialize-IsInverse e admin s t v h =
    let unset : s.pause.admin ≡ none = ground arith in
    record {
      to = λ i b m. ground (arith, v.to i b);
      back = λ i b m. ground (arith, v.back i b);
      named = λ i. subst (IsNamed i) (ground arith) (v.named i);
      distinct = ground arith;
      listed = λ i. ground (arith, v.empty unset i);
      empty = λ m. absurd (ground arith);
      unpinned = λ m. absurd (ground arith);
    }

transfer_admin_lem :
    (e : Env) (new_admin : Address) (s t : Storage)
    → transfer_admin e new_admin s ≡ done tt t
    → t ≡ (record s { pause = record s.pause { admin = some new_admin } })
unfolding transfer_admin
transfer_admin_lem e new_admin s t h = ground arith

set_bond_code_hash_lem :
    (e : Env) (code_hash : Bytes) (s t : Storage)
    → set_bond_code_hash e code_hash s ≡ done tt t
    → (is_some s.pause.admin ≡ true) × (t ≡ (record s { bond_code_hash = some code_hash }))
unfolding set_bond_code_hash
set_bond_code_hash_lem e code_hash s t h = ground arith

-- Every call keeps the registry in order: the map from identities to bond contracts and the map back
-- stay inverse to each other, every entry names the identity it stands under, the list has exactly
-- the identities with an entry, each once, and an uninitialised registry has no entry and no pinned
-- hash.
pub apply-IsInverse :
    (k : Contracts) (e : Env) (c : Call) (s : Storage) → IsInverse s → IsInverse (apply k e c s)
unfolding apply
apply-IsInverse k e (Call.set_up admin) s v =
    after-IsInverse s (initialize e admin s) v (λ a t h. initialize-IsInverse e admin s t v h)
apply-IsInverse k e (Call.add_identity identity bond allow) s v =
    after-IsInverse s (register k e identity bond allow s) v (λ r t h.
      let w = register-Registered k e identity bond allow s t r h in
      let (admin, set, authorized) = w.by_admin.1 in
      subst IsInverse (sym w.stored) (
        flag-IsInverse allow bond (with_entry (new_entry e identity bond) s) (
          with_entry-IsInverse (new_entry e identity bond) s v w.unregistered w.unbound
            (ap is_some set))))
apply-IsInverse k e (Call.switch_off identity) s v =
    after-IsInverse s (deactivate e identity s) v
      (λ a t h. Switched-IsInverse e identity false s t (deactivate-Switched e identity s t h) v)
apply-IsInverse k e (Call.take_out identity) s v =
    after-IsInverse s (remove_identity e identity s) v (λ a t h.
      let w = remove_identity-Removed e identity s t h in
      subst IsInverse (sym w.stored) (without_entry-IsInverse identity w.entry s v w.found))
apply-IsInverse k e (Call.switch_on identity) s v =
    after-IsInverse s (reactivate e identity s) v
      (λ a t h. Switched-IsInverse e identity true s t (reactivate-Switched e identity s t h) v)
apply-IsInverse k e (Call.hand_over new_admin) s v =
    after-IsInverse s (transfer_admin e new_admin s) v (λ a t h.
      let end = transfer_admin_lem e new_admin s t h in
      subst IsInverse (sym end)
        (SameMaps-IsInverse s _ (same_maps s) (λ m. absurd (ground arith)) v))
apply-IsInverse k e (Call.pin_hash code_hash) s v =
    after-IsInverse s (set_bond_code_hash e code_hash s) v (λ a t h.
      let (set, end) = set_bond_code_hash_lem e code_hash s t h in
      subst IsInverse (sym end)
        (SameMaps-IsInverse s _ (same_maps s) (λ m. absurd (ground arith)) v))
apply-IsInverse k e (Call.add_itself caller identity) s v =
    after-IsInverse s (register_trustless k e caller identity s) v (λ r t h.
      let (w, bound) = register_trustless_exact k e caller identity s t r h in
      elim bound [
        | inl (found, same, active, end) ↦ subst IsInverse (sym end) v
        | inr (fresh, free, new, end) ↦ subst IsInverse (sym end) (
            with_entry-IsInverse (new_entry e identity caller) s v fresh free
              (ground (arith, v.unpinned, w.full)))
      ])
apply-IsInverse k e (Call.pausing c) s v =
    SameMaps-IsInverse s _ (same_maps s) (λ m. (sym (pausing_admin e c s.pause) ∙ m, refl)) v

remove_last : (a : Address) (l : List Address) → elem a l ≡ false → remove_first a (l ++ a ∷ []) ≡ l
remove_last a [] h = ground (arith, ==_iff a a)
remove_last a (x ∷ xs) h = ground (arith, remove_last a xs, ==_iff x a, ==_iff a x)

-- The maps and the list after a registration.
entered :
    (allow : Bool) (entry : RegistryEntry) (s t : Storage)
    → t ≡ with_flag allow entry.bond_contract (with_entry entry s)
    → elem entry.identity (get_identities s) ≡ false
    → ((i : Address) → t.identity_to_bond i ≡ put entry.identity (some entry) s.identity_to_bond i)
      × ((b : Address)
          → t.bond_to_identity b
            ≡ put entry.bond_contract (some entry.identity) s.bond_to_identity b)
      × (get_identities t ≡ get_identities s ++ entry.identity ∷ [])
entered true entry s t h absent = (
  (λ i. ap (λ (z : Storage). z.identity_to_bond i) h),
  (λ b. ap (λ (z : Storage). z.bond_to_identity b) h),
  ap get_identities h ∙ ground (arith, absent),
)
entered false entry s t h absent = (
  (λ i. ap (λ (z : Storage). z.identity_to_bond i) h),
  (λ b. ap (λ (z : Storage). z.bond_to_identity b) h),
  ap get_identities h ∙ ground (arith, absent),
)

-- The removal that an admin authorises while the contract runs.
remove_returns :
    (e : Env) (identity : Address) (entry : RegistryEntry) (s : Storage)
    → ByAdmin e s
    → s.identity_to_bond identity ≡ some entry
    → remove_identity e identity s ≡ done tt (without_entry identity entry.bond_contract s)
unfolding remove_identity
remove_returns e identity entry s (running, (admin, set, authorized)) found = ground arith

-- A registration that returns, in a registry in order, can be looked up from both sides; and a later
-- removal by the admin, in a contract that runs, returns, and leaves both maps and the list of
-- identities as they were before the registration.
pub register_remove :
    (k : Contracts) (e e' : Env) (identity bond : Address) (allow : Bool) (s t : Storage)
    (r : RegistryEntry)
    → IsInverse s
    → register k e identity bond allow s ≡ done r t
    → ByAdmin e' t
    → (get_bond_contract identity t ≡ done r t)
      × (get_identity bond t ≡ done identity t)
      × ((u : Storage) × (remove_identity e' identity t ≡ done tt u)
          × ((i : Address) → u.identity_to_bond i ≡ s.identity_to_bond i)
          × ((b : Address) → u.bond_to_identity b ≡ s.bond_to_identity b)
          × (get_identities u ≡ get_identities s))
register_remove k e e' identity bond allow s t r v h running =
    let w = register-Registered k e identity bond allow s t r h in
    let u = without_entry identity bond t in
    let entry = new_entry e identity bond in
    let absent : elem identity (get_identities s) ≡ false =
      v.listed identity ∙ ap (λ (o : Option RegistryEntry). is_some o) w.unregistered in
    let (forth, back, list) = entered allow entry s t w.stored absent in
    let found : t.identity_to_bond identity ≡ some entry =
      ground (arith, forth identity, ==_iff identity identity) in
    let bound : t.bond_to_identity bond ≡ some identity =
      ground (arith, back bond, ==_iff bond bond) in
    let known : elem identity (get_identities t) ≡ true = ground (
      arith,
      list,
      elem-append identity (get_identities s) (identity ∷ []),
      ==_iff identity identity,
    ) in
    (
      ground (arith, found, w.entry),
      ground (arith, bound),
      (
        without_entry identity bond t,
        remove_returns e' identity entry t running found,
        (λ i. ground (arith, forth i, w.unregistered)),
        (λ b. ground (arith, back b, w.unbound)),
        ground (arith, known, list, remove_last identity (get_identities s) absent),
      ),
    )
