-- ===== src/Registry/Registration.antt =====
-- What the calls of the registry do when they return (contracts/credence_registry/src/lib.rs).
use credence_contracts.Prelude.{
  ◌≡◌, ap, ◌∙◌, ◌⊎◌, inl, inr, Bool, true, false, ◌||◌, none, some, length, ==_iff, not, arith,
  Option-cases,
}
use credence_contracts.Host.{Address, Env, put, done}
use credence_contracts.Pausable.{is_paused}
use credence_contracts.Registry.{
  Storage, Contracts, RegistryEntry, iface_credence_bond_v1, new_entry, register, deactivate,
  remove_identity, reactivate, get_bond_code_hash, register_trustless,
}
use credence_contracts.Registry.Hashes.{constant_time_eq, constant_time_eq_lem}
use credence_contracts.Registry.Inverse.{with_entry, without_entry, with_flag}

-- The contract runs, and its admin has authorised the call.
abbrev pub ByAdmin : Env → Storage → Type 0
ByAdmin e s =
    (is_paused s.pause ≡ false)
    × ((admin : Address) × (s.pause.admin ≡ some admin) × (e.authorized admin ≡ true))

-- What a registration by the admin has checked and done.
pub record Registered (k : Contracts) (e : Env) (identity bond : Address) (allow : Bool)
    (s t : Storage) (r : RegistryEntry) : Type 0 where
  pub by_admin : ByAdmin e s
  pub supported : allow || k.supports_interface bond iface_credence_bond_v1 ≡ true
  pub unregistered : s.identity_to_bond identity ≡ none
  pub unbound : s.bond_to_identity bond ≡ none
  pub entry : r ≡ new_entry e identity bond
  pub stored : t ≡ with_flag allow bond (with_entry (new_entry e identity bond) s)

pub register-Registered :
    (k : Contracts) (e : Env) (identity bond : Address) (allow : Bool) (s t : Storage)
    (r : RegistryEntry)
    → register k e identity bond allow s ≡ done r t
    → Registered k e identity bond allow s t r
unfolding register
register-Registered k e identity bond allow s t r h = elim (Option-cases s.pause.admin) [
  | inl unset ↦ absurd (ground arith)
  | inr (admin, set) ↦ record {
    by_admin = (ground arith, (admin, set, ground arith));
    supported = ground arith;
    unregistered = ground arith;
    unbound = ground arith;
    entry = ground arith;
    stored = ground arith;
  }
]

-- What a removal has done.
pub record Removed (e : Env) (identity : Address) (s t : Storage) : Type 0 where
  pub by_admin : ByAdmin e s
  pub entry : RegistryEntry
  pub found : s.identity_to_bond identity ≡ some entry
  pub stored : t ≡ without_entry identity entry.bond_contract s

pub remove_identity-Removed :
    (e : Env) (identity : Address) (s t : Storage)
    → remove_identity e identity s ≡ done tt t
    → Removed e identity s t
unfolding remove_identity
remove_identity-Removed e identity s t h = elim (Option-cases s.pause.admin) [
  | inl unset ↦ absurd (ground arith)
  | inr (admin, set) ↦ elim (Option-cases (s.identity_to_bond identity)) [
    | inl missing ↦ absurd (ground arith)
    | inr (entry, found) ↦ record {
      by_admin = (ground arith, (admin, set, ground arith));
      entry = entry;
      found = found;
      stored = ground arith;
    }
  ]
]

-- What a switch of an entry to `active` has done.
pub record Switched (e : Env) (identity : Address) (active : Bool) (s t : Storage) : Type 0 where
  pub by_admin : ByAdmin e s
  pub entry : RegistryEntry
  pub found : s.identity_to_bond identity ≡ some entry
  pub other : entry.active ≡ not active
  pub stored : t ≡ (record s {
    identity_to_bond = put identity (some (record entry { active = active })) s.identity_to_bond;
  })

pub deactivate-Switched :
    (e : Env) (identity : Address) (s t : Storage)
    → deactivate e identity s ≡ done tt t
    → Switched e identity false s t
unfolding deactivate
deactivate-Switched e identity s t h = elim (Option-cases s.pause.admin) [
  | inl unset ↦ absurd (ground arith)
  | inr (admin, set) ↦ elim (Option-cases (s.identity_to_bond identity)) [
    | inl missing ↦ absurd (ground arith)
    | inr (entry, found) ↦ record {
      by_admin = (ground arith, (admin, set, ground arith));
      entry = entry;
      found = found;
      other = ground arith;
      stored = ground arith;
    }
  ]
]

pub reactivate-Switched :
    (e : Env) (identity : Address) (s t : Storage)
    → reactivate e identity s ≡ done tt t
    → Switched e identity true s t
unfolding reactivate
reactivate-Switched e identity s t h = elim (Option-cases s.pause.admin) [
  | inl unset ↦ absurd (ground arith)
  | inr (admin, set) ↦ elim (Option-cases (s.identity_to_bond identity)) [
    | inl missing ↦ absurd (ground arith)
    | inr (entry, found) ↦ record {
      by_admin = (ground arith, (admin, set, ground arith));
      entry = entry;
      found = found;
      other = ground arith;
      stored = ground arith;
    }
  ]
]

-- What a registration by the bond contract itself has checked: the contract runs, the caller has
-- authorised the call, and its code hash is the pinned one, of 32 bytes.
pub record Verified (k : Contracts) (e : Env) (caller : Address) (s : Storage) : Type 0 where
  pub running : is_paused s.pause ≡ false
  pub authorized : e.authorized caller ≡ true
  pub pinned : k.get_contract_code_hash caller ≡ some (get_bond_code_hash s)
  pub full : length (get_bond_code_hash s) ≡ 32

-- The identity had an active entry with the caller, or neither of the two was known.
abbrev pub Bound : Env → Address → Address → Storage → Storage → RegistryEntry → Type 0
Bound e caller identity s t r =
    ((s.identity_to_bond identity ≡ some r)
      × (r.bond_contract ≡ caller)
      × (r.active ≡ true)
      × (t ≡ s))
    ⊎ ((s.identity_to_bond identity ≡ none)
        × (s.bond_to_identity caller ≡ none)
        × (r ≡ new_entry e identity caller)
        × (t ≡ with_entry (new_entry e identity caller) s))

-- A registration by the bond contract itself that returns was authorised by the caller, while the
-- contract ran and the caller's code hash was the pinned one, of 32 bytes; and either the identity
-- had an active entry with the caller, which is returned, and nothing changes, or neither was known,
-- and both are entered.
pub register_trustless_exact :
    (k : Contracts) (e : Env) (caller identity : Address) (s t : Storage) (r : RegistryEntry)
    → register_trustless k e caller identity s ≡ done r t
    → Verified k e caller s × Bound e caller identity s t r
unfolding register_trustless
register_trustless_exact k e caller identity s t r h =
    elim (Option-cases (k.get_contract_code_hash caller)) [
      | inl no_answer ↦ absurd (ground arith)
      | inr (hash, answer) ↦
          let equal : constant_time_eq hash (get_bond_code_hash s) ≡ true = ground arith in
          let same = (constant_time_eq_lem hash (get_bond_code_hash s)).0 equal in
          (
            record {
              running = ground arith;
              authorized = ground arith;
              pinned = answer ∙ ap some same;
              full = ground (arith, ==_iff (length (get_bond_code_hash s)) 32);
            },
            elim (Option-cases (s.identity_to_bond identity)) [
              | inl fresh ↦ inr (fresh, ground arith, ground arith, ground arith)
              | inr (entry, found) ↦ inl (
                ground arith,
                ground (arith, ==_iff entry.bond_contract caller),
                ground arith,
                ground arith,
              )
            ],
          )
    ]
