-- ===== src/Registry/Inverse.antt =====
-- The two maps of the registry stay inverse to each other (contracts/credence_registry/src/lib.rs).
use credence_contracts.Prelude.{
  ℕ, ◌≡◌, refl, sym, ap, subst, ◌∙◌, inl, inr, Bool, true, Option, none, some, List, [], ◌∷◌, ◌++◌,
  elem, Distinct, elem-append, append-Distinct, remove_first, elem-remove_first,
  remove_first-Distinct, ◌==◌, ==_iff, if◌then◌else◌, arith, Bool-cases,
}
use credence_contracts.Host.{Address, Entries, put, remove, is_some}
use credence_contracts.Registry.{Storage, RegistryEntry, get_identities}

-- The bond contract in an entry, if there is one.
abbrev pub bond_of : Option RegistryEntry → Option Address
bond_of none = none
bond_of (some entry) = some entry.bond_contract

-- The entry, if there is one, names the identity that it stands under.
abbrev pub IsNamed : Address → Option RegistryEntry → Type 0
IsNamed i none = Unit
IsNamed i (some entry) = entry.identity ≡ i

-- The two maps are inverse to each other, each entry names its identity, the list has every identity
-- with an entry exactly once, and an uninitialised registry is empty.
pub record IsInverse (s : Storage) : Type 0 where
  pub to : (i b : Address) → bond_of (s.identity_to_bond i) ≡ some b → s.bond_to_identity b ≡ some i
  pub back :
      (i b : Address) → s.bond_to_identity b ≡ some i → bond_of (s.identity_to_bond i) ≡ some b
  pub named : (i : Address) → IsNamed i (s.identity_to_bond i)
  pub distinct : Distinct (get_identities s)
  pub listed : (i : Address) → elem i (get_identities s) ≡ is_some (s.identity_to_bond i)
  pub empty : s.pause.admin ≡ none → (i : Address) → s.identity_to_bond i ≡ none
  pub unpinned : s.pause.admin ≡ none → s.bond_code_hash ≡ none

-- What the operations make of the storage.
abbrev pub with_entry : RegistryEntry → Storage → Storage
with_entry entry s = record s {
  identity_to_bond = put entry.identity (some entry) s.identity_to_bond;
  bond_to_identity = put entry.bond_contract (some entry.identity) s.bond_to_identity;
  registered_identities =
      if elem entry.identity (get_identities s)
      then s.registered_identities
      else some (get_identities s ++ entry.identity ∷ []);
}

abbrev pub without_entry : Address → Address → Storage → Storage
without_entry i b s = record s {
  identity_to_bond = remove i s.identity_to_bond;
  bond_to_identity = remove b s.bond_to_identity;
  registered_identities =
      if elem i (get_identities s)
      then some (remove_first i (get_identities s))
      else s.registered_identities;
}

abbrev pub with_flag : Bool → Address → Storage → Storage
with_flag allow b s =
    if allow then record s { allow_non_interface = put b (some true) s.allow_non_interface } else s

put-IsNamed :
    (m : Entries RegistryEntry) (entry : RegistryEntry) (i : Address)
    → IsNamed i (m i)
    → IsNamed i (put entry.identity (some entry) m i)
put-IsNamed m entry i v = elim (Bool-cases (i == entry.identity)) [
  | inl here ↦ rw here (sym (ground (arith, ==_iff i entry.identity)))
  | inr elsewhere ↦ rw elsewhere v
]

remove-IsNamed :
    (m : Entries RegistryEntry) (j i : Address) → IsNamed i (m i) → IsNamed i (remove j m i)
remove-IsNamed m j i v = elim (Bool-cases (i == j)) [
  | inl here ↦ rw here tt
  | inr elsewhere ↦ rw elsewhere v
]

pub with_entry-IsInverse :
    (entry : RegistryEntry) (s : Storage)
    → IsInverse s
    → s.identity_to_bond entry.identity ≡ none
    → s.bond_to_identity entry.bond_contract ≡ none
    → is_some s.pause.admin ≡ true
    → IsInverse (with_entry entry s)
with_entry-IsInverse entry s v h k ready = record {
  to = λ i b m. ground (arith, v.to i b);
  back = λ i b m. ground (arith, v.back i b);
  named = λ i. put-IsNamed s.identity_to_bond entry i (v.named i);
  distinct =
      ground (arith, append-Distinct entry.identity (get_identities s) v.distinct, v.distinct);
  listed = λ i. ground (
    arith,
    v.listed i,
    v.listed entry.identity,
    elem-append i (get_identities s) (entry.identity ∷ []),
  );
  empty = λ m. absurd (ground arith);
  unpinned = λ m. absurd (ground arith);
}

pub without_entry-IsInverse :
    (i : Address) (entry : RegistryEntry) (s : Storage)
    → IsInverse s
    → s.identity_to_bond i ≡ some entry
    → IsInverse (without_entry i entry.bond_contract s)
without_entry-IsInverse i entry s v h = record {
  to = λ j b m. ground (arith, v.to j b, v.to i b, v.to i entry.bond_contract);
  back = λ j b m. ground (arith, v.back j b, v.back i b);
  named = λ j. remove-IsNamed s.identity_to_bond i j (v.named j);
  distinct = ground (arith, remove_first-Distinct i (get_identities s) v.distinct, v.distinct);
  listed = λ j.
      ground (==_iff j i, arith, v.listed j, elem-remove_first i j (get_identities s) v.distinct);
  empty = λ m. absurd (ground (arith, v.empty m i));
  unpinned = v.unpinned;
}

-- A storage with the same maps, up to which entries are active.
pub record SameMaps (s t : Storage) : Type 0 where
  pub bonds : (i : Address) → bond_of (t.identity_to_bond i) ≡ bond_of (s.identity_to_bond i)
  pub names : (i : Address) → IsNamed i (s.identity_to_bond i) → IsNamed i (t.identity_to_bond i)
  pub reverse : t.bond_to_identity ≡ s.bond_to_identity
  pub list : get_identities t ≡ get_identities s

bond_of_some : (o p : Option RegistryEntry) → bond_of o ≡ bond_of p → is_some o ≡ is_some p
bond_of_some none none h = refl
bond_of_some none (some x) h = absurd (ground arith)
bond_of_some (some x) none h = absurd (ground arith)
bond_of_some (some x) (some y) h = refl

pub SameMaps-IsInverse :
    (s t : Storage)
    → SameMaps s t
    → (t.pause.admin ≡ none → (s.pause.admin ≡ none) × (t.bond_code_hash ≡ s.bond_code_hash))
    → IsInverse s
    → IsInverse t
SameMaps-IsInverse s t w a v = record {
  to = λ i b m. ap (λ (f : ℕ → Option Address). f b) w.reverse ∙ v.to i b (sym (w.bonds i) ∙ m);
  back = λ i b m. w.bonds i ∙ v.back i b (ap (λ (f : ℕ → Option Address). f b) (sym w.reverse) ∙ m);
  named = λ i. w.names i (v.named i);
  distinct = subst Distinct (sym w.list) v.distinct;
  listed = λ i.
      ap (λ (l : List Address). elem i l) w.list
      ∙ v.listed i
      ∙ bond_of_some (s.identity_to_bond i) (t.identity_to_bond i) (sym (w.bonds i));
  empty = λ m i. ground (arith, w.bonds i, v.empty (a m).0 i);
  unpinned = λ m. (a m).1 ∙ v.unpinned (a m).0;
}
