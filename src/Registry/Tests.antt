-- ===== src/Registry/Tests.antt =====
-- The registry on concrete storages (contracts/credence_registry/src/lib.rs).
use credence_contracts.Prelude.{
  ℕ, ◌+◌, ◌≡◌, refl, true, false, none, some, [], ◌∷◌, ◌==◌, if◌then◌else◌, arith,
}
use credence_contracts.Host.{Address, Env, Action, put, done}
use credence_contracts.Pausable.{PauseStorage}
use credence_contracts.Registry.{
  Storage, Contracts, new_entry, get_identities, register, remove_identity, register_trustless,
  get_bond_contract, get_identity,
}
use credence_contracts.Registry.Hashes.{Bytes, constant_time_eq, gather}
use credence_contracts.Registry.Calls.{Call, apply}
use credence_contracts.Registry.Inverse.{IsInverse}
use credence_contracts.Registry.Registration.{Verified, Bound, register_trustless_exact}
use credence_contracts.Registry.Guarantees.{apply-IsInverse, register_remove}
use credence_contracts.Registry.Idempotency.{
  Store, ok, duplicate_different_caller, handle, handle_all, handled_once,
}

abbrev host : Env
host = record { timestamp = 50; sequence = 1; current_contract = 9; authorized = λ a. true }

abbrev pause_part : PauseStorage
pause_part = record {
  admin = some 1;
  paused = some false;
  pause_signer = λ a. none;
  pause_signer_count = some 0;
  pause_threshold = some 0;
  pause_proposal_counter = some 0;
  pause_proposal = λ i. none;
  pause_approval = λ i a. none;
  pause_approval_count = λ i. none;
}

abbrev hash : Bytes
hash =
    1 ∷ 2 ∷ 3 ∷ 4 ∷ 5 ∷ 6 ∷ 7 ∷ 8 ∷ 1 ∷ 2 ∷ 3 ∷ 4 ∷ 5 ∷ 6 ∷ 7 ∷ 8 ∷ 1 ∷ 2 ∷ 3 ∷ 4 ∷ 5 ∷ 6 ∷ 7 ∷ 8
    ∷ 1 ∷ 2 ∷ 3 ∷ 4 ∷ 5 ∷ 6 ∷ 7 ∷ 8 ∷ []

abbrev empty_registry : Storage
empty_registry = record {
  pause = pause_part;
  identity_to_bond = λ i. none;
  bond_to_identity = λ b. none;
  registered_identities = some [];
  allow_non_interface = λ b. none;
  bond_code_hash = some hash;
}

-- Every contract answers with the pinned hash, and none names the interface.
abbrev contracts : Contracts
contracts = record { supports_interface = λ a i. false; get_contract_code_hash = λ a. some hash }

empty_registry-IsInverse : IsInverse empty_registry
empty_registry-IsInverse = record {
  to = λ i b m. absurd (ground arith);
  back = λ i b m. absurd (ground arith);
  named = λ i. tt;
  distinct = tt;
  listed = λ i. refl;
  empty = λ m i. refl;
  unpinned = λ m. absurd (ground arith);
}

abbrev one_entry : Storage
one_entry = record empty_registry {
  identity_to_bond = put 5 (some (new_entry host 5 70)) empty_registry.identity_to_bond;
  bond_to_identity = put 70 (some 5) empty_registry.bond_to_identity;
  registered_identities = some (5 ∷ []);
}

abbrev one_allowed : Storage
one_allowed = record one_entry {
  allow_non_interface = put 70 (some true) one_entry.allow_non_interface;
}

registered :
    register contracts host 5 70 true empty_registry ≡ done (new_entry host 5 70) one_allowed
unfolding register
registered = refl

register_remove_example :
    (get_bond_contract 5 one_allowed ≡ done (new_entry host 5 70) one_allowed)
    × (get_identity 70 one_allowed ≡ done 5 one_allowed)
    × ((u : Storage) × (remove_identity host 5 one_allowed ≡ done tt u)
        × ((i : Address) → u.identity_to_bond i ≡ empty_registry.identity_to_bond i)
        × ((b : Address) → u.bond_to_identity b ≡ empty_registry.bond_to_identity b)
        × (get_identities u ≡ get_identities empty_registry))
register_remove_example =
    register_remove contracts host host 5 70 true empty_registry one_allowed (new_entry host 5 70)
      empty_registry-IsInverse registered (refl, (1, refl, refl))

apply-IsInverse_example :
    IsInverse (apply contracts host (Call.add_identity 5 70 true) empty_registry)
apply-IsInverse_example =
    apply-IsInverse contracts host (Call.add_identity 5 70 true) empty_registry
      empty_registry-IsInverse

self_registered :
    register_trustless contracts host 70 5 empty_registry ≡ done (new_entry host 5 70) one_entry
unfolding register_trustless constant_time_eq gather
self_registered = refl

register_trustless_exact_example :
    Verified contracts host 70 empty_registry
    × Bound host 70 5 empty_registry one_entry (new_entry host 5 70)
register_trustless_exact_example =
    register_trustless_exact contracts host 70 5 empty_registry one_entry (new_entry host 5 70)
      self_registered

abbrev other_hash : Bytes
other_hash = 1 ∷ 2 ∷ 4 ∷ []

-- A transaction that counts its runs, and answers with the count.
abbrev count_runs : Action ℕ Bytes
count_runs n = done ((n + 1) ∷ []) (n + 1)

abbrev fresh_store : Store ℕ
fresh_store = record { idempotent = λ i. none; rest = 0 }

abbrev run_once : Store ℕ
run_once = record {
  idempotent = put 8 (some (record { caller = 3; result = 1 ∷ []; timestamp = 50 })) (λ i. none);
  rest = 1;
}

first_run : handle host 8 3 count_runs fresh_store ≡ done (ok (1 ∷ [])) run_once
unfolding handle
first_run = refl

handled_once_example :
    handle host 8 4 count_runs (handle_all [] run_once)
    ≡ done (if 4 == 3 then ok (1 ∷ []) else duplicate_different_caller) (handle_all [] run_once)
handled_once_example =
    handled_once host 8 3 count_runs (1 ∷ []) fresh_store run_once [] host 4 count_runs first_run
