-- ===== src/Registry/Calls.antt =====
-- Sequences of calls of the registry (contracts/credence_registry/src/lib.rs).
use credence_contracts.Prelude.{Bool}
use credence_contracts.Host.{Address, Env, after}
use credence_contracts.Pausable.Calls
use credence_contracts.Registry.{
  Storage, Contracts, initialize, register, deactivate, remove_identity, reactivate, transfer_admin,
  set_bond_code_hash, register_trustless,
}
use credence_contracts.Registry.Hashes.{Bytes}

pub data Call : Type 0 where
  set_up : Address → Call
  add_identity : Address → Address → Bool → Call
  switch_off : Address → Call
  take_out : Address → Call
  switch_on : Address → Call
  hand_over : Address → Call
  pin_hash : Bytes → Call
  add_itself : Address → Address → Call
  pausing : Calls.Call → Call

unfoldable pub apply : Contracts → Env → Call → Storage → Storage
apply k e (Call.set_up admin) s = after s (initialize e admin s)
apply k e (Call.add_identity identity bond allow) s = after s (register k e identity bond allow s)
apply k e (Call.switch_off identity) s = after s (deactivate e identity s)
apply k e (Call.take_out identity) s = after s (remove_identity e identity s)
apply k e (Call.switch_on identity) s = after s (reactivate e identity s)
apply k e (Call.hand_over new_admin) s = after s (transfer_admin e new_admin s)
apply k e (Call.pin_hash code_hash) s = after s (set_bond_code_hash e code_hash s)
apply k e (Call.add_itself caller identity) s = after s (register_trustless k e caller identity s)
apply k e (Call.pausing c) s = record s { pause = Calls.apply e c s.pause }
