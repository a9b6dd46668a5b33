-- ===== src/Arbitration/Calls.antt =====
-- Sequences of calls of the arbitration contract (contracts/arbitration/src/lib.rs), those of the
-- pause module among them.
use credence_contracts.Prelude.{ℕ, Option, List, [], ◌∷◌}
use credence_contracts.Prelude.Int.{ℤ}
use credence_contracts.Host.{Address, Env, after}
use credence_contracts.Pausable.Calls
use credence_contracts.Arbitration.State.{Text, Storage}
use credence_contracts.Arbitration.Arbitrators.{
  initialize, register_arbitrator, unregister_arbitrator, set_quorum,
}
use credence_contracts.Arbitration.Disputes.{create_dispute, cancel_dispute, vote, resolve_dispute}

pub data Call : Type 0 where
  set_up : Address → Call
  register : Address → ℤ → Call
  unregister : Address → Call
  limit : Address → ℤ → ℕ → Call
  create : Address → Text → ℕ → Call
  cancel : Address → ℕ → Option Text → Call
  cast : Address → ℕ → ℕ → Call
  resolve : ℕ → Call
  pausing : Calls.Call → Call

unfoldable pub apply : Env → Call → Storage → Storage
apply e (Call.set_up admin) s = after s (initialize admin s)
apply e (Call.register arbitrator weight) s = after s (register_arbitrator e arbitrator weight s)
apply e (Call.unregister arbitrator) s = after s (unregister_arbitrator e arbitrator s)
apply e (Call.limit admin weight voters) s = after s (set_quorum e admin weight voters s)
apply e (Call.create creator description duration) s =
    after s (create_dispute e creator description duration s)
apply e (Call.cancel caller id reason) s = after s (cancel_dispute e caller id reason s)
apply e (Call.cast voter id outcome) s = after s (vote e voter id outcome s)
apply e (Call.resolve id) s = after s (resolve_dispute e id s)
apply e (Call.pausing c) s = record s { pause = Calls.apply e c s.pause }

unfoldable pub run : List (Env × Call) → Storage → Storage
run [] s = s
run ((e, c) ∷ cs) s = run cs (apply e c s)
