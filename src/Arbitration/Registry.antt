-- ===== src/Arbitration/Registry.antt =====
-- The list of arbitrators agrees with their weights (contracts/arbitration/src/lib.rs).
use credence_contracts.Prelude.{
  ℕ, ◌≡◌, refl, sym, subst, ap, ◌∙◌, inl, inr, false, Option, List, [], ◌∷◌, arith, ◌==◌, ==_iff,
  elem, Distinct, elem-append, append-Distinct, if◌then◌else◌,
}
use credence_contracts.Prelude.Int.{ℤ}
use credence_contracts.Host.{Address, Env, after, is_some, unwrap_or}
use credence_contracts.Arbitration.State.{Storage, get_registry}
use credence_contracts.Arbitration.Arbitrators.{
  initialize, register_arbitrator, without, unregister_arbitrator, set_quorum,
}
use credence_contracts.Arbitration.Disputes.{create_dispute, cancel_dispute, vote}
use credence_contracts.Arbitration.Calls.{Call, apply}
use credence_contracts.Arbitration.Invariant.{IsOrderly, resolve-outcome}

-- The registry has no repetition, and lists exactly the addresses that have a weight.
pub record RegistryAgrees (s : Storage) : Type 0 where
  pub distinct : Distinct (get_registry s)
  pub listed : (a : Address) → elem a (get_registry s) ≡ is_some (s.arbitrator a)

elem-without : (a b : ℕ) (l : List ℕ) → elem b (without a l) ≡ (if b == a then false else elem b l)
unfolding without
elem-without a b [] = ground arith
elem-without a b (x ∷ xs) = ground (arith, elem-without a b xs)

without-Distinct : (a : ℕ) (l : List ℕ) → Distinct l → Distinct (without a l)
unfolding without
without-Distinct a [] d = tt
without-Distinct a (x ∷ xs) d = ground (arith, without-Distinct a xs d.1, elem-without a x xs)

register-RegistryAgrees :
    (e : Env) (a : Address) (w : ℤ) (s : Storage)
    → RegistryAgrees s
    → RegistryAgrees (after s (register_arbitrator e a w s))
unfolding register_arbitrator
register-RegistryAgrees e a w s v = record {
  distinct = ground (arith, v.distinct, append-Distinct a (get_registry s) v.distinct);
  listed = λ b.
      ground (arith, v.listed b, v.listed a, elem-append b (get_registry s) (a ∷ []), ==_iff b a);
}

unregister-RegistryAgrees :
    (e : Env) (a : Address) (s : Storage)
    → RegistryAgrees s
    → RegistryAgrees (after s (unregister_arbitrator e a s))
unfolding unregister_arbitrator
unregister-RegistryAgrees e a s v = record {
  distinct = ground (arith, v.distinct, without-Distinct a (get_registry s) v.distinct);
  listed = λ b. ground (arith, v.listed b, elem-without a b (get_registry s));
}

abbrev SameRegistry : Storage → Storage → Type 0
SameRegistry s t = (t.arbitrator_registry ≡ s.arbitrator_registry) × (t.arbitrator ≡ s.arbitrator)

SameRegistry-agree : (s t : Storage) → SameRegistry s t → RegistryAgrees s → RegistryAgrees t
SameRegistry-agree s t (p, q) v = record {
  distinct = subst (λ (o : Option (List Address)). Distinct (unwrap_or o [])) (sym p) v.distinct;
  listed = λ a.
      ap (λ (o : Option (List Address)). elem a (unwrap_or o [])) p
      ∙ v.listed a
      ∙ ap (λ (f : ℕ → Option ℤ). is_some (f a)) (sym q);
}

-- With the votes in order, every call keeps the registry without repetition and equal to the addresses that have a weight.
pub apply-RegistryAgrees :
    (e : Env) (c : Call) (s : Storage)
    → IsOrderly s
    → RegistryAgrees s
    → RegistryAgrees (apply e c s)
unfolding apply initialize set_quorum create_dispute cancel_dispute vote
apply-RegistryAgrees e (Call.set_up admin) s o v = SameRegistry-agree s _ (ground arith) v
apply-RegistryAgrees e (Call.register a w) s o v = register-RegistryAgrees e a w s v
apply-RegistryAgrees e (Call.unregister a) s o v = unregister-RegistryAgrees e a s v
apply-RegistryAgrees e (Call.limit admin weight voters) s o v =
    SameRegistry-agree s _ (ground arith) v
apply-RegistryAgrees e (Call.create creator description duration) s o v =
    SameRegistry-agree s _ (ground arith) v
apply-RegistryAgrees e (Call.cancel caller id reason) s o v =
    SameRegistry-agree s _ (ground arith) v
apply-RegistryAgrees e (Call.cast voter id outcome) s o v = SameRegistry-agree s _ (ground arith) v
apply-RegistryAgrees e (Call.resolve id) s o v = elim (resolve-outcome e id s (o.tallies id)) [
  | inl same ↦ subst RegistryAgrees (sym same) v
  | inr (d, d', stored, waiting, result) ↦
      SameRegistry-agree s (apply e (Call.resolve id) s)
        (
          ap (λ (t : Storage). t.arbitrator_registry) result,
          ap (λ (t : Storage). t.arbitrator) result,
        )
        v
]
apply-RegistryAgrees e (Call.pausing c) s o v = SameRegistry-agree s _ (refl, refl) v
