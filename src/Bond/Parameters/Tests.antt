-- ===== src/Bond/Parameters/Tests.antt =====
-- Parameters on concrete storages (contracts/credence_bond/src/parameters.rs).
use credence_contracts.Prelude.{◌≡◌, refl, true, some, [], ◌∷◌, ◌↔◌}
use credence_contracts.Prelude.Int.{pos}
use credence_contracts.Host.{Env, done, panics, message}
use credence_contracts.Bond.Parameters.{
  bronze_threshold, tier, fee, Storage, put_key, own_approval, get_bronze_threshold,
  get_silver_threshold, set_between, set_protocol_fee_bps, set_bronze_threshold_with_approval,
}
use credence_contracts.Bond.Parameters.Calls.{
  Call, run, fresh, set, a_protocol_fee_bps, a_bronze_threshold, directly, with_approval,
}
use credence_contracts.Bond.Parameters.Setters.{Set, InBounds, setting_exact}
use credence_contracts.Bond.Parameters.Bounds.{parameters_stay_bounded}

abbrev host : Env
host = record { timestamp = 50; sequence = 1; current_contract = 9; authorized = λ a. true }

-- The admin 3 raises the bronze threshold.
abbrev raise : Call
raise = directly 3 (a_bronze_threshold (pos 1000000000000))

abbrev raised : Storage
raised = record {
  admin = some 3;
  parameter = put_key bronze_threshold (some (pos 1000000000000)) (fresh (some 3)).parameter;
}

-- A fee of more than a tenth is refused, and so is an approval for another category.
too_much : set_protocol_fee_bps host 3 1001 (fresh (some 3)) ≡ panics message
unfolding set_between
too_much = refl

wrong_category :
    set_bronze_threshold_with_approval host 3 (pos 5) (own_approval 3 fee) (fresh (some 3))
    ≡ panics message
unfolding set_between
wrong_category = refl

-- The bronze threshold passes the silver one.
bronze_above_silver :
    (get_bronze_threshold raised ≡ pos 1000000000000)
    × (get_silver_threshold raised ≡ pos 1000000000)
bronze_above_silver = (refl, refl)

setting_exact_example :
    (set host 3 (a_bronze_threshold (pos 1000000000000)) (own_approval 3 tier) (fresh (some 3))
      ≡ done tt raised)
    ↔ Set host 3
        (a_bronze_threshold (pos 1000000000000))
        (own_approval 3 tier)
        (fresh (some 3))
        raised
setting_exact_example =
    setting_exact host 3 (a_bronze_threshold (pos 1000000000000)) (own_approval 3 tier)
      (fresh (some 3)) raised

parameters_stay_bounded_example : InBounds (
    run
      ((host, raise)
        ∷ (host, directly 3 (a_protocol_fee_bps 1001))
        ∷ (host, with_approval 4 (a_protocol_fee_bps 10) (own_approval 4 fee))
        ∷ [])
      (fresh (some 3)))
parameters_stay_bounded_example = parameters_stay_bounded (some 3) (
    (host, raise)
    ∷ (host, directly 3 (a_protocol_fee_bps 1001))
    ∷ (host, with_approval 4 (a_protocol_fee_bps 10) (own_approval 4 fee))
    ∷ [])
