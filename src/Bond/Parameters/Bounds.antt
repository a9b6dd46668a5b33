-- ===== src/Bond/Parameters/Bounds.antt =====
-- The parameters stay within their bounds (contracts/credence_bond/src/parameters.rs).
use credence_contracts.Prelude.{
  ◌⊎◌, List, [], ◌∷◌, ◌≡◌, refl, sym, ap, subst, ◌∙◌, true, Option, some, ◌==◌, ==_iff, arith,
  Bool-cases, inl, inr,
}
use credence_contracts.Prelude.Int.{ℤ}
use credence_contracts.Host.{after, Address, Env, unwrap_or, Outcome-cases}
use credence_contracts.Bond.Parameters.{
  default_protocol_fee_bps, default_attestation_fee_bps, default_withdrawal_cooldown_secs,
  default_slash_cooldown_secs, default_bronze_threshold, default_silver_threshold,
  default_gold_threshold, default_platinum_threshold, default_max_leverage, ParameterKey,
  protocol_fee_bps, attestation_fee_bps, withdrawal_cooldown_secs, slash_cooldown_secs,
  bronze_threshold, silver_threshold, gold_threshold, platinum_threshold, max_leverage, key_code,
  GovernanceApproval, Storage, put_key, own_approval,
}
use credence_contracts.Bond.Parameters.Calls.{
  Setting, Call, apply, run, fresh, set, key_of, value_of, category_of, with_approval, directly,
}
use credence_contracts.Bond.Parameters.Setters.{
  Set, setting_exact, set_directly_is, get, Within, InBounds,
}

abbrev default_value : ParameterKey → ℤ
default_value protocol_fee_bps = default_protocol_fee_bps
default_value attestation_fee_bps = default_attestation_fee_bps
default_value withdrawal_cooldown_secs = default_withdrawal_cooldown_secs
default_value slash_cooldown_secs = default_slash_cooldown_secs
default_value bronze_threshold = default_bronze_threshold
default_value silver_threshold = default_silver_threshold
default_value gold_threshold = default_gold_threshold
default_value platinum_threshold = default_platinum_threshold
default_value max_leverage = default_max_leverage

-- Every getter reads the key of its own parameter.
get_is : (s : Storage) (k : ParameterKey) → get s k ≡ unwrap_or (s.parameter k) (default_value k)
get_is s protocol_fee_bps = refl
get_is s attestation_fee_bps = refl
get_is s withdrawal_cooldown_secs = refl
get_is s slash_cooldown_secs = refl
get_is s bronze_threshold = refl
get_is s silver_threshold = refl
get_is s gold_threshold = refl
get_is s platinum_threshold = refl
get_is s max_leverage = refl

same_key : (j k : ParameterKey) → (key_code j == key_code k) ≡ true → j ≡ k
same_key j k h =
    let same : key_code j ≡ key_code k = ground (arith, ==_iff (key_code j) (key_code k)) in
    ground arith

default_in_bounds : (k : ParameterKey) → Within k (default_value k)
default_in_bounds k = ground arith

-- The value that a setter stores is the one that the getter reads; the other getters read what they
-- read before.
reads_set :
    (s t : Storage) (j k : ParameterKey) (v : ℤ)
    → t ≡ (record s { parameter = put_key j (some v) s.parameter })
    → ((j ≡ k) × (get t k ≡ v)) ⊎ (get t k ≡ get s k)
reads_set s t j k v stored =
    let now : t.parameter k ≡ put_key j (some v) s.parameter k = ap (λ u. u.parameter k) stored in
    elim (Bool-cases (key_code k == key_code j)) [
      | inl here ↦ inl (sym (same_key k j here), get_is t k ∙ ground (arith, here, now))
      | inr elsewhere ↦ inr (get_is t k ∙ ground (arith, elsewhere, now) ∙ sym (get_is s k))
    ]

Set-InBounds :
    (e : Env) (admin : Address) (c : Setting) (approval : GovernanceApproval) (s t : Storage)
    → Set e admin c approval s t
    → InBounds s
    → InBounds t
Set-InBounds e admin c approval s t (_, _, _, low, high, stored) inside k =
    elim (reads_set s t (key_of c) k (value_of c) stored) [
      | inl (here, now) ↦
          subst (Within k) (sym now) (subst (λ j. Within j (value_of c)) here (low, high))
      | inr kept ↦ subst (Within k) (sym kept) (inside k)
    ]

set-InBounds :
    (e : Env) (admin : Address) (c : Setting) (approval : GovernanceApproval) (s : Storage)
    → InBounds s
    → InBounds (after s (set e admin c approval s))
set-InBounds e admin c approval s inside = elim (Outcome-cases (set e admin c approval s)) [
  | inl (p, fails) ↦ subst (λ o. InBounds (after s o)) (sym fails) inside
  | inr (_, t, returns) ↦
      subst (λ o. InBounds (after s o)) (sym returns)
        (Set-InBounds e admin c approval s t ((setting_exact e admin c approval s t).0 returns)
          inside)
]

apply-InBounds : (e : Env) (c : Call) (s : Storage) → InBounds s → InBounds (apply e c s)
unfolding apply
apply-InBounds e (with_approval admin c approval) s inside =
    set-InBounds e admin c approval s inside
apply-InBounds e (directly admin c) s inside =
    subst (λ o. InBounds (after s o)) (sym (set_directly_is e admin c s))
      (set-InBounds e admin c (own_approval admin (category_of (key_of c))) s inside)

run-InBounds : (cs : List (Env × Call)) (s : Storage) → InBounds s → InBounds (run cs s)
unfolding run
run-InBounds [] s inside = inside
run-InBounds ((e, c) ∷ cs) s inside = run-InBounds cs (apply e c s) (apply-InBounds e c s inside)

-- Whatever setters are called, by whom and with what approvals, every getter reads a value between
-- the lowest and the highest one for its parameter.
pub parameters_stay_bounded :
    (a : Option Address) (cs : List (Env × Call)) → InBounds (run cs (fresh a))
parameters_stay_bounded a cs =
    run-InBounds cs (fresh a)
      (λ k. subst (Within k) (sym (get_is (fresh a) k)) (default_in_bounds k))
