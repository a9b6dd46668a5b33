-- ===== src/Bond/Parameters/Setters.antt =====
-- What the setters check and store (contracts/credence_bond/src/parameters.rs).
use credence_contracts.Prelude.{
  ◌↔◌, ◌≡◌, refl, sym, ap, ◌∙◌, true, false, some, ltb, ==_iff, ◌&&◌, arith, Option-cases, inl, inr,
}
use credence_contracts.Prelude.Int.{ℤ, ◌≤ℤ◌}
use credence_contracts.Host.{Address, Env, done}
use credence_contracts.Bond.Parameters.{
  ParameterKey, protocol_fee_bps, attestation_fee_bps, withdrawal_cooldown_secs,
  slash_cooldown_secs, bronze_threshold, silver_threshold, gold_threshold, platinum_threshold,
  max_leverage, Category, category_code, GovernanceApproval, Storage, put_key, set_between,
  own_approval, min_protocol_fee_bps, max_protocol_fee_bps, min_attestation_fee_bps,
  max_attestation_fee_bps, min_withdrawal_cooldown_secs, max_withdrawal_cooldown_secs,
  min_slash_cooldown_secs, max_slash_cooldown_secs, min_bronze_threshold, max_bronze_threshold,
  min_silver_threshold, max_silver_threshold, min_gold_threshold, max_gold_threshold,
  min_platinum_threshold, max_platinum_threshold, min_max_leverage, max_max_leverage,
  get_protocol_fee_bps, get_attestation_fee_bps, get_withdrawal_cooldown_secs,
  get_slash_cooldown_secs, get_bronze_threshold, get_silver_threshold, get_gold_threshold,
  get_platinum_threshold, get_max_leverage,
}
use credence_contracts.Bond.Parameters.Calls.{
  Setting, set, set_directly, key_of, value_of, category_of, a_protocol_fee_bps,
  a_attestation_fee_bps, a_withdrawal_cooldown_secs, a_slash_cooldown_secs, a_bronze_threshold,
  a_silver_threshold, a_gold_threshold, a_platinum_threshold, a_max_leverage,
}

-- The bounds, and the value of a parameter that is not set.
abbrev pub lowest : ParameterKey → ℤ
lowest protocol_fee_bps = min_protocol_fee_bps
lowest attestation_fee_bps = min_attestation_fee_bps
lowest withdrawal_cooldown_secs = min_withdrawal_cooldown_secs
lowest slash_cooldown_secs = min_slash_cooldown_secs
lowest bronze_threshold = min_bronze_threshold
lowest silver_threshold = min_silver_threshold
lowest gold_threshold = min_gold_threshold
lowest platinum_threshold = min_platinum_threshold
lowest max_leverage = min_max_leverage

abbrev pub highest : ParameterKey → ℤ
highest protocol_fee_bps = max_protocol_fee_bps
highest attestation_fee_bps = max_attestation_fee_bps
highest withdrawal_cooldown_secs = max_withdrawal_cooldown_secs
highest slash_cooldown_secs = max_slash_cooldown_secs
highest bronze_threshold = max_bronze_threshold
highest silver_threshold = max_silver_threshold
highest gold_threshold = max_gold_threshold
highest platinum_threshold = max_platinum_threshold
highest max_leverage = max_max_leverage

abbrev pub get : Storage → ParameterKey → ℤ
get s protocol_fee_bps = get_protocol_fee_bps s
get s attestation_fee_bps = get_attestation_fee_bps s
get s withdrawal_cooldown_secs = get_withdrawal_cooldown_secs s
get s slash_cooldown_secs = get_slash_cooldown_secs s
get s bronze_threshold = get_bronze_threshold s
get s silver_threshold = get_silver_threshold s
get s gold_threshold = get_gold_threshold s
get s platinum_threshold = get_platinum_threshold s
get s max_leverage = get_max_leverage s

abbrev pub Within : ParameterKey → ℤ → Type 0
Within k v = (lowest k ≤ℤ v) × (v ≤ℤ highest k)

abbrev pub InBounds : Storage → Type 0
InBounds s = (k : ParameterKey) → Within k (get s k)

-- The approval is that of the admin, still holds, and is for the category of the parameter.
abbrev pub IsValid : Env → Address → Category → GovernanceApproval → Type 0
IsValid e admin category approval =
    (approval.approver ≡ admin)
    × ((ltb 0 approval.expires_at && ltb approval.expires_at e.timestamp) ≡ false)
    × (approval.category ≡ category)

abbrev Between :
    Env
    → Address
    → ParameterKey
    → Category
    → ℤ
    → ℤ
    → ℤ
    → GovernanceApproval
    → Storage
    → Storage
    → Type 0
Between e admin key category low high value approval s t =
    (s.admin ≡ some admin)
    × (e.authorized admin ≡ true)
    × IsValid e admin category approval
    × (low ≤ℤ value)
    × (value ≤ℤ high)
    × (t ≡ (record s { parameter = put_key key (some value) s.parameter }))

same_category : (a b : Category) → category_code a ≡ category_code b → a ≡ b
same_category a b h = ground arith

set_between-Between :
    (e : Env) (admin : Address) (key : ParameterKey) (category : Category) (low high value : ℤ)
    (approval : GovernanceApproval) (s t : Storage)
    → set_between key category low high e admin value approval s ≡ done tt t
    → Between e admin key category low high value approval s t
unfolding set_between
set_between-Between e admin key category low high value approval s t h =
    elim (Option-cases s.admin) [
      | inl unset ↦ absurd (ground arith)
      | inr (a, set_to) ↦
          let same : admin ≡ a = ground (arith, ==_iff admin a) in
          (
            ground (arith, same, set_to),
            ground arith,
            (
              ground (arith, ==_iff approval.approver admin),
              ground arith,
              same_category approval.category category (
                  ground
                    (arith, ==_iff (category_code approval.category) (category_code category))),
            ),
            ground arith,
            ground arith,
            ground arith,
          )
    ]

Between-set_between :
    (e : Env) (admin : Address) (key : ParameterKey) (category : Category) (low high value : ℤ)
    (approval : GovernanceApproval) (s t : Storage)
    → Between e admin key category low high value approval s t
    → set_between key category low high e admin value approval s ≡ done tt t
unfolding set_between
Between-set_between e admin key category low high value approval s t (a, b, (c, d, f), g, i, j) =
    ground (
      arith,
      ==_iff approval.approver admin,
      ==_iff admin admin,
      ==_iff (category_code approval.category) (category_code category),
      ap category_code f,
    )

-- Each setter is the common one at its own key, category and bounds.
set_is :
    (e : Env) (admin : Address) (c : Setting) (approval : GovernanceApproval) (s : Storage)
    → set e admin c approval s
      ≡ set_between
          (key_of c)
          (category_of (key_of c))
          (lowest (key_of c))
          (highest (key_of c))
          e
          admin
          (value_of c)
          approval
          s
unfolding set
set_is e admin (a_protocol_fee_bps v) approval s = refl
set_is e admin (a_attestation_fee_bps v) approval s = refl
set_is e admin (a_withdrawal_cooldown_secs v) approval s = refl
set_is e admin (a_slash_cooldown_secs v) approval s = refl
set_is e admin (a_bronze_threshold v) approval s = refl
set_is e admin (a_silver_threshold v) approval s = refl
set_is e admin (a_gold_threshold v) approval s = refl
set_is e admin (a_platinum_threshold v) approval s = refl
set_is e admin (a_max_leverage v) approval s = refl

pub set_directly_is :
    (e : Env) (admin : Address) (c : Setting) (s : Storage)
    → set_directly e admin c s ≡ set e admin c (own_approval admin (category_of (key_of c))) s
unfolding set set_directly
set_directly_is e admin (a_protocol_fee_bps v) s = refl
set_directly_is e admin (a_attestation_fee_bps v) s = refl
set_directly_is e admin (a_withdrawal_cooldown_secs v) s = refl
set_directly_is e admin (a_slash_cooldown_secs v) s = refl
set_directly_is e admin (a_bronze_threshold v) s = refl
set_directly_is e admin (a_silver_threshold v) s = refl
set_directly_is e admin (a_gold_threshold v) s = refl
set_directly_is e admin (a_platinum_threshold v) s = refl
set_directly_is e admin (a_max_leverage v) s = refl

abbrev pub Set : Env → Address → Setting → GovernanceApproval → Storage → Storage → Type 0
Set e admin c approval s t =
    Between e admin (key_of c) (category_of (key_of c)) (lowest (key_of c)) (highest (key_of c))
      (value_of c) approval s t

-- A setter with an approval returns exactly when the admin that it is given is the stored one and
-- has authorised the call, the approval is by that admin, has not run out and names the category of
-- the parameter, and the value is within the bounds of the parameter. It then stores the value
-- under the key of that parameter, and changes nothing else.
pub setting_exact :
    (e : Env) (admin : Address) (c : Setting) (approval : GovernanceApproval) (s t : Storage)
    → (set e admin c approval s ≡ done tt t) ↔ Set e admin c approval s t
setting_exact e admin c approval s t = (
  (λ h.
      set_between-Between e admin (key_of c) (category_of (key_of c)) (lowest (key_of c))
        (highest (key_of c)) (value_of c) approval s t (sym (set_is e admin c approval s) ∙ h)),
  (λ h.
      set_is e admin c approval s
      ∙ Between-set_between e admin (key_of c) (category_of (key_of c)) (lowest (key_of c))
          (highest (key_of c)) (value_of c) approval s t h),
)
