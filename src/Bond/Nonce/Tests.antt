-- ===== src/Bond/Nonce/Tests.antt =====
-- Signed actions on concrete storages (contracts/credence_bond/src/nonce.rs).
use credence_contracts.Prelude.{◌≡◌, refl, true, false, none, some, [], ◌∷◌, inl}
use credence_contracts.Host.{Env, put, done, succeeds}
use credence_contracts.Bond.Nonce.{
  Storage, consume_nonce, require_not_expired, require_domain_match, validate_and_consume,
  validate_and_consume_with_grace, allow, validate, run,
}
use credence_contracts.Bond.Nonce.Replay.{signed_once}

abbrev host : Env
host = record { timestamp = 105; sequence = 1; current_contract = 9; authorized = λ a. true }

-- Address 2 is at nonce 7; the window lets the deadline 100 pass at 105.
abbrev before : Storage
before = record { nonce = put 2 (some 7) (λ a. none); grace_window = some 10 }

abbrev accepted : Storage
accepted = record before { nonce = put 2 (some 8) before.nonce }

accepts : validate_and_consume host 2 9 100 7 before ≡ done tt accepted
unfolding validate_and_consume require_not_expired require_domain_match consume_nonce
accepts = refl

other_contract : succeeds (validate_and_consume host 2 8 100 7 before) ≡ false
unfolding validate_and_consume require_not_expired require_domain_match consume_nonce
other_contract = refl

signed_once_example :
    (succeeds (
        validate_and_consume host 2 9 200 7
          (run ((host, allow 0) ∷ (host, validate 2 9 200 8) ∷ []) accepted))
      ≡ false)
    × (succeeds (
          validate_and_consume_with_grace host 2 9 200 7 50
            (run ((host, allow 0) ∷ (host, validate 2 9 200 8) ∷ []) accepted))
        ≡ false)
signed_once_example =
    signed_once host host 2 9 9 100 200 7 0 50 before accepted
      ((host, allow 0) ∷ (host, validate 2 9 200 8) ∷ []) (inl accepts)
