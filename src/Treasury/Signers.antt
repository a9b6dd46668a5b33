-- ===== src/Treasury/Signers.antt =====
-- The treasury's signers are counted, and the threshold stays within reach
-- (contracts/credence_treasury/src/treasury.rs).
use credence_contracts.Prelude.{ℕ, ◌≤◌, ◌≡◌, refl, sym, subst, Bool, false, Option, ap, arith}
use credence_contracts.Prelude.Counting.{Counts, Counts-same, Counts-pos, Counts-update}
use credence_contracts.Host.{Address, Env, after, unwrap_or}
use credence_contracts.Treasury.State.{Storage, is_signer, get_signer_count, get_threshold}
use credence_contracts.Treasury.Config.{
  add_depositor, remove_depositor, add_signer, remove_signer, set_threshold, set_token,
  set_min_liquidity, set_proposal_ttl,
}
use credence_contracts.Treasury.Funds.{propose_withdrawal, approve_withdrawal}
use credence_contracts.Treasury.Calls.{LocalCall, apply_local}
use credence_contracts.Treasury.Books.{IsOperation}

-- The stored count is the number of signers, and the threshold is at most that.
pub record TreasurySignersAgree (s : Storage) : Type 0 where
  pub counted : Counts (is_signer s) (get_signer_count s)
  pub reachable : get_threshold s ≤ get_signer_count s

abbrev SameSigners : Storage → Storage → Type 0
SameSigners s t =
    (t.signer ≡ s.signer) × (t.signer_count ≡ s.signer_count) × (t.threshold ≡ s.threshold)

SameSigners-agree :
    (s t : Storage) → SameSigners s t → TreasurySignersAgree s → TreasurySignersAgree t
SameSigners-agree s t (p, q, r) v = record {
  counted =
      Counts-same (is_signer s) (is_signer t) (get_signer_count t)
        (λ a. ap (λ (f : ℕ → Option Bool). unwrap_or (f a) false) (sym p))
        (subst (Counts (is_signer s)) (ap (λ (o : Option ℕ). unwrap_or o 0) (sym q)) v.counted);
  reachable = ground (arith, v.reachable);
}

add_signer-counted :
    (e : Env) (a : Address) (s : Storage)
    → Counts (is_signer s) (get_signer_count s)
    → let t = after s (add_signer e a s) in Counts (is_signer t) (get_signer_count t)
unfolding add_signer
add_signer-counted e a s c =
    let t = after s (add_signer e a s) in
    Counts-update (is_signer s) (is_signer t) (get_signer_count s) (get_signer_count t) a
      (λ b. ground arith) (ground arith) c

remove_signer-counted :
    (e : Env) (a : Address) (s : Storage)
    → Counts (is_signer s) (get_signer_count s)
    → let t = after s (remove_signer e a s) in Counts (is_signer t) (get_signer_count t)
unfolding remove_signer
remove_signer-counted e a s c =
    let t = after s (remove_signer e a s) in
    Counts-update (is_signer s) (is_signer t) (get_signer_count s) (get_signer_count t) a
      (λ b. ground arith) (ground (arith, Counts-pos (is_signer s) (get_signer_count s) a c)) c

set_threshold-agree :
    (e : Env) (limit : ℕ) (s : Storage)
    → TreasurySignersAgree s
    → TreasurySignersAgree (after s (set_threshold e limit s))
unfolding set_threshold
set_threshold-agree e limit s v = record {
  counted =
      Counts-same (is_signer s) _ _ (λ a. ground arith)
        (subst (Counts (is_signer s)) (ground arith) v.counted);
  reachable = ground (arith, v.reachable);
}

add_signer-reachable :
    (e : Env) (a : Address) (s : Storage)
    → get_threshold s ≤ get_signer_count s
    → let t = after s (add_signer e a s) in get_threshold t ≤ get_signer_count t
unfolding add_signer
add_signer-reachable e a s h = ground arith

remove_signer-reachable :
    (e : Env) (a : Address) (s : Storage)
    → get_threshold s ≤ get_signer_count s
    → let t = after s (remove_signer e a s) in get_threshold t ≤ get_signer_count t
unfolding remove_signer
remove_signer-reachable e a s h = ground arith

-- The calls that concern neither the signers nor the threshold.
abbrev IsOther : LocalCall → Type 0
IsOther (LocalCall.set_up admin token) = ⊥
IsOther (LocalCall.add a) = ⊥
IsOther (LocalCall.drop a) = ⊥
IsOther (LocalCall.set_limit limit) = ⊥
IsOther c = Unit

other-SameSigners :
    (e : Env) (c : LocalCall) (s : Storage) → IsOther c → SameSigners s (apply_local e c s)
unfolding apply_local add_depositor remove_depositor set_token set_min_liquidity set_proposal_ttl
    propose_withdrawal approve_withdrawal
other-SameSigners e (LocalCall.allow a) s o = ground arith
other-SameSigners e (LocalCall.disallow a) s o = ground arith
other-SameSigners e (LocalCall.replace_token admin token) s o = ground arith
other-SameSigners e (LocalCall.set_floor admin floor) s o = ground arith
other-SameSigners e (LocalCall.set_ttl admin ttl) s o = ground arith
other-SameSigners e (LocalCall.propose proposer recipient amount) s o = ground arith
other-SameSigners e (LocalCall.approve approver id) s o = ground arith
other-SameSigners e (LocalCall.pausing c) s o = (refl, refl, refl)
other-SameSigners e (LocalCall.set_up admin token) s o = absurd o
other-SameSigners e (LocalCall.add a) s o = absurd o
other-SameSigners e (LocalCall.drop a) s o = absurd o
other-SameSigners e (LocalCall.set_limit limit) s o = absurd o

-- Any call but `initialize` keeps the count equal to the number of signers and the threshold within
-- it.
pub apply_local-TreasurySignersAgree :
    (e : Env) (c : LocalCall) (s : Storage)
    → IsOperation c
    → TreasurySignersAgree s
    → TreasurySignersAgree (apply_local e c s)
unfolding apply_local
apply_local-TreasurySignersAgree e (LocalCall.add a) s o v = record {
  counted = add_signer-counted e a s v.counted;
  reachable = add_signer-reachable e a s v.reachable;
}
apply_local-TreasurySignersAgree e (LocalCall.drop a) s o v = record {
  counted = remove_signer-counted e a s v.counted;
  reachable = remove_signer-reachable e a s v.reachable;
}
apply_local-TreasurySignersAgree e (LocalCall.set_limit limit) s o v =
    set_threshold-agree e limit s v
apply_local-TreasurySignersAgree e (LocalCall.set_up admin token) s o v = absurd o
apply_local-TreasurySignersAgree e c s o v =
    SameSigners-agree s (apply_local e c s) (other-SameSigners e c s tt) v
