-- ===== src/Pausable/Signers.antt =====
-- The pause signers are counted, and the threshold stays within reach
-- (contracts/credence_multisig/src/pausable.rs).
use credence_contracts.Prelude.{ℕ, ◌≤◌, ◌<◌, ◌≡◌, sym, subst, Bool, false, Option, ap, arith}
use credence_contracts.Prelude.Counting.{Counts, Counts-same, Counts-pos, Counts-update}
use credence_contracts.Host.{Address, Env, u32_max, after, unwrap_or}
use credence_contracts.Pausable.{
  PauseAction, PauseStorage, propose_action, is_pause_signer, signer_count, threshold,
  set_pause_signer, set_pause_threshold, pause, unpause, approve_pause_proposal,
  execute_pause_proposal,
}
use credence_contracts.Pausable.Calls.{Call, apply}

-- The stored count is the number of enabled signers, and the threshold is at most that.
pub record PauseSignersAgree (s : PauseStorage) : Type 0 where
  pub counted : Counts (is_pause_signer s) (signer_count s)
  pub reachable : threshold s ≤ signer_count s

set_pause_signer-counted :
    (e : Env) (admin signer : Address) (enabled : Bool) (s : PauseStorage)
    → signer_count s < u32_max
    → Counts (is_pause_signer s) (signer_count s)
    → let t = after s (set_pause_signer e admin signer enabled s) in
      Counts (is_pause_signer t) (signer_count t)
unfolding set_pause_signer
set_pause_signer-counted e admin signer enabled s room c =
    let t = after s (set_pause_signer e admin signer enabled s) in
    Counts-update (is_pause_signer s) (is_pause_signer t) (signer_count s) (signer_count t) signer
      (λ b. ground arith) (ground (arith, Counts-pos (is_pause_signer s) (signer_count s) signer c))
      c

-- A call that leaves these three fields alone keeps the agreement.
abbrev SameSigners : PauseStorage → PauseStorage → Type 0
SameSigners s t =
    (t.pause_signer ≡ s.pause_signer)
    × (t.pause_signer_count ≡ s.pause_signer_count)
    × (t.pause_threshold ≡ s.pause_threshold)

SameSigners-agree :
    (s t : PauseStorage) → SameSigners s t → PauseSignersAgree s → PauseSignersAgree t
SameSigners-agree s t (p, q, r) v = record {
  counted =
      Counts-same (is_pause_signer s) (is_pause_signer t) (signer_count t)
        (λ a. ap (λ (f : ℕ → Option Bool). unwrap_or (f a) false) (sym p))
        (subst (Counts (is_pause_signer s)) (ap (λ (o : Option ℕ). unwrap_or o 0) (sym q))
          v.counted);
  reachable = ground (arith, v.reachable);
}

propose-SameSigners :
    (e : Env) (caller : Address) (a : PauseAction) (s : PauseStorage)
    → SameSigners s (after s (propose_action e caller a s))
unfolding propose_action
propose-SameSigners e caller a s = ground arith

pause-SameSigners :
    (e : Env) (caller : Address) (s : PauseStorage) → SameSigners s (after s (pause e caller s))
unfolding pause
pause-SameSigners e caller s = ground arith

unpause-SameSigners :
    (e : Env) (caller : Address) (s : PauseStorage) → SameSigners s (after s (unpause e caller s))
unfolding unpause
unpause-SameSigners e caller s = ground arith

approve-SameSigners :
    (e : Env) (signer : Address) (id : ℕ) (s : PauseStorage)
    → SameSigners s (after s (approve_pause_proposal e signer id s))
unfolding approve_pause_proposal
approve-SameSigners e signer id s = ground arith

execute-SameSigners :
    (id : ℕ) (s : PauseStorage) → SameSigners s (after s (execute_pause_proposal id s))
unfolding execute_pause_proposal
execute-SameSigners id s = ground arith

set_pause_threshold-agree :
    (e : Env) (admin : Address) (limit : ℕ) (s : PauseStorage)
    → PauseSignersAgree s
    → PauseSignersAgree (after s (set_pause_threshold e admin limit s))
unfolding set_pause_threshold
set_pause_threshold-agree e admin limit s v = record {
  counted =
      Counts-same (is_pause_signer s) _ _ (λ a. ground arith)
        (subst (Counts (is_pause_signer s)) (ground arith) v.counted);
  reachable = ground (arith, v.reachable);
}

set_pause_signer-reachable :
    (e : Env) (admin signer : Address) (enabled : Bool) (s : PauseStorage)
    → signer_count s < u32_max
    → threshold s ≤ signer_count s
    → let t = after s (set_pause_signer e admin signer enabled s) in threshold t ≤ signer_count t
unfolding set_pause_signer
set_pause_signer-reachable e admin signer enabled s room h = ground arith

-- Every call keeps the count equal to the number of enabled signers and the threshold within it, as
-- long as the count is below the largest u32.
pub apply-PauseSignersAgree :
    (e : Env) (c : Call) (s : PauseStorage)
    → signer_count s < u32_max
    → PauseSignersAgree s
    → PauseSignersAgree (apply e c s)
unfolding apply
apply-PauseSignersAgree e (Call.set_signer admin signer enabled) s room v = record {
  counted = set_pause_signer-counted e admin signer enabled s room v.counted;
  reachable = set_pause_signer-reachable e admin signer enabled s room v.reachable;
}
apply-PauseSignersAgree e (Call.set_limit admin limit) s room v =
    set_pause_threshold-agree e admin limit s v
apply-PauseSignersAgree e (Call.request_pause caller) s room v =
    SameSigners-agree s _ (pause-SameSigners e caller s) v
apply-PauseSignersAgree e (Call.request_unpause caller) s room v =
    SameSigners-agree s _ (unpause-SameSigners e caller s) v
apply-PauseSignersAgree e (Call.approve signer id) s room v =
    SameSigners-agree s _ (approve-SameSigners e signer id s) v
apply-PauseSignersAgree e (Call.execute id) s room v =
    SameSigners-agree s _ (execute-SameSigners id s) v
