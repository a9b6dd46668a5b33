-- ===== src/Multisig/Signers.antt =====
-- The signer set of the multi-signature contract (contracts/credence_multisig/src/multisig.rs).
use credence_contracts.Prelude.{
  ℕ, ◌+◌, ◌≤◌, ◌<◌, ◌≡◌, refl, ◌∙◌, Bool, true, false, some, List, [], ◌∷◌, ◌++◌, ◌||◌, length,
  elem, Distinct, arith, Bool-cases, inl, inr, ◌==◌, if◌then◌else◌, length-append, elem-append,
}
use credence_contracts.Host.{Address, Env, u32_max, Entries, put, after, done, unwrap_or}
use credence_contracts.Multisig.State.{
  Storage, is_signer, get_signers, get_signer_count, get_threshold,
}
use credence_contracts.Multisig.Admin.{
  without, mark_signers, initialize, add_signer, remove_signer, set_threshold,
}
use credence_contracts.Multisig.Proposals.{
  Request, submit_proposal, sign_proposal, count_active_signatures, execute_proposal,
  reject_proposal,
}
use credence_contracts.Multisig.Prune.{effective_max, prune_one, prune_expired_proposals}
use credence_contracts.Multisig.Calls.{Call, apply}
use credence_contracts.Multisig.Counting.{count_from_outcome}
use credence_contracts.Multisig.Pruning.{prune_from_keeps}

-- The list of signers has no repetition and holds those that are flagged, the count is its length,
-- and the threshold can be met and is not zero.
pub record SignersAgree (s : Storage) : Type 0 where
  pub distinct : Distinct (get_signers s)
  pub listed : (a : Address) → elem a (get_signers s) ≡ is_signer s a
  pub counted : get_signer_count s ≡ length (get_signers s)
  pub reachable : get_threshold s ≤ get_signer_count s
  pub positive : 0 < get_threshold s
  pub bounded : get_signer_count s ≤ u32_max

elem-without :
    (a b : Address) (l : List Address) → elem b (without a l) ≡ (if b == a then false else elem b l)
elem-without a b [] = ground arith
elem-without a b (x ∷ xs) = ground (arith, elem-without a b xs)

without-Distinct : (a : Address) (l : List Address) → Distinct l → Distinct (without a l)
without-Distinct a [] d = tt
without-Distinct a (x ∷ xs) d = ground (arith, without-Distinct a xs d.1, elem-without a x xs)

without_absent : (a : Address) (l : List Address) → elem a l ≡ false → without a l ≡ l
without_absent a [] h = refl
without_absent a (x ∷ xs) h = ground (arith, without_absent a xs)

length-without :
    (a : Address) (l : List Address)
    → Distinct l
    → elem a l ≡ true
    → length (without a l) + 1 ≡ length l
length-without a [] d h = cc
length-without a (x ∷ xs) d h = elim (Bool-cases (x == a)) [
  | inl same ↦ ground (arith, without_absent a xs)
  | inr other ↦ ground (arith, length-without a xs d.1)
]

snoc-Distinct :
    (a : Address) (l : List Address) → Distinct l → elem a l ≡ false → Distinct (l ++ a ∷ [])
snoc-Distinct a [] d h = (refl, tt)
snoc-Distinct a (x ∷ xs) d h = ground (arith, snoc-Distinct a xs d.1, elem-append x xs (a ∷ []))

add-agree :
    (e : Env) (admin signer : Address) (s : Storage)
    → SignersAgree s
    → SignersAgree (after s (add_signer e admin signer s))
unfolding add_signer
add-agree e admin signer s v = record {
  distinct = ground (arith, v.distinct, v.listed signer, snoc-Distinct signer (get_signers s));
  listed = λ a. ground (arith, v.listed a, elem-append a (get_signers s) (signer ∷ []));
  counted = ground (arith, v.counted, length-append (get_signers s) (signer ∷ []));
  reachable = ground (arith, v.reachable);
  positive = ground (arith, v.positive);
  bounded = ground (arith, v.bounded);
}

remove-agree :
    (e : Env) (admin signer : Address) (s : Storage)
    → SignersAgree s
    → SignersAgree (after s (remove_signer e admin signer s))
unfolding remove_signer
remove-agree e admin signer s v = record {
  distinct = ground (arith, v.distinct, without-Distinct signer (get_signers s));
  listed = λ a. ground (arith, v.listed a, elem-without signer a (get_signers s));
  counted = ground (
    arith,
    v.counted,
    v.positive,
    v.reachable,
    v.listed signer,
    length-without signer (get_signers s),
  );
  reachable = ground (arith, v.reachable);
  positive = ground (arith, v.positive, v.reachable);
  bounded = ground (arith, v.bounded);
}

-- A call that leaves the signers, their count and the threshold alone.
abbrev pub SameSigners : Storage → Storage → Type 0
SameSigners s t =
    (t.signer ≡ s.signer)
    × (t.signer_list ≡ s.signer_list)
    × (t.signer_count ≡ s.signer_count)
    × (t.threshold ≡ s.threshold)

pub SameSigners-agree : (s t : Storage) → SameSigners s t → SignersAgree s → SignersAgree t
SameSigners-agree s t (p, q, r, w) v = record {
  distinct = rw q v.distinct;
  listed = λ a. rw (p, q) (v.listed a);
  counted = rw (q, r) v.counted;
  reachable = rw (r, w) v.reachable;
  positive = rw w v.positive;
  bounded = rw r v.bounded;
}

set_threshold-agree :
    (e : Env) (admin : Address) (limit : ℕ) (s : Storage)
    → SignersAgree s
    → SignersAgree (after s (set_threshold e admin limit s))
unfolding set_threshold
set_threshold-agree e admin limit s v = record {
  distinct = ground (arith, v.distinct);
  listed = λ a. ground (arith, v.listed a);
  counted = ground (arith, v.counted);
  reachable = ground (arith, v.reachable);
  positive = ground (arith, v.positive);
  bounded = ground (arith, v.bounded);
}

submit-SameSigners :
    (e : Env) (proposer : Address) (r : Request) (s : Storage)
    → SameSigners s (after s (submit_proposal e proposer r s))
unfolding submit_proposal
submit-SameSigners e proposer r s = ground arith

sign-SameSigners :
    (e : Env) (signer : Address) (id : ℕ) (s : Storage)
    → SameSigners s (after s (sign_proposal e signer id s))
unfolding sign_proposal
sign-SameSigners e signer id s = ground arith

reject-SameSigners :
    (e : Env) (admin : Address) (id : ℕ) (s : Storage)
    → SameSigners s (after s (reject_proposal e admin id s))
unfolding reject_proposal
reject-SameSigners e admin id s = ground arith

execute-SameSigners :
    (e : Env) (id : ℕ) (s : Storage) → SameSigners s (after s (execute_proposal e id s))
unfolding execute_proposal count_active_signatures
execute-SameSigners e id s = ground (arith, count_from_outcome id 0 (get_signers s) s)

prune_one-SameSigners :
    (e : Env) (id : ℕ) (signers : List Address) (acc : Storage × ℕ)
    → SameSigners acc.0 (prune_one e id signers acc).0
unfolding prune_one
prune_one-SameSigners e id signers acc = ground arith

SameSigners-trans : (s t u : Storage) → SameSigners s t → SameSigners t u → SameSigners s u
SameSigners-trans s t u h k = (k.0 ∙ h.0, k.1 ∙ h.1, k.2 ∙ h.2, k.3 ∙ h.3)

prune-SameSigners :
    (e : Env) (start_id max_iter : ℕ) (s : Storage)
    → SameSigners s (after s (prune_expired_proposals e start_id max_iter s))
unfolding prune_expired_proposals
prune-SameSigners e start_id max_iter s = ground (
  arith,
  prune_from_keeps (SameSigners s) e (get_signers s)
      (λ id acc h.
        SameSigners-trans s acc.0 (prune_one e id (get_signers s) acc).0 h
          (prune_one-SameSigners e id (get_signers s) acc))
      (effective_max max_iter) start_id (s, 0) (refl, refl, refl, refl),
)

-- Any call but `initialize`.
abbrev pub IsOperation : Call → Type 0
IsOperation (Call.set_up admin signers limit) = ⊥
IsOperation c = Unit

-- After setup, every call keeps the list of signers free of repetition and equal to the flags, the
-- count equal to its length, and the threshold between one and that count.
pub apply-SignersAgree :
    (e : Env) (c : Call) (s : Storage) → IsOperation c → SignersAgree s → SignersAgree (apply e c s)
unfolding apply
apply-SignersAgree e (Call.set_up admin signers limit) s o v = absurd o
apply-SignersAgree e (Call.add admin signer) s o v = add-agree e admin signer s v
apply-SignersAgree e (Call.drop admin signer) s o v = remove-agree e admin signer s v
apply-SignersAgree e (Call.set_limit admin limit) s o v = set_threshold-agree e admin limit s v
apply-SignersAgree e (Call.submit proposer r) s o v =
    SameSigners-agree s _ (submit-SameSigners e proposer r s) v
apply-SignersAgree e (Call.sign signer id) s o v =
    SameSigners-agree s _ (sign-SameSigners e signer id s) v
apply-SignersAgree e (Call.execute id) s o v = SameSigners-agree s _ (execute-SameSigners e id s) v
apply-SignersAgree e (Call.reject admin id) s o v =
    SameSigners-agree s _ (reject-SameSigners e admin id s) v
apply-SignersAgree e (Call.prune start_id max_iter) s o v =
    SameSigners-agree s _ (prune-SameSigners e start_id max_iter s) v
apply-SignersAgree e (Call.pausing c) s o v = SameSigners-agree s _ (refl, refl, refl, refl) v

is_marked :
    (l : List Address) (m : Entries Bool) (a : Address)
    → unwrap_or (mark_signers l m a) false ≡ (elem a l || unwrap_or (m a) false)
is_marked [] m a = refl
is_marked (x ∷ xs) m a = ground (arith, is_marked xs (put x (some true) m) a)

-- In a contract where no address is flagged as a signer yet, an `initialize` that returns, given a
-- list of signers without repetition, sets up signers in order: the list equals the flags, the
-- count is its length, and the threshold lies between one and that count.
pub initialize-SignersAgree :
    (e : Env) (admin : Address) (signers : List Address) (limit : ℕ) (s t : Storage)
    → Distinct signers
    → length signers ≤ u32_max
    → ((a : Address) → is_signer s a ≡ false)
    → initialize e admin signers limit s ≡ done tt t
    → SignersAgree t
unfolding initialize
initialize-SignersAgree e admin signers limit s t d b none_yet h = record {
  distinct = ground (arith, d);
  listed = λ a. ground (arith, is_marked signers s.signer a, none_yet a);
  counted = ground arith;
  reachable = ground arith;
  positive = ground arith;
  bounded = ground arith;
}
