-- ===== src/Admin/Owner.antt =====
-- How the contract changes its owner (contracts/admin/src/lib.rs).
use credence_contracts.Prelude.{
  ℕ, ◌≡◌, refl, sym, ◌∙◌, ◌⊎◌, inl, inr, true, none, some, ==_iff, arith, Option-cases,
}
use credence_contracts.Host.{Outcome, Address, Env, Action, done, panics, after, Outcome-cases}
use credence_contracts.Pausable
use credence_contracts.Pausable.{PauseStorage}
use credence_contracts.Admin.{super_admin, Storage, on_pause}
use credence_contracts.Admin.Roles.{
  initialize, add_admin, remove_admin, update_admin_role, deactivate_admin, reactivate_admin,
  suspend_admin,
}
use credence_contracts.Admin.Ownership.{transfer_ownership, accept_ownership}
use credence_contracts.Admin.Pausing.{set_pause_signer, set_pause_threshold, pause, unpause}
use credence_contracts.Admin.Calls.{Call, apply}
use credence_contracts.Admin.Agreement.{role_is}

-- An owner after a call: the owner before, the address that sets up the contract, or the pending
-- owner, who accepts.
abbrev pub OwnerStep : Env → Call → Storage → Address → Type 0
OwnerStep e c s a =
    (s.owner ≡ some a)
    ⊎ ((low high : ℕ) × (c ≡ Call.set_up a low high)
        × (s.initialized ≡ none)
        × (e.authorized a ≡ true))
    ⊎ ((c ≡ Call.accept a) × (s.pending_owner ≡ some a) × (e.authorized a ≡ true))

-- A pending owner after a call: pending before, or a super admin to whom the owner offers the
-- ownership.
abbrev pub PendingStep : Env → Call → Storage → Address → Type 0
PendingStep e c s a =
    (s.pending_owner ≡ some a)
    ⊎ ((o : Address) × (c ≡ Call.offer o a)
        × (s.owner ≡ some o)
        × (e.authorized o ≡ true)
        × (role_is super_admin (s.admin_info a) ≡ true))

abbrev Steps : Env → Call → Storage → Storage → Type 0
Steps e c s t =
    ((a : Address) → t.owner ≡ some a → OwnerStep e c s a)
    × ((a : Address) → t.pending_owner ≡ some a → PendingStep e c s a)

kept-Steps :
    (e : Env) (c : Call) (s t : Storage)
    → (t.owner ≡ s.owner) × (t.pending_owner ≡ s.pending_owner)
    → Steps e c s t
kept-Steps e c s t (o, p) = ((λ a h. inl (sym o ∙ h)), (λ a h. inl (sym p ∙ h)))

lifted :
    {A : Type 0} (e : Env) (c : Call) (s : Storage) (o : Outcome PauseStorage A)
    → Steps e c s (
        after {A = A} s
          (elim o [ done a p ↦ done a (record s { pause = p }) | panics x ↦ panics x ]))
lifted e c s (panics x) = kept-Steps e c s s (refl, refl)
lifted e c s (done a p) = kept-Steps e c s (record s { pause = p }) (refl, refl)

on_pause-Steps :
    {A : Type 0} (e : Env) (c : Call) (m : Action PauseStorage A) (s : Storage)
    → Steps e c s (after s (on_pause m s))
on_pause-Steps e c m s = lifted e c s (m s.pause)

set_up :
    (e : Env) (first a : Address) (low high : ℕ) (s : Storage)
    → (after s (initialize e first low high s)).owner ≡ some a
    → OwnerStep e (Call.set_up first low high) s a
unfolding initialize
set_up e first a low high s h = elim (Outcome-cases (initialize e first low high s)) [
  | inl (x, failed) ↦ inl (ground arith)
  | inr (x, t, ok) ↦ inr (inl (low, high, ground arith, ground arith, ground arith))
]

offered :
    (e : Env) (caller b a : Address) (s : Storage)
    → (after s (transfer_ownership e caller b s)).pending_owner ≡ some a
    → PendingStep e (Call.offer caller b) s a
unfolding transfer_ownership
offered e caller b a s h = elim (Outcome-cases (transfer_ownership e caller b s)) [
  | inl (x, failed) ↦ inl (ground arith)
  | inr (x, t, ok) ↦ elim (Option-cases s.owner) [
    | inl unowned ↦ absurd (ground arith)
    | inr (o, owned) ↦ inr (
      o,
      ground (arith, owned, ==_iff caller o),
      owned,
      ground (arith, ==_iff caller o),
      ground arith,
    )
  ]
]

accepted :
    (e : Env) (caller a : Address) (s : Storage)
    → (after s (accept_ownership e caller s)).owner ≡ some a
    → OwnerStep e (Call.accept caller) s a
unfolding accept_ownership
accepted e caller a s h = elim (Outcome-cases (accept_ownership e caller s)) [
  | inl (x, failed) ↦ inl (ground arith)
  | inr (x, t, ok) ↦ inr (
      inr (
        ground (arith, ==_iff caller a),
        ground (arith, ==_iff caller a),
        ground (arith, ==_iff caller a),
      ))
]

-- Ownership moves in two steps. The owner after a call was the owner before; or the call is the
-- setup by that address, which was not done before; or that address was pending, and the call is its
-- acceptance. The address authorised the call in both cases. A pending owner after a call was
-- pending before; or it is a super admin, and the call is the offer to it by the owner, who
-- authorised it.
pub owner_moves_in_two_steps :
    (e : Env) (c : Call) (s : Storage)
    → ((a : Address) → (apply e c s).owner ≡ some a → OwnerStep e c s a)
      × ((a : Address) → (apply e c s).pending_owner ≡ some a → PendingStep e c s a)
unfolding apply initialize add_admin remove_admin update_admin_role deactivate_admin
    reactivate_admin suspend_admin transfer_ownership accept_ownership set_pause_signer
    set_pause_threshold pause unpause Pausable.propose_action
owner_moves_in_two_steps e (Call.set_up first low high) s =
    (λ a h. set_up e first a low high s h, λ a h. inl (ground arith))
owner_moves_in_two_steps e (Call.add caller b role) s =
    kept-Steps e (Call.add caller b role) s (after s (add_admin e caller b role s)) (ground arith)
owner_moves_in_two_steps e (Call.take_out caller b) s =
    kept-Steps e (Call.take_out caller b) s (after s (remove_admin e caller b s)) (ground arith)
owner_moves_in_two_steps e (Call.change_role caller b role) s =
    kept-Steps e (Call.change_role caller b role) s (after s (update_admin_role e caller b role s))
      (ground arith)
owner_moves_in_two_steps e (Call.switch_off caller b) s =
    kept-Steps e (Call.switch_off caller b) s (after s (deactivate_admin e caller b s))
      (ground arith)
owner_moves_in_two_steps e (Call.switch_on caller b) s =
    kept-Steps e (Call.switch_on caller b) s (after s (reactivate_admin e caller b s))
      (ground arith)
owner_moves_in_two_steps e (Call.suspend caller b until_ts) s =
    kept-Steps e (Call.suspend caller b until_ts) s (after s (suspend_admin e caller b until_ts s))
      (ground arith)
owner_moves_in_two_steps e (Call.offer caller b) s =
    ((λ a h. inl (ground arith)), λ a h. offered e caller b a s h)
owner_moves_in_two_steps e (Call.accept caller) s =
    ((λ a h. accepted e caller a s h), λ a h. inl (ground arith))
owner_moves_in_two_steps e (Call.set_signer b signer enabled) s =
    kept-Steps e (Call.set_signer b signer enabled) s
      (after s (set_pause_signer e b signer enabled s)) (ground arith)
owner_moves_in_two_steps e (Call.set_limit b limit) s =
    kept-Steps e (Call.set_limit b limit) s (after s (set_pause_threshold e b limit s))
      (ground arith)
owner_moves_in_two_steps e (Call.request_pause caller) s =
    kept-Steps e (Call.request_pause caller) s (after s (pause e caller s)) (ground arith)
owner_moves_in_two_steps e (Call.request_unpause caller) s =
    kept-Steps e (Call.request_unpause caller) s (after s (unpause e caller s)) (ground arith)
owner_moves_in_two_steps e (Call.approve signer id) s =
    on_pause-Steps e (Call.approve signer id) (Pausable.approve_pause_proposal e signer id) s
owner_moves_in_two_steps e (Call.execute id) s =
    on_pause-Steps e (Call.execute id) (Pausable.execute_pause_proposal id) s
