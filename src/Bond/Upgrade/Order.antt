-- ===== src/Bond/Upgrade/Order.antt =====
-- Proposals of upgrades stay in order (contracts/credence_bond/src/upgrade_auth.rs).
use credence_contracts.Prelude.{
  ℕ, ◌+◌, ◌≤◌, ◌<◌, ◌≡◌, refl, sym, ap, subst, ◌∙◌, inl, inr, true, false, Option, none, some, [],
  ◌∷◌, length, length-append, elem, Distinct, append-Distinct, ltb, ◌==◌, arith, Bool-cases,
}
use credence_contracts.Host.{Outcome, Address, Env, Entries, put, done, panics, after, unwrap_or}
use credence_contracts.Bond.Upgrade.{
  UpgradeRole, UpgradeAuthorization, UpgradeProposal, executed, status_code, Storage, add_approval,
  initialize_upgrade_auth, grant_upgrade_auth, revoke_upgrade_auth, propose_upgrade,
  approve_upgrade_proposal, execute_upgrade, transfer_upgrade_admin, accept_upgrade_admin,
}
use credence_contracts.Bond.Upgrade.Calls.{Call, apply}
use credence_contracts.Bond.Upgrade.Execution.{
  Executed, execute_upgrade-Executed, Approval, approve_upgrade_proposal-Approval, Proposed,
  propose_upgrade-Proposed,
}

-- The approvals of a proposal are those of distinct addresses; one that is no longer pending has at
-- least one, and as many as it requires.
abbrev pub IsBacked : UpgradeProposal → Type 0
IsBacked p =
    Distinct p.approvals
    × (ltb 0 (status_code p.status) ≡ true
        → (p.required_approvals ≤ length p.approvals) × (0 < length p.approvals))

abbrev pub EachBacked : Option UpgradeProposal → Type 0
EachBacked none = Unit
EachBacked (some p) = IsBacked p

-- No id from the counter on has a proposal; every proposal is backed; and before the setup there are
-- neither authorisations nor proposals.
pub record ProposalsInOrder (s : Storage) : Type 0 where
  pub fresh : (id : ℕ) → unwrap_or s.next_proposal_id 1 ≤ id → s.proposal id ≡ none
  pub backed : (id : ℕ) → EachBacked (s.proposal id)
  pub no_auths : s.upgrade_admin ≡ none → (a : Address) → s.auth a ≡ none
  pub no_proposals : s.upgrade_admin ≡ none → (id : ℕ) → s.proposal id ≡ none

pub put-EachBacked :
    (m : Entries UpgradeProposal) (i : ℕ) (p : UpgradeProposal) (id : ℕ)
    → IsBacked p
    → EachBacked (m id)
    → EachBacked (put i (some p) m id)
put-EachBacked m i p id b v = elim (Bool-cases (id == i)) [
  | inl here ↦ rw here b
  | inr elsewhere ↦ rw elsewhere v
]

add_approval-IsBacked :
    (a : Address) (p : UpgradeProposal)
    → elem a p.approvals ≡ false
    → IsBacked p
    → status_code p.status ≡ 0
    → IsBacked (add_approval a p)
add_approval-IsBacked a p h (d, b) k =
    (append-Distinct a p.approvals d h, λ m. ground (arith, length-append {0} p.approvals (a ∷ [])))

-- What a call changes of the proposals: nothing.
pub record SameProposals (s t : Storage) : Type 0 where
  pub proposals : t.proposal ≡ s.proposal
  pub next : t.next_proposal_id ≡ s.next_proposal_id
  pub setup : t.upgrade_admin ≡ none → (s.upgrade_admin ≡ none) × (t.auth ≡ s.auth)

SameProposals-ProposalsInOrder :
    (s t : Storage) → SameProposals s t → ProposalsInOrder s → ProposalsInOrder t
SameProposals-ProposalsInOrder s t k v = record {
  fresh = λ id h.
      ap (λ (f : ℕ → Option UpgradeProposal). f id) k.proposals
      ∙ v.fresh id (subst (λ (n : Option ℕ). unwrap_or n 1 ≤ id) k.next h);
  backed = λ id.
      subst (λ (f : ℕ → Option UpgradeProposal). EachBacked (f id)) (sym k.proposals) (v.backed id);
  no_auths = λ h a.
      ap (λ (f : ℕ → Option UpgradeAuthorization). f a) (k.setup h).1 ∙ v.no_auths (k.setup h).0 a;
  no_proposals = λ h id.
      ap (λ (f : ℕ → Option UpgradeProposal). f id) k.proposals ∙ v.no_proposals (k.setup h).0 id;
}

pub grant-SameProposals :
    (e : Env) (admin a : Address) (r : UpgradeRole) (until : ℕ) (s : Storage)
    → SameProposals s (after s (grant_upgrade_auth e admin a r until s))
unfolding grant_upgrade_auth
grant-SameProposals e admin a r until s = record {
  proposals = ground arith;
  next = ground arith;
  setup = λ m. ground arith;
}

pub revoke-SameProposals :
    (e : Env) (admin a : Address) (s : Storage)
    → SameProposals s (after s (revoke_upgrade_auth e admin a s))
unfolding revoke_upgrade_auth
revoke-SameProposals e admin a s = record {
  proposals = ground arith;
  next = ground arith;
  setup = λ m. ground arith;
}

pub transfer-SameProposals :
    (e : Env) (admin a : Address) (s : Storage)
    → SameProposals s (after s (transfer_upgrade_admin e admin a s))
unfolding transfer_upgrade_admin
transfer-SameProposals e admin a s = record {
  proposals = ground arith;
  next = ground arith;
  setup = λ m. ground arith;
}

pub accept-SameProposals :
    (e : Env) (caller : Address) (s : Storage)
    → SameProposals s (after s (accept_upgrade_admin e caller s))
unfolding accept_upgrade_admin
accept-SameProposals e caller s = record {
  proposals = ground arith;
  next = ground arith;
  setup = λ m. ground arith;
}

set_up-ProposalsInOrder :
    (e : Env) (admin : Address) (s t : Storage)
    → ProposalsInOrder s
    → initialize_upgrade_auth e admin s ≡ done tt t
    → ProposalsInOrder t
unfolding initialize_upgrade_auth
set_up-ProposalsInOrder e admin s t v h =
    let unset : s.upgrade_admin ≡ none = ground arith in
    record {
      fresh = λ id k. ground (arith, v.no_proposals unset id);
      backed = λ id. subst EachBacked (ground arith) (v.backed id);
      no_auths = λ m a. absurd (ground arith);
      no_proposals = λ m id. absurd (ground arith);
    }

after-ProposalsInOrder :
    {A : Type 0} (s : Storage) (o : Outcome Storage A)
    → ProposalsInOrder s
    → ((x : A) (t : Storage) → o ≡ done x t → ProposalsInOrder t)
    → ProposalsInOrder (after s o)
after-ProposalsInOrder s (panics x) v f = v
after-ProposalsInOrder s (done a t) v f = f a t refl

Proposed-ProposalsInOrder :
    (e : Env) (a : Address) (id : ℕ) (s t : Storage)
    → Proposed e a id s t
    → ProposalsInOrder s
    → ProposalsInOrder t
Proposed-ProposalsInOrder e a id s t w v = record {
  fresh = λ j k.
      let count : unwrap_or t.next_proposal_id 1 ≡ id + 1 =
        ap (λ (n : Option ℕ). unwrap_or n 1) w.counter in
      let later : id < j = omega (arith, count, k) in
      ap (λ (f : ℕ → Option UpgradeProposal). f j) w.stored
      ∙ ground (arith, later, v.fresh j (omega (arith, later, w.next)));
  backed = λ j.
      subst (λ (f : ℕ → Option UpgradeProposal). EachBacked (f j)) (sym w.stored)
        (put-EachBacked s.proposal id w.p j
          (subst Distinct (sym w.unapproved) tt, λ m. absurd (ground (arith, w.pending)))
          (v.backed j));
  no_auths = λ m b.
      ap (λ (f : ℕ → Option UpgradeAuthorization). f b) w.auths ∙ v.no_auths (sym w.admin ∙ m) b;
  no_proposals = λ m j. absurd (ground (arith, w.known, v.no_auths (sym w.admin ∙ m) a));
}

approved-ProposalsInOrder :
    (e : Env) (a : Address) (id : ℕ) (s t : Storage)
    → Approval e a id s t
    → ProposalsInOrder s
    → ProposalsInOrder t
approved-ProposalsInOrder e a id s t w v =
    let was = subst EachBacked w.found (v.backed id) in
    subst ProposalsInOrder (sym w.stored) (record {
      fresh = λ j k. ground (arith, v.fresh j k, w.found);
      backed = λ j.
          put-EachBacked s.proposal id (add_approval a w.p) j
            (add_approval-IsBacked a w.p w.first_time was w.was_pending) (v.backed j);
      no_auths = v.no_auths;
      no_proposals = λ m j. absurd (ground (arith, w.found, v.no_proposals m id));
    })

used-ProposalsInOrder :
    (e : Env) (a new_implementation : Address) (id : Option ℕ) (s t : Storage)
    → Executed e a new_implementation id s t
    → ProposalsInOrder s
    → ProposalsInOrder t
used-ProposalsInOrder e a new_implementation none s t w v =
    SameProposals-ProposalsInOrder s t
      (record { proposals = w.used; next = w.counter; setup = λ m. (sym w.admin ∙ m, w.auths) }) v
used-ProposalsInOrder e a new_implementation (some id) s t w v =
    let (p, found, was_approved, same, stored) = w.used in
    let (distinct, enough) = subst EachBacked found (v.backed id) in
    record {
      fresh = λ j k.
          ap (λ (f : ℕ → Option UpgradeProposal). f j) stored
          ∙ ground
              (arith, found, v.fresh j (subst (λ (n : Option ℕ). unwrap_or n 1 ≤ j) w.counter k));
      backed = λ j.
          subst (λ (f : ℕ → Option UpgradeProposal). EachBacked (f j)) (sym stored)
            (put-EachBacked s.proposal id (record p { status = executed }) j
              (distinct, λ m. enough (ground (arith, was_approved))) (v.backed j));
      no_auths = λ m b.
          ap (λ (f : ℕ → Option UpgradeAuthorization). f b) w.auths
          ∙ v.no_auths (sym w.admin ∙ m) b;
      no_proposals = λ m j. absurd (ground (arith, found, v.no_proposals (sym w.admin ∙ m) id));
    }

-- Every call keeps the proposals of upgrades in order: no id from the counter on has a proposal; the
-- approvals of a proposal come from distinct addresses, and one that is approved or executed has at
-- least one and as many as it requires; and before the setup there is no authorisation and no
-- proposal.
pub apply-ProposalsInOrder :
    (e : Env) (c : Call) (s : Storage) → ProposalsInOrder s → ProposalsInOrder (apply e c s)
unfolding apply
apply-ProposalsInOrder e (Call.set_up admin) s v =
    after-ProposalsInOrder s (initialize_upgrade_auth e admin s) v
      (λ x t h. set_up-ProposalsInOrder e admin s t v h)
apply-ProposalsInOrder e (Call.grant admin a r until) s v =
    SameProposals-ProposalsInOrder s (after s (grant_upgrade_auth e admin a r until s))
      (grant-SameProposals e admin a r until s) v
apply-ProposalsInOrder e (Call.revoke admin a) s v =
    SameProposals-ProposalsInOrder s (after s (revoke_upgrade_auth e admin a s))
      (revoke-SameProposals e admin a s) v
apply-ProposalsInOrder e (Call.propose a new_implementation data_ required) s v =
    after-ProposalsInOrder s (propose_upgrade e a new_implementation data_ required s) v (λ id t h.
      Proposed-ProposalsInOrder e a id s t
        (propose_upgrade-Proposed e a new_implementation data_ required id s t h) v)
apply-ProposalsInOrder e (Call.approve a id) s v =
    after-ProposalsInOrder s (approve_upgrade_proposal e a id s) v (λ x t h.
      approved-ProposalsInOrder e a id s t (approve_upgrade_proposal-Approval e a id s t h) v)
apply-ProposalsInOrder e (Call.execute a new_implementation id) s v =
    after-ProposalsInOrder s (execute_upgrade e a new_implementation id s) v (λ x t h.
      used-ProposalsInOrder e a new_implementation id s t
        (execute_upgrade-Executed e a new_implementation id s t h) v)
apply-ProposalsInOrder e (Call.offer admin a) s v =
    SameProposals-ProposalsInOrder s (after s (transfer_upgrade_admin e admin a s))
      (transfer-SameProposals e admin a s) v
apply-ProposalsInOrder e (Call.accept caller) s v =
    SameProposals-ProposalsInOrder s (after s (accept_upgrade_admin e caller s))
      (accept-SameProposals e caller s) v
