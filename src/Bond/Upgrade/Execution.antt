-- ===== src/Bond/Upgrade/Execution.antt =====
-- What the calls on upgrades check and store when they return
-- (contracts/credence_bond/src/upgrade_auth.rs).
use credence_contracts.Prelude.{
  ℕ, ◌+◌, ◌≡◌, refl, inl, inr, true, false, Option, none, some, List, [], ◌∷◌, ◌++◌, elem, ◌==◌,
  ==_iff, arith, Option-cases,
}
use credence_contracts.Host.{Address, Env, put, done, is_some, unwrap_or}
use credence_contracts.Bond.Upgrade.{
  UpgradeProposal, UpgradeRecord, UpgradeStatus, executed, status_code, Storage,
  get_upgrade_history, is_authorized_upgrader, add_approval, propose_upgrade,
  approve_upgrade_proposal, execute_upgrade,
}

-- The proposal that an execution names, if it names one, was approved for this implementation, and is
-- now executed.
abbrev pub Used : Address → Option ℕ → Storage → Storage → Type 0
Used new_implementation none s t = t.proposal ≡ s.proposal
Used new_implementation (some id) s t =
    (p : UpgradeProposal) × (s.proposal id ≡ some p)
    × (status_code p.status ≡ 1)
    × (p.new_implementation ≡ new_implementation)
    × (t.proposal ≡ put id (some (record p { status = executed })) s.proposal)

abbrev pub entry_of : Env → Address → Address → Address → Option ℕ → UpgradeRecord
entry_of e executor current new_implementation id = record {
  old_implementation = current;
  new_implementation = new_implementation;
  executed_at = e.timestamp;
  executed_by = executor;
  proposal_id = id;
}

pub record Executed (e : Env) (executor new_implementation : Address) (id : Option ℕ)
    (s t : Storage) : Type 0 where
  pub authorized : e.authorized executor ≡ true
  pub upgrader : is_authorized_upgrader e s executor ≡ true
  pub current : Address
  pub before : s.implementation ≡ some current
  pub other : (new_implementation == current) ≡ false
  pub replaced : t.implementation ≡ some new_implementation
  pub recorded :
      get_upgrade_history t
      ≡ get_upgrade_history s ++ entry_of e executor current new_implementation id ∷ []
  pub used : Used new_implementation id s t
  pub counter : t.next_proposal_id ≡ s.next_proposal_id
  pub admin : t.upgrade_admin ≡ s.upgrade_admin
  pub auths : t.auth ≡ s.auth

pub execute_upgrade-Executed :
    (e : Env) (executor new_implementation : Address) (id : Option ℕ) (s t : Storage)
    → execute_upgrade e executor new_implementation id s ≡ done tt t
    → Executed e executor new_implementation id s t
unfolding execute_upgrade
execute_upgrade-Executed e executor new_implementation none s t h =
    elim (Option-cases s.implementation) [
      | inl missing ↦ absurd (ground arith)
      | inr (current, before) ↦ record {
        authorized = ground arith;
        upgrader = ground arith;
        current = current;
        before = before;
        other = ground arith;
        replaced = ground arith;
        recorded = ground arith;
        used = ground arith;
        counter = ground arith;
        admin = ground arith;
        auths = ground arith;
      }
    ]
execute_upgrade-Executed e executor new_implementation (some id) s t h =
    elim (Option-cases s.implementation) [
      | inl missing ↦ absurd (ground arith)
      | inr (current, before) ↦ elim (Option-cases (s.proposal id)) [
        | inl unknown ↦ absurd (ground arith)
        | inr (p, found) ↦ record {
          authorized = ground arith;
          upgrader = ground arith;
          current = current;
          before = before;
          other = ground arith;
          replaced = ground arith;
          recorded = ground arith;
          used = (
            p,
            found,
            ground (arith, ==_iff (status_code p.status) 1),
            ground (arith, ==_iff p.new_implementation new_implementation),
            ground arith,
          );
          counter = ground arith;
          admin = ground arith;
          auths = ground arith;
        }
      ]
    ]

-- What an approval has done.
pub record Approval (e : Env) (approver : Address) (id : ℕ) (s t : Storage) : Type 0 where
  pub authorized : e.authorized approver ≡ true
  pub upgrader : is_authorized_upgrader e s approver ≡ true
  pub p : UpgradeProposal
  pub found : s.proposal id ≡ some p
  pub was_pending : status_code p.status ≡ 0
  pub first_time : elem approver p.approvals ≡ false
  pub stored : t ≡ (record s { proposal = put id (some (add_approval approver p)) s.proposal })

pub approve_upgrade_proposal-Approval :
    (e : Env) (approver : Address) (id : ℕ) (s t : Storage)
    → approve_upgrade_proposal e approver id s ≡ done tt t
    → Approval e approver id s t
unfolding approve_upgrade_proposal
approve_upgrade_proposal-Approval e approver id s t h = elim (Option-cases (s.proposal id)) [
  | inl unknown ↦ absurd (ground arith)
  | inr (p, found) ↦ record {
    authorized = ground arith;
    upgrader = ground arith;
    p = p;
    found = found;
    was_pending = ground (arith, ==_iff (status_code p.status) 0);
    first_time = ground arith;
    stored = ground arith;
  }
]

-- What a proposal has done.
pub record Proposed (e : Env) (a : Address) (id : ℕ) (s t : Storage) : Type 0 where
  pub known : is_some (s.auth a) ≡ true
  pub next : id ≡ unwrap_or s.next_proposal_id 1
  pub counter : t.next_proposal_id ≡ some (id + 1)
  pub p : UpgradeProposal
  pub stored : t.proposal ≡ put id (some p) s.proposal
  pub pending : status_code p.status ≡ 0
  pub unapproved : p.approvals ≡ []
  pub admin : t.upgrade_admin ≡ s.upgrade_admin
  pub auths : t.auth ≡ s.auth

pub propose_upgrade-Proposed :
    (e : Env) (a new_implementation : Address) (upgrade_data : List ℕ) (required id : ℕ)
    (s t : Storage)
    → propose_upgrade e a new_implementation upgrade_data required s ≡ done id t
    → Proposed e a id s t
unfolding propose_upgrade
propose_upgrade-Proposed e a new_implementation upgrade_data required id s t h = record {
  known = ground arith;
  next = ground arith;
  counter = ground arith;
  p = record {
    proposal_id = id;
    proposer_address = a;
    new_implementation = new_implementation;
    upgrade_data = upgrade_data;
    created_at = e.timestamp;
    status = UpgradeStatus.pending;
    approvals = [];
    required_approvals = required;
  };
  stored = ground arith;
  pending = refl;
  unapproved = refl;
  admin = ground arith;
  auths = ground arith;
}
