-- ===== src/Bond/Governance/Execution.antt =====
-- When a slash is executed (contracts/credence_bond/src/governance_approval.rs).
use credence_contracts.Prelude.{
  ◌↔◌, ◌⊎◌, ℕ, ◌+◌, ◌*◌, ◌/◌, ◌≤◌, ◌<◌, ◌≡◌, ◌∙◌, refl, ap, sym, Bool, true, false, Option, none,
  some, List, [], ◌∷◌, length, Option-cases, inl, inr, arith, if◌then◌else◌,
}
use credence_contracts.Host.{succeeds, Outcome-cases, Address, done, unwrap_or, is_some, u32_max}
use credence_contracts.Bond.Governance.{
  opened, executed, rejected, SlashProposal, Storage, Count, count_vote, count_from, count_votes,
  get_governors, effective_voter, is_approved, close, execute_slash_if_approved, bps_denominator,
}

-- How many governors have, through whoever votes for them, voted; and voted for the slash.
abbrev pub in_favour : Option Bool → Bool
in_favour none = false
in_favour (some b) = b

abbrev pub count : (Address → Bool) → List Address → ℕ
count test [] = 0
count test (g ∷ gs) = (if test g then 1 else 0) + count test gs

abbrev pub voters : Storage → ℕ → ℕ
voters s id = count (λ g. is_some (s.votes id (effective_voter s g))) (get_governors s)

abbrev pub supporters : Storage → ℕ → ℕ
supporters s id = count (λ g. in_favour (s.votes id (effective_voter s g))) (get_governors s)

count_vote_lem :
    (v : Option Bool) (c : Count)
    → ((count_vote v c).voted ≡ c.voted + (if is_some v then 1 else 0))
      × ((count_vote v c).approve ≡ c.approve + (if in_favour v then 1 else 0))
count_vote_lem none c = (omega arith, omega arith)
count_vote_lem (some true) c = (refl, refl)
count_vote_lem (some false) c = (refl, omega arith)

count_from_lem :
    (s : Storage) (id : ℕ) (gs : List Address) (c : Count)
    → ((count_from s id gs c).voted
        ≡ c.voted + count (λ g. is_some (s.votes id (effective_voter s g))) gs)
      × ((count_from s id gs c).approve
          ≡ c.approve + count (λ g. in_favour (s.votes id (effective_voter s g))) gs)
count_from_lem s id [] c = (omega arith, omega arith)
count_from_lem s id (g ∷ gs) c =
    let v : Option Bool = s.votes id (effective_voter s g) in
    let (a, b) = count_from_lem s id gs (count_vote v c) in
    let (d, f) = count_vote_lem v c in (omega (arith, a, d), omega (arith, b, f))

votes_lem :
    (s : Storage) (id : ℕ)
    → ((count_votes s id).voted ≡ voters s id) × ((count_votes s id).approve ≡ supporters s id)
unfolding count_votes
votes_lem s id =
    let (a, b) =
      count_from_lem s id (get_governors s) (record { approve = 0; reject = 0; voted = 0 }) in
    (omega (arith, a), omega (arith, b))

-- What a slash needs: governors, a quorum of them that voted, and more than half of those for it.
abbrev pub Carried : Storage → ℕ → Type 0
Carried s id =
    (0 < length (get_governors s))
    × (length (get_governors s) * unwrap_or s.quorum_bps 5100 ≤ u32_max)
    × (length (get_governors s) * unwrap_or s.quorum_bps 5100 / bps_denominator ≤ voters s id)
    × (unwrap_or s.min_governors 1 ≤ voters s id)
    × (0 < voters s id)
    × (voters s id < supporters s id + supporters s id)

is_approved-Carried : (s : Storage) (id : ℕ) → (is_approved id s ≡ done true s) ↔ Carried s id
unfolding is_approved
is_approved-Carried s id =
    let (a, b) = votes_lem s id in
    ((λ h. ground (arith, a, b)), (λ (c, d, f, g, i, j). ground (arith, a, b)))

is_approved-keeps : (s t : Storage) (id : ℕ) (b : Bool) → is_approved id s ≡ done b t → t ≡ s
unfolding is_approved
is_approved-keeps s t id b h = ground arith

abbrev pub Executed : ℕ → Storage → Storage → Type 0
Executed id s t =
    (p : SlashProposal) × (s.proposal id ≡ some p)
    × (p.status ≡ opened)
    × Carried s id
    × (t ≡ close id p executed s)

-- The product of the quorum overflows only where there are governors.
abbrev pub Fits : Storage → Type 0
Fits s =
    (length (get_governors s) ≡ 0)
    ⊎ (length (get_governors s) * unwrap_or s.quorum_bps 5100 ≤ u32_max)

is_approved-Fits : (s : Storage) (id : ℕ) → (is_approved id s ≡ done false s) → Fits s
unfolding is_approved
is_approved-Fits s id h = ground arith

Fits-is_approved : (s : Storage) (id : ℕ) → Fits s → succeeds (is_approved id s) ≡ true
unfolding is_approved
Fits-is_approved s id h = ground arith

uncarried : (s : Storage) (id : ℕ) → Fits s → ¬ Carried s id → is_approved id s ≡ done false s
uncarried s id fits not_carried = elim (Outcome-cases (is_approved id s)) [
  | inl (q, fails) ↦ absurd (ground (arith, fails, Fits-is_approved s id fits))
  | inr (true, u, answers) ↦ absurd (
      not_carried (
        (is_approved-Carried s id).0
          (answers ∙ ap (λ v. done true v) (is_approved-keeps s u id true answers))))
  | inr (false, u, answers) ↦
      answers ∙ ap (λ v. done false v) (is_approved-keeps s u id false answers)
]

abbrev pub Refused : ℕ → Storage → Storage → Type 0
Refused id s t =
    (p : SlashProposal) × (s.proposal id ≡ some p)
    × (p.status ≡ opened)
    × Fits s
    × ¬ Carried s id
    × (t ≡ close id p rejected s)

-- The check before an execution, when the proposal is open.
pub ends :
    (id : ℕ) (p : SlashProposal) (b : Bool) (s : Storage)
    → s.proposal id ≡ some p
    → p.status ≡ opened
    → is_approved id s ≡ done b s
    → execute_slash_if_approved id s ≡ done b (close id p (if b then executed else rejected) s)
unfolding execute_slash_if_approved
ends id p b s found is_open_ approved = ground (arith, found, is_open_, approved)

pub opened_before :
    (id : ℕ) (b : Bool) (s t : Storage)
    → execute_slash_if_approved id s ≡ done b t
    → (p : SlashProposal) × (s.proposal id ≡ some p)
      × (p.status ≡ opened)
      × (is_approved id s ≡ done b s)
unfolding execute_slash_if_approved
opened_before id b s t h = elim (Option-cases (s.proposal id)) [
  | inl missing ↦ absurd (ground (arith, missing))
  | inr (p, found) ↦ elim (Outcome-cases (is_approved id s)) [
    | inl (q, fails) ↦ absurd (ground (arith, found, fails))
    | inr (c, u, answers) ↦
        let same : u ≡ s = is_approved-keeps s u id c answers in
        (
          p,
          found,
          ground (arith, found),
          answers ∙ ap (λ v. done c v) same ∙ ap (λ x. done x s) (ground (arith, found, answers)),
        )
  ]
]

-- A slash is executed exactly when its proposal is open and carried: there are governors, their
-- number times the quorum fits a u32, the governors whose voter voted are as many as the quorum
-- and as the least number ask, at least one, and more than half of them are for the slash. The
-- proposal is then closed as executed, and nothing else changes. A call returns false exactly when
-- the proposal is open but not carried, and the product fits; it closes the proposal as rejected.
pub execute_slash_exact :
    (id : ℕ) (s t : Storage)
    → ((execute_slash_if_approved id s ≡ done true t) ↔ Executed id s t)
      × ((execute_slash_if_approved id s ≡ done false t) ↔ Refused id s t)
execute_slash_exact id s t = (
  (
    (λ h.
        let (p, found, is_opened, approved) = opened_before id true s t h in
        (
          p,
          found,
          is_opened,
          (is_approved-Carried s id).0 approved,
          ground (arith, h, ends id p true s found is_opened approved),
        )),
    (λ (p, found, is_opened, carried, stored).
        ends id p true s found is_opened ((is_approved-Carried s id).1 carried)
        ∙ ap (λ u. done true u) (sym stored)),
  ),
  (
    (λ h.
        let (p, found, is_opened, approved) = opened_before id false s t h in
        (
          p,
          found,
          is_opened,
          is_approved-Fits s id approved,
          (λ carried. absurd (ground (arith, approved, (is_approved-Carried s id).1 carried))),
          ground (arith, h, ends id p false s found is_opened approved),
        )),
    (λ (p, found, is_opened, fits, not_carried, stored).
        ends id p false s found is_opened (uncarried s id fits not_carried)
        ∙ ap (λ u. done false u) (sym stored)),
  ),
)
