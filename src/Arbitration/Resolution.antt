-- ===== src/Arbitration/Resolution.antt =====
-- What the resolution of a dispute decides (contracts/arbitration/src/lib.rs).
use credence_contracts.Prelude.{
  ℕ, ◌≤◌, ◌<◌, ◌≡◌, sym, subst, ap, ◌∙◌, ◌⊎◌, inl, inr, true, false, some, [], ◌∷◌, Bool-cases,
  Option-cases, arith,
}
use credence_contracts.Prelude.Int.{
  ℤ, pos, ◌≤ℤ◌, ◌+ℤ◌, +ℤ_assoc, +ℤ_zero, zero_+ℤ, int_laws, fits_i128,
}
use credence_contracts.Host.{Env, put, done, Outcome-cases}
use credence_contracts.Pausable
use credence_contracts.Arbitration.Status.{voting, resolved, tied}
use credence_contracts.Arbitration.State.{
  Votes, Dispute, Storage, get_votes, get_voter_count, get_quorum,
}
use credence_contracts.Arbitration.Disputes.{
  counted, has_tie, total_weight, check_quorum, resolve_dispute,
}
use credence_contracts.Arbitration.Tally.{
  IsTally, IsWinner, NoWinner, counted-IsWinner, counted-NoWinner,
}

-- The weight of all votes.
abbrev pub weight_of : Votes → ℤ
weight_of [] = pos 0
weight_of ((o, w) ∷ xs) = w +ℤ weight_of xs

weight_of_nonneg : (xs : Votes) → IsTally xs → pos 0 ≤ℤ weight_of xs
weight_of_nonneg [] h = omega arith
weight_of_nonneg ((o, w) ∷ xs) h = omega (int_laws, h.2, weight_of_nonneg xs h.3)

total_weight_lem :
    (xs : Votes) (t : ℤ) (s s' : Storage) (r : ℤ)
    → total_weight xs t s ≡ done r s'
    → (r ≡ t +ℤ weight_of xs) × (s' ≡ s)
unfolding total_weight
total_weight_lem [] t s s' r h = ground (arith, +ℤ_zero t)
total_weight_lem ((o, w) ∷ xs) t s s' r h = elim (Bool-cases (fits_i128 (t +ℤ w))) [
  | inl fits ↦ ground (arith, total_weight_lem xs (t +ℤ w) s s' r, +ℤ_assoc t w (weight_of xs))
  | inr over ↦ absurd (ground arith)
]

-- The votes of a dispute meet the quorum.
abbrev pub HasQuorum : ℕ → Storage → Type 0
HasQuorum id s =
    ((get_quorum s).0 ≤ℤ weight_of (get_votes s id)) × ((get_quorum s).1 ≤ get_voter_count s id)

check_quorum_inv :
    (id : ℕ) (s s' : Storage)
    → IsTally (get_votes s id)
    → check_quorum id s ≡ done tt s'
    → HasQuorum id s × (s' ≡ s)
unfolding check_quorum
check_quorum_inv id s s' v h = elim (Outcome-cases (total_weight (get_votes s id) (pos 0) s)) [
  | inl (x, failed) ↦ ground (arith, weight_of_nonneg (get_votes s id) v)
  | inr (r, t, ok) ↦ ground (
    arith,
    weight_of_nonneg (get_votes s id) v,
    total_weight_lem (get_votes s id) (pos 0) s t r ok,
    zero_+ℤ (weight_of (get_votes s id)),
  )
]

-- What a resolution that returned has found.
pub record Resolves (e : Env) (id outcome : ℕ) (s t : Storage) : Type 0 where
  pub d : Dispute
  pub running : Pausable.is_paused s.pause ≡ false
  pub stored : s.dispute id ≡ some d
  pub waiting : d.status ≡ voting
  pub ended : d.voting_end < e.timestamp
  pub quorum : HasQuorum id s
  pub decided :
      (has_tie (counted (get_votes s id)) ≡ true
        × (outcome ≡ 0)
        × (t ≡ record s {
          dispute = put id (some (record d { status = tied; outcome = 0 })) s.dispute;
        }))
      ⊎ (has_tie (counted (get_votes s id)) ≡ false
          × (outcome ≡ (counted (get_votes s id)).winning_outcome)
          × (t ≡ record s {
            dispute = put id (some (record d { status = resolved; outcome = outcome })) s.dispute;
          }))

pub resolve-Resolves :
    (e : Env) (id outcome : ℕ) (s t : Storage)
    → IsTally (get_votes s id)
    → resolve_dispute e id s ≡ done outcome t
    → Resolves e id outcome s t
unfolding resolve_dispute
resolve-Resolves e id outcome s t v h = elim (Option-cases (s.dispute id)) [
  | inl missing ↦ absurd (ground arith)
  | inr (d, stored) ↦ elim (Outcome-cases (check_quorum id s)) [
    | inl (x, failed) ↦ absurd (ground arith)
    | inr (u, s', ok) ↦
        let (quorum, same) = check_quorum_inv id s s' v ok in
        record {
          d = d;
          running = ground arith;
          stored = stored;
          waiting = ground arith;
          ended = ground arith;
          quorum = quorum;
          decided = elim (Bool-cases (has_tie (counted (get_votes s id)))) [
            | inl a_tie ↦ inl (a_tie, ground arith, ground arith)
            | inr no_tie ↦ inr (no_tie, ground arith, ground arith)
          ];
        }
  ]
]

-- With votes in order, a resolution that returns concerns a dispute in its voting status, after its
-- voting period and with its quorum met. Either no outcome has more weight than every other, and the
-- dispute is tied with outcome zero; or the returned outcome, which is not zero, has more weight than
-- every other, and the dispute is resolved with it.
pub resolve_correct :
    (e : Env) (id outcome : ℕ) (s t : Storage)
    → IsTally (get_votes s id)
    → resolve_dispute e id s ≡ done outcome t
    → (d : Dispute) × (s.dispute id ≡ some d)
      × (d.status ≡ voting)
      × (d.voting_end < e.timestamp)
      × HasQuorum id s
      × (((outcome ≡ 0)
            × (t.dispute id ≡ some (record d { status = tied; outcome = 0 }))
            × NoWinner (get_votes s id))
          ⊎ ((0 < outcome)
              × (t.dispute id ≡ some (record d { status = resolved; outcome = outcome }))
              × IsWinner (get_votes s id) outcome))
resolve_correct e id outcome s t v h =
    let r = resolve-Resolves e id outcome s t v h in
    (
      r.d,
      r.stored,
      r.waiting,
      r.ended,
      r.quorum,
      elim r.decided [
        | inl (a_tie, zero, result) ↦ inl (
          zero,
          ap (λ (u : Storage). u.dispute id) result ∙ ground arith,
          counted-NoWinner (get_votes s id) v a_tie,
        )
        | inr (no_tie, same, result) ↦
            let (p, w) = counted-IsWinner (get_votes s id) v no_tie in
            inr (
              subst (λ n. 0 < n) (sym same) p,
              ap (λ (u : Storage). u.dispute id) result ∙ ground arith,
              subst (IsWinner (get_votes s id)) (sym same) w,
            )
      ],
    )
