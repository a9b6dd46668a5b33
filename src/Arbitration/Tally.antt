-- ===== src/Arbitration/Tally.antt =====
-- What the counting of votes finds (contracts/arbitration/src/lib.rs).
use credence_contracts.Prelude.{
  ℕ, ◌≤◌, ◌<◌, ◌≡◌, ◌≢◌, refl, sym, ap, ◌⊎◌, inl, inr, true, false, none, some, [], ◌∷◌, ◌==◌,
  if◌then◌else◌, Bool-cases, arith,
}
use credence_contracts.Prelude.Int.{ℤ, pos, ltb_ℤ, leb_ℤ, is_negative, ◌≤ℤ◌, ◌<ℤ◌, eq_of_parts}
use credence_contracts.Arbitration.State.{Votes, votes_get, votes_set}
use credence_contracts.Arbitration.Disputes.{
  Count, count_vote, count_votes, counted, has_tie, no_count,
}

-- Every outcome of the list is above `k`.
abbrev pub Above : ℕ → Votes → Type 0
Above k [] = Unit
Above k ((j, w) ∷ xs) = (k < j) × Above k xs

-- A map: the outcomes ascend; the outcomes are not zero and the weights are positive.
abbrev pub IsTally : Votes → Type 0
IsTally [] = Unit
IsTally ((j, w) ∷ xs) = Above j xs × (0 < j) × (pos 1 ≤ℤ w) × IsTally xs

votes_get-Above : (k j : ℕ) (xs : Votes) → Above k xs → j ≤ k → votes_get xs j ≡ none
unfolding votes_get
votes_get-Above k j [] h l = refl
votes_get-Above k j ((i, w) ∷ xs) h l = ground (arith, votes_get-Above k j xs h.1 l)

pub votes_get-votes_set :
    (xs : Votes) (k j : ℕ) (v : ℤ)
    → votes_get (votes_set xs k v) j ≡ (if j == k then some v else votes_get xs j)
unfolding votes_get votes_set
votes_get-votes_set [] k j v = ground arith
votes_get-votes_set ((i, w) ∷ xs) k j v = ground (arith, votes_get-votes_set xs k j v)

votes_set-Above : (xs : Votes) (i k : ℕ) (v : ℤ) → i < k → Above i xs → Above i (votes_set xs k v)
unfolding votes_set
votes_set-Above [] i k v l h = (l, tt)
votes_set-Above ((j, w) ∷ xs) i k v l h = ground (arith, votes_set-Above xs i k v l h.1)

Above-below : (i k : ℕ) (xs : Votes) → i < k → Above k xs → Above i xs
Above-below i k [] l h = tt
Above-below i k ((j, w) ∷ xs) l h = (omega arith, Above-below i k xs l h.1)

pub votes_set-IsTally :
    (xs : Votes) (k : ℕ) (v : ℤ) → 0 < k → pos 1 ≤ℤ v → IsTally xs → IsTally (votes_set xs k v)
unfolding votes_set
votes_set-IsTally [] k v p q h = (tt, p, q, tt)
votes_set-IsTally ((j, w) ∷ xs) k v p q h =
    ground (arith, votes_set-IsTally xs k v p q h.3, votes_set-Above xs j k v, Above-below k j xs)

pub votes_get_bounds :
    (xs : Votes) (o : ℕ) (v : ℤ) → IsTally xs → votes_get xs o ≡ some v → (0 < o) × (pos 1 ≤ℤ v)
unfolding votes_get
votes_get_bounds [] o v h k = absurd (ground arith)
votes_get_bounds ((j, w) ∷ xs) o v h k = ground (arith, votes_get_bounds xs o v h.3)

-- No outcome has more weight than `m`.
abbrev pub AtMost : Votes → ℤ → Type 0
AtMost xs m = (o : ℕ) (v : ℤ) → votes_get xs o ≡ some v → v ≤ℤ m

-- Every outcome other than `k` has less weight than `m`.
abbrev pub OthersBelow : Votes → ℕ → ℤ → Type 0
OthersBelow xs k m = (o : ℕ) (v : ℤ) → o ≢ k → votes_get xs o ≡ some v → v <ℤ m

count_max :
    (xs : Votes) (c : Count)
    → AtMost xs (count_votes xs c).max_weight × (c.max_weight ≤ℤ (count_votes xs c).max_weight)
unfolding votes_get count_votes
count_max [] c = (λ o v k. absurd (ground arith), omega arith)
count_max ((j, w) ∷ xs) c =
    let (below, grows) = count_max xs (count_vote c j w) in
    (λ o v k. ground (arith, below o v, grows), ground (arith, grows))

-- What the count `r` of the votes `xs`, begun with `c`, has found if there is no tie: either nothing
-- has reached the maximum that the count began with, or one outcome has passed it and all others.
abbrev Wins : Votes → Count → Count → Type 0
Wins xs c r =
    ((r ≡ c) × ((o : ℕ) (v : ℤ) → votes_get xs o ≡ some v → v <ℤ c.max_weight))
    ⊎ ((votes_get xs r.winning_outcome ≡ some r.max_weight)
        × (c.max_weight <ℤ r.max_weight)
        × OthersBelow xs r.winning_outcome r.max_weight)

-- The maximum is not the outcome that comes before all others.
not_first : (xs : Votes) (j o : ℕ) (v : ℤ) → Above j xs → votes_get xs o ≡ some v → o ≢ j
not_first xs j o v h e same = ground (arith, votes_get-Above j o xs h)

Wins-step :
    (xs : Votes) (j : ℕ) (w : ℤ) (c r : Count)
    → Above j xs
    → r.is_tie ≡ false
    → Wins xs (count_vote c j w) r
    → Wins ((j, w) ∷ xs) c r
unfolding votes_get
Wins-step xs j w c r h k (inl (same, below)) = elim (Bool-cases (ltb_ℤ c.max_weight w)) [
  | inl more ↦ inr (ground arith, ground arith, λ o v n e. ground (arith, below o v))
  | inr not_more ↦ inl (ground arith, λ o v e. ground (arith, below o v))
]
Wins-step xs j w c r h k (inr (found, more, others)) = inr (
  ground (arith, not_first xs j r.winning_outcome r.max_weight h found),
  ground arith,
  λ o v n e. ground (arith, others o v),
)

count-Wins :
    (xs : Votes) (c : Count)
    → IsTally xs
    → (count_votes xs c).is_tie ≡ false
    → Wins xs c (count_votes xs c)
unfolding votes_get count_votes
count-Wins [] c h k = inl (refl, λ o v e. absurd (ground arith))
count-Wins ((j, w) ∷ xs) c h k =
    Wins-step xs j w c (count_votes xs (count_vote c j w)) h.0 k
      (count-Wins xs (count_vote c j w) h.3 k)

-- What it has found if there is a tie: the tie that it began with, the maximum that it began with
-- once more, or two outcomes with the maximum.
abbrev Ties : Votes → Count → Count → Type 0
Ties xs c r =
    ((r.max_weight ≡ c.max_weight) × (c.is_tie ≡ true))
    ⊎ ((r.max_weight ≡ c.max_weight) × ((o : ℕ) × (votes_get xs o ≡ some r.max_weight)))
    ⊎ ((o : ℕ) × (o' : ℕ) × (o ≢ o')
        × (votes_get xs o ≡ some r.max_weight)
        × (votes_get xs o' ≡ some r.max_weight))

Ties-step :
    (xs : Votes) (j : ℕ) (w : ℤ) (c r : Count)
    → Above j xs
    → Ties xs (count_vote c j w) r
    → Ties ((j, w) ∷ xs) c r
unfolding votes_get
Ties-step xs j w c r h (inl (same, was)) = elim (Bool-cases (ltb_ℤ c.max_weight w)) [
  | inl more ↦ absurd (ground arith)
  | inr not_more ↦ elim (Bool-cases (leb_ℤ c.max_weight w)) [
    | inl equal ↦ inr (inl (ground arith, (j, ground (arith, eq_of_parts w c.max_weight))))
    | inr less ↦ inl (ground arith, ground arith)
  ]
]
Ties-step xs j w c r h (inr (inl (same, (o, found)))) =
    let n = not_first xs j o r.max_weight h found in
    elim (Bool-cases (ltb_ℤ c.max_weight w)) [
      | inl more ↦ inr (inr (j, o, (λ p. n (sym p)), ground arith, ground arith))
      | inr not_more ↦ inr (inl (ground arith, (o, ground arith)))
    ]
Ties-step xs j w c r h (inr (inr (o, o', n, found, found'))) =
    let a = not_first xs j o r.max_weight h found in
    let b = not_first xs j o' r.max_weight h found' in
    inr (inr (o, o', n, ground arith, ground arith))

count-Ties :
    (xs : Votes) (c : Count)
    → IsTally xs
    → (count_votes xs c).is_tie ≡ true
    → Ties xs c (count_votes xs c)
unfolding votes_get count_votes
count-Ties [] c h k = inl (refl, k)
count-Ties ((j, w) ∷ xs) c h k =
    Ties-step xs j w c (count_votes xs (count_vote c j w)) h.0
      (count-Ties xs (count_vote c j w) h.3 k)

-- With no tie, one outcome has more weight than every other.
abbrev pub IsWinner : Votes → ℕ → Type 0
IsWinner xs o = (w : ℤ) × (votes_get xs o ≡ some w) × OthersBelow xs o w

-- Whatever an outcome has, another has as much.
abbrev pub NoWinner : Votes → Type 0
NoWinner xs =
    (o : ℕ) (w : ℤ)
    → votes_get xs o ≡ some w
    → (o' : ℕ) × (w' : ℤ) × (o' ≢ o) × (votes_get xs o' ≡ some w') × (w ≤ℤ w')

pub counted-IsWinner :
    (xs : Votes)
    → IsTally xs
    → has_tie (counted xs) ≡ false
    → (0 < (counted xs).winning_outcome) × IsWinner xs (counted xs).winning_outcome
counted-IsWinner xs h k = elim (count-Wins xs no_count h (ground arith)) [
  | inl (same, below) ↦ absurd (ground (arith, ap (λ (c : Count). is_negative c.max_weight) same))
  | inr (found, more, others) ↦ (
    (votes_get_bounds xs (counted xs).winning_outcome (counted xs).max_weight h found).0,
    ((counted xs).max_weight, found, others),
  )
]

other_of_two : (a b o : ℕ) → a ≢ b → (a ≢ o) ⊎ (b ≢ o)
other_of_two a b o n = elim (Bool-cases (a == o)) [
  | inl yes_it_is ↦ inr (λ p. ground arith)
  | inr different ↦ inl (λ p. ground arith)
]

pub counted-NoWinner : (xs : Votes) → IsTally xs → has_tie (counted xs) ≡ true → NoWinner xs
counted-NoWinner xs h k o w e =
    let (below, grows) = count_max xs no_count in
    let small : w ≤ℤ (counted xs).max_weight = below o w e in
    let positive = (votes_get_bounds xs o w h e).1 in
    elim (count-Ties xs no_count h (ground arith)) [
      | inl (same, was) ↦ absurd (ground arith)
      | inr (inl (same, (a, found))) ↦
          absurd (ground (arith, votes_get_bounds xs a (counted xs).max_weight h found))
      | inr (inr (a, b, n, found, found')) ↦ elim (other_of_two a b o n) [
        | inl m ↦ (a, (counted xs).max_weight, m, found, small)
        | inr m ↦ (b, (counted xs).max_weight, m, found', small)
      ]
    ]
