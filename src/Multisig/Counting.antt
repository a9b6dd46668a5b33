-- ===== src/Multisig/Counting.antt =====
-- `count_active_signatures` counts the current signers that have signed
-- (contracts/credence_multisig/src/multisig.rs).
use credence_contracts.Prelude.{
  ℕ, ◌+◌, ◌≤◌, ◌≡◌, refl, List, [], ◌∷◌, ◌&&◌, length, elem, Distinct, arith, Bool-cases, inl, inr,
  ◌⊎◌, ltb, ==_iff,
}
use credence_contracts.Prelude.Counting.{Counts, Counts-none, Counts-update, bit}
use credence_contracts.Errors.{ContractError}
use credence_contracts.Host.{Address, u32_max, done, panics, error}
use credence_contracts.Multisig.State.{Storage, has_signed, get_signers}
use credence_contracts.Multisig.Proposals.{count_from, count_active_signatures}

-- How many of the listed addresses have signed.
unfoldable pub signed_of : Storage → ℕ → List Address → ℕ
signed_of s id [] = 0
signed_of s id (x ∷ xs) = bit (has_signed s id x) + signed_of s id xs

pub signed_of-le : (s : Storage) (id : ℕ) (l : List Address) → signed_of s id l ≤ length l
unfolding signed_of
signed_of-le s id [] = omega arith
signed_of-le s id (x ∷ xs) = ground (arith, signed_of-le s id xs)

-- The loop does not overflow while the count and the list fit in a u32, and leaves the storage.
count_from_lem :
    (s : Storage) (id : ℕ) (l : List Address) (n : ℕ)
    → n + length l ≤ u32_max
    → count_from id l n s ≡ done (n + signed_of s id l) s
unfolding count_from signed_of
count_from_lem s id [] n h = ground arith
count_from_lem s id (x ∷ xs) n h =
    ground (arith, count_from_lem s id xs (n + 1), count_from_lem s id xs n)

pub count_active_lem :
    (s : Storage) (id : ℕ)
    → length (get_signers s) ≤ u32_max
    → count_active_signatures id s ≡ done (signed_of s id (get_signers s)) s
unfolding count_active_signatures
count_active_lem s id h = rw (count_from_lem s id (get_signers s) 0 (omega arith)) (ground arith)

-- In a list without repetition that is the number of addresses that are listed and have signed.
pub signed_of-Counts :
    (s : Storage) (id : ℕ) (l : List Address)
    → Distinct l
    → Counts (λ a. elem a l && has_signed s id a) (signed_of s id l)
unfolding signed_of
signed_of-Counts s id [] d = Counts-none
signed_of-Counts s id (x ∷ xs) d =
    Counts-update (λ a. elem a xs && has_signed s id a) (λ a. elem a (x ∷ xs) && has_signed s id a)
      (signed_of s id xs) (bit (has_signed s id x) + signed_of s id xs) x
      (λ b. ground (arith, ==_iff b x)) (ground (arith, d.0)) (signed_of-Counts s id xs d.1)

-- The loop returns or overflows; it writes nothing.
pub count_from_outcome :
    (id n : ℕ) (l : List Address) (s : Storage)
    → (count_from id l n s ≡ panics (error ContractError.overflow))
      ⊎ ((m : ℕ) × (count_from id l n s ≡ done m s))
unfolding count_from
count_from_outcome id n [] s = inr (n, refl)
count_from_outcome id n (x ∷ xs) s = elim (Bool-cases (has_signed s id x)) [
  | inl signed ↦ elim (Bool-cases (ltb u32_max (n + 1))) [
    | inl full ↦ inl (rw (signed, full))
    | inr fits ↦ rw (signed, fits) (count_from_outcome id (n + 1) xs s)
  ]
  | inr not_signed ↦ rw not_signed (count_from_outcome id n xs s)
]
