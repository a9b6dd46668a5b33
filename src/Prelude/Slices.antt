-- ===== src/Prelude/Slices.antt =====
-- A part of a list that a loop over indices copies, and the rest of the list.
use Prim.Native.Nat.{ℕ, zero, suc, ◌+◌, ◌-◌, ◌%◌, ◌^◌, ◌≤◌, ◌<◌, min}
use mathlib.Core.Path.{◌≡◌, refl, sym, ap, ◌∙◌, subst}
use mathlib.Core.Logic.{◌⊎◌, inl, inr}
use mathlib.Core.Option.{Option, none, some}
use mathlib.Core.List.{List, [], ◌∷◌, ◌++◌, append-nil}
use native.Mathlib.Nat.{mod-eq_of_lt}
use native.Mathlib.Omega.{arith}
use credence_contracts.Prelude.Tests.{leb, if◌then◌else◌, Bool-cases}
use credence_contracts.Prelude.Lists.{length}

le_total : (a b : ℕ) → (a ≤ b) ⊎ (b ≤ a)
le_total a b = ground arith

module _ {A : Type 0} where
  abbrev pub get_elem? : List A → ℕ → Option A
  get_elem? [] i = none
  get_elem? (x ∷ xs) zero = some x
  get_elem? (x ∷ xs) (suc i) = get_elem? xs i

  -- `n` steps of the loop, from index `i`.
  unfoldable pub collect : ℕ → ℕ → List A → List A
  collect zero i l = []
  collect (suc n) i l =
      let rest = collect n (suc i) l in elim (get_elem? l i) [ none ↦ rest | some a ↦ a ∷ rest ]

  -- The first `n` of the list.
  abbrev pub take : ℕ → List A → List A
  take zero l = []
  take (suc n) [] = []
  take (suc n) (x ∷ xs) = x ∷ take n xs

  -- The list from index `i`.
  abbrev pub suffix : ℕ → List A → List A
  suffix zero l = l
  suffix (suc i) [] = []
  suffix (suc i) (x ∷ xs) = suffix i xs

  pub suffix_end : (i : ℕ) (l : List A) → length l ≤ i → suffix i l ≡ []
  suffix_end zero [] h = refl
  suffix_end zero (x ∷ xs) h = absurd (omega arith)
  suffix_end (suc i) [] h = refl
  suffix_end (suc i) (x ∷ xs) h = suffix_end i xs (omega arith)

  elem_at :
      (i : ℕ) (l : List A)
      → i < length l
      → (a : A) × (get_elem? l i ≡ some a) × (suffix i l ≡ a ∷ suffix (suc i) l)
  elem_at i [] h = absurd (omega arith)
  elem_at zero (x ∷ xs) h = (x, refl, refl)
  elem_at (suc i) (x ∷ xs) h = elem_at i xs (omega arith)

  collect_next :
      (n i : ℕ) (l : List A) (a : A)
      → get_elem? l i ≡ some a
      → collect (suc n) i l ≡ a ∷ collect n (suc i) l
  unfolding collect
  collect_next n i l a found = ground (arith, found)

  pub collect_lem :
      (n i : ℕ) (l : List A) → i + n ≤ length l → collect n i l ++ suffix (i + n) l ≡ suffix i l
  unfolding collect
  collect_lem zero i l h = ap (λ (k : ℕ). suffix k l) (omega arith)
  collect_lem (suc n) i l h =
      let (a, found, here) = elem_at i l (omega arith) in
      let rest = collect_lem n (suc i) l (omega arith) in
      let same : suffix (i + suc n) l ≡ suffix (suc i + n) l =
        ap (λ (k : ℕ). suffix k l) (omega arith) in
      rw (collect_next n i l a found, same) (ap (λ (t : List A). a ∷ t) rest ∙ sym here)

  pub page_lem :
      (cursor end : ℕ) (l : List A)
      → cursor ≤ end
      → end ≤ length l
      → collect (end - cursor) cursor l ++ suffix end l ≡ suffix cursor l
  page_lem cursor end l h k =
      subst (λ (i : ℕ). collect (end - cursor) cursor l ++ suffix i l ≡ suffix cursor l)
        (omega arith) (collect_lem (end - cursor) cursor l (omega arith))

  pub last_page_lem :
      (cursor end : ℕ) (l : List A)
      → cursor ≤ end
      → end ≤ length l
      → length l ≤ end
      → collect (end - cursor) cursor l ≡ suffix cursor l
  last_page_lem cursor end l h k m =
      sym (append-nil (collect (end - cursor) cursor l))
      ∙ ap (λ (t : List A). collect (end - cursor) cursor l ++ t) (sym (suffix_end end l m))
      ∙ page_lem cursor end l h k

  length-suffix : (i : ℕ) (l : List A) → length (suffix i l) ≡ length l - i
  length-suffix zero l = omega arith
  length-suffix (suc i) [] = omega arith
  length-suffix (suc i) (x ∷ xs) = omega (arith, length-suffix i xs)

  take_all : (n : ℕ) (l : List A) → length l ≤ n → take n l ≡ l
  take_all zero [] h = refl
  take_all zero (x ∷ xs) h = absurd (omega (arith, h))
  take_all (suc n) [] h = refl
  take_all (suc n) (x ∷ xs) h = ap (λ (t : List A). x ∷ t) (take_all n xs (omega (arith, h)))

  collect-take : (n i : ℕ) (l : List A) → i + n ≤ length l → collect n i l ≡ take n (suffix i l)
  unfolding collect
  collect-take zero i l h = refl
  collect-take (suc n) i l h =
      let (a, found, here) = elem_at i l (omega arith) in
      collect_next n i l a found
      ∙ ap (λ (t : List A). a ∷ t) (collect-take n (suc i) l (omega arith))
      ∙ ap (λ (t : List A). take (suc n) t) (sym here)

  -- From index `i`, at most `n` elements, as far as the list goes.
  slice_lem :
      (i n : ℕ) (l : List A)
      → i < length l
      → collect (min (i + n) (length l) - i) i l ≡ take n (suffix i l)
  slice_lem i n l h = elim (le_total (i + n) (length l)) [
    | inl within ↦
        collect-take (min (i + n) (length l) - i) i l (omega arith)
        ∙ ap (λ (k : ℕ). take k (suffix i l)) (omega arith)
    | inr past ↦
        collect-take (min (i + n) (length l) - i) i l (omega arith)
        ∙ take_all (min (i + n) (length l) - i) (suffix i l) (omega (arith, length-suffix i l))
        ∙ sym (take_all n (suffix i l) (omega (arith, length-suffix i l)))
  ]

  take_nothing : (n : ℕ) → take n [] ≡ []
  take_nothing zero = refl
  take_nothing (suc n) = refl

  -- The pages that several contracts cut with an offset, whose end is a u32.
  pub page_slice :
      (i n : ℕ) (l : List A)
      → i + n < 2 ^ 32
      → (if leb (length l) i then [] else collect (min ((i + n) % 2 ^ 32) (length l) - i) i l)
        ≡ take n (suffix i l)
  page_slice i n l room = elim (Bool-cases (leb (length l) i)) [
    | inl past ↦ rw past (
        sym
          (ap (λ (t : List A). take n t) (suffix_end i l (ground (arith, past))) ∙ take_nothing n))
    | inr within ↦ rw within (
        ap (λ (k : ℕ). collect (min k (length l) - i) i l)
          (mod-eq_of_lt {n = i + n} {m = 2 ^ 32} room)
        ∙ slice_lem i n l (ground (arith, within)))
  ]
