-- ===== src/Prelude/Lists.antt =====
-- Lists measured by native numbers, and lists of numbers as sets.
use Prim.Native.Nat.{ℕ, suc, ◌+◌, ◌≤◌}
use mathlib.Core.Path.{◌≡◌, refl}
use mathlib.Core.Bool.{Bool, false, ◌||◌}
use mathlib.Core.List.{List, [], ◌∷◌, ◌++◌}
use native.Mathlib.Omega.{arith}
use credence_contracts.Prelude.Tests.{◌==◌, ==_iff, if◌then◌else◌}

module _ {ℓ} {A : Type ℓ} where
  abbrev pub length : List A → ℕ
  length [] = 0
  length (x ∷ xs) = suc (length xs)

  pub length-append : (xs ys : List A) → length (xs ++ ys) ≡ length xs + length ys
  length-append [] ys = omega arith
  length-append (x ∷ xs) ys = omega (arith, length-append xs ys)

-- Is `a` in the list?
abbrev pub elem : ℕ → List ℕ → Bool
elem a [] = false
elem a (x ∷ xs) = (a == x) || elem a xs

-- No number stands in the list twice.
abbrev pub Distinct : List ℕ → Type 0
Distinct [] = Unit
Distinct (x ∷ xs) = (elem x xs ≡ false) × Distinct xs

pub elem-append : (a : ℕ) (xs ys : List ℕ) → elem a (xs ++ ys) ≡ (elem a xs || elem a ys)
elem-append a [] ys = refl
elem-append a (x ∷ xs) ys = ground (arith, elem-append a xs ys)

pub append-Distinct : (a : ℕ) (l : List ℕ) → Distinct l → elem a l ≡ false → Distinct (l ++ a ∷ [])
append-Distinct a [] d h = (refl, tt)
append-Distinct a (x ∷ xs) d h = ground (arith, append-Distinct a xs d.1, elem-append x xs (a ∷ []))

-- `position` and `Vec::remove`: the list without the first occurrence, if there is one.
abbrev pub remove_first : ℕ → List ℕ → List ℕ
remove_first a [] = []
remove_first a (x ∷ xs) = let rest = remove_first a xs in if x == a then xs else x ∷ rest

pub elem-remove_first :
    (a b : ℕ) (l : List ℕ)
    → Distinct l
    → elem b (remove_first a l) ≡ (if b == a then false else elem b l)
elem-remove_first a b [] d = ground arith
elem-remove_first a b (x ∷ xs) d =
    ground (arith, elem-remove_first a b xs d.1, ==_iff x a, ==_iff b a)

pub remove_first-Distinct : (a : ℕ) (l : List ℕ) → Distinct l → Distinct (remove_first a l)
remove_first-Distinct a [] d = tt
remove_first-Distinct a (x ∷ xs) d =
    ground (arith, remove_first-Distinct a xs d.1, elem-remove_first a x xs d.1)

pub length-remove_first : (a : ℕ) (l : List ℕ) → length (remove_first a l) ≤ length l
length-remove_first a [] = omega arith
length-remove_first a (x ∷ xs) = ground (arith, length-remove_first a xs)
