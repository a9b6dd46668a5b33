-- ===== src/Prelude/Counting.antt =====
-- How many numbers pass a test: a set that is kept as a table of flags beside its size.
use Prim.Native.Nat.{ℕ, suc, ◌+◌, ◌-◌, ◌≤◌, ◌<◌}
use mathlib.Core.Path.{◌≡◌, refl, sym, ap, ◌∙◌, subst}
use mathlib.Core.Logic.{inl, inr}
use mathlib.Core.Bool.{Bool, true, false}
use mathlib.Core.List.{List, [], ◌∷◌}
use native.Mathlib.Omega.{arith}
use credence_contracts.Prelude.Tests.{◌==◌, ==_iff, if◌then◌else◌, Bool-cases}
use credence_contracts.Prelude.Lists.{length, elem, Distinct}

-- Exactly `n` numbers pass `test`: those of a list without repetition.
abbrev pub Counts : (ℕ → Bool) → ℕ → Type 0
Counts test n = (l : List ℕ) × Distinct l × ((a : ℕ) → elem a l ≡ test a) × (length l ≡ n)

abbrev pub erase : ℕ → List ℕ → List ℕ
erase a [] = []
erase a (x ∷ xs) = let rest = erase a xs in if a == x then rest else x ∷ rest

elem-erase : (a b : ℕ) (l : List ℕ) → elem b (erase a l) ≡ (if b == a then false else elem b l)
elem-erase a b [] = ground arith
elem-erase a b (x ∷ xs) = ground (arith, elem-erase a b xs)

erase-Distinct : (a : ℕ) (l : List ℕ) → Distinct l → Distinct (erase a l)
erase-Distinct a [] d = tt
erase-Distinct a (x ∷ xs) d = ground (arith, erase-Distinct a xs d.1, elem-erase a x xs)

erase_absent : (a : ℕ) (l : List ℕ) → elem a l ≡ false → erase a l ≡ l
erase_absent a [] h = refl
erase_absent a (x ∷ xs) h = ground (arith, erase_absent a xs)

length-erase :
    (a : ℕ) (l : List ℕ) → Distinct l → elem a l ≡ true → suc (length (erase a l)) ≡ length l
length-erase a [] d h = cc
length-erase a (x ∷ xs) d h = elim (Bool-cases (a == x)) [
  | inl same ↦ ground (arith, erase_absent a xs)
  | inr other ↦ ground (arith, length-erase a xs d.1)
]

pub Counts-none : Counts (λ _. false) 0
Counts-none = ([], tt, λ a. refl, refl)

pub Counts-same : (f g : ℕ → Bool) (n : ℕ) → ((a : ℕ) → f a ≡ g a) → Counts f n → Counts g n
Counts-same f g n h (l, d, e, k) = (l, d, λ a. e a ∙ h a, k)

-- One more passes.
pub Counts-insert :
    (f g : ℕ → Bool) (n a : ℕ)
    → ((b : ℕ) → g b ≡ (if b == a then true else f b))
    → f a ≡ false
    → Counts f n
    → Counts g (suc n)
Counts-insert f g n a h new (l, d, e, k) =
    (a ∷ l, (e a ∙ new, d), λ b. ground (arith, h b, e b), ap suc k)

-- One fewer passes.
pub Counts-erase :
    (f g : ℕ → Bool) (n a : ℕ)
    → ((b : ℕ) → g b ≡ (if b == a then false else f b))
    → f a ≡ true
    → Counts f n
    → (0 < n) × Counts g (n - 1)
Counts-erase f g n a h old (l, d, e, k) =
    let shorter = length-erase a l d (e a ∙ old) in
    (
      omega (arith, shorter),
      (
        erase a l,
        erase-Distinct a l d,
        λ b. ground (arith, h b, e b, elem-erase a b l),
        omega (arith, shorter),
      ),
    )

abbrev pub Included : List ℕ → List ℕ → Type 0
Included [] l = Unit
Included (x ∷ xs) l = (elem x l ≡ true) × Included xs l

Included-erase :
    (x : ℕ) (xs l : List ℕ) → elem x xs ≡ false → Included xs l → Included xs (erase x l)
Included-erase x [] l h i = tt
Included-erase x (y ∷ ys) l h i = ground (arith, Included-erase x ys l, elem-erase x y l)

-- A list without repetition is at most as long as one that holds all of it.
pub length-le_of_Included :
    (xs l : List ℕ) → Distinct xs → Distinct l → Included xs l → length xs ≤ length l
length-le_of_Included [] l d d' i = omega arith
length-le_of_Included (x ∷ xs) l d d' i = omega (
  arith,
  length-erase x l d' i.0,
  length-le_of_Included xs (erase x l) d.1 (erase-Distinct x l d') (Included-erase x xs l d.0 i.1),
)

Included-of : (xs l : List ℕ) → ((a : ℕ) → elem a xs ≡ true → elem a l ≡ true) → Included xs l
Included-of [] l h = tt
Included-of (x ∷ xs) l h = (h x (ground arith), Included-of xs l (λ a k. h a (ground arith)))

-- If whatever passes one test passes the other, no more numbers pass the first.
pub Counts-mono :
    (f g : ℕ → Bool) (n m : ℕ)
    → ((a : ℕ) → f a ≡ true → g a ≡ true)
    → Counts f n
    → Counts g m
    → n ≤ m
Counts-mono f g n m h (l, d, e, k) (l', d', e', k') =
    omega (
      arith,
      length-le_of_Included l l' d d' (Included-of l l' (λ a p. e' a ∙ h a (sym (e a) ∙ p))),
    )

abbrev pub bit : Bool → ℕ
bit true = 1
bit false = 0

pub Counts-pos : (f : ℕ → Bool) (n a : ℕ) → Counts f n → f a ≡ true → 0 < n
Counts-pos f n a c h = (Counts-erase f (λ b. if b == a then false else f b) n a (λ b. refl) h c).0

-- A change at one number, and the count changed with it.
pub Counts-update :
    (f g : ℕ → Bool) (n m a : ℕ)
    → ((b : ℕ) → g b ≡ (if b == a then g a else f b))
    → m + bit (f a) ≡ n + bit (g a)
    → Counts f n
    → Counts g m
Counts-update f g n m a h k c = elim (Bool-cases (f a)) [
  | inl was ↦ elim (Bool-cases (g a)) [
    | inl is ↦
        subst (Counts g) (omega (arith, ap bit was, ap bit is))
          (Counts-same f g n (λ b. ground (arith, h b, ==_iff b a)) c)
    | inr gone ↦
        let (p, c') = Counts-erase f g n a (λ b. ground (arith, h b)) was c in
        subst (Counts g) (omega (arith, ap bit was, ap bit gone)) c'
  ]
  | inr was_not ↦ elim (Bool-cases (g a)) [
    | inl new ↦
        subst (Counts g) (omega (arith, ap bit was_not, ap bit new))
          (Counts-insert f g n a (λ b. ground (arith, h b)) was_not c)
    | inr still_not ↦
        subst (Counts g) (omega (arith, ap bit was_not, ap bit still_not))
          (Counts-same f g n (λ b. ground (arith, h b, ==_iff b a)) c)
  ]
]

pub Counts-zero : (f : ℕ → Bool) (n : ℕ) → ((a : ℕ) → f a ≡ false) → Counts f n → n ≡ 0
Counts-zero f n h ([], d, e, k) = sym k
Counts-zero f n h (x ∷ xs, d, e, k) = absurd (ground (arith, e x, h x))
