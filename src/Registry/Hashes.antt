-- ===== src/Registry/Hashes.antt =====
-- The comparison of code hashes (contracts/credence_registry/src/lib.rs).
use Prim.Native.Nat.{bit_or, bit_xor, bit_or-bitwise, bit_xor-bitwise, digits, differ, max}
use credence_contracts.Prelude.{
  ℕ, zero, suc, ◌/◌, ◌%◌, ◌≤◌, ◌≡◌, refl, sym, ap, subst, ◌∙◌, Bool, true, false, List, [], ◌∷◌,
  length, ◌==◌, ==_iff, not, ◌↔◌, if◌then◌else◌, arith,
}

abbrev pub Bytes : Type 0
Bytes = List ℕ

-- The differences of the bytes that stand opposite each other, gathered into one byte.
unfoldable pub gather : ℕ → Bytes → Bytes → ℕ
gather acc [] ys = acc
gather acc (x ∷ xs) [] = acc
gather acc (x ∷ xs) (y ∷ ys) = gather (bit_or acc (bit_xor x y)) xs ys

unfoldable pub constant_time_eq : Bytes → Bytes → Bool
unfolding gather
constant_time_eq left right =
    if not (length left == length right) then false else (gather 0 left right == 0)

differ_zero : (x y : ℕ) → differ x y ≡ 0 → x ≡ y
differ_zero zero y h = sym h
differ_zero (suc x) zero h = absurd (omega (arith, h))
differ_zero (suc x) (suc y) h = ap (λ (z : ℕ). suc z) (differ_zero x y h)

differ_same : (x : ℕ) → differ x x ≡ 0
differ_same zero = refl
differ_same (suc x) = differ_same x

xor_digits : (n a b : ℕ) → a ≤ n → digits (λ b. b) differ n a b ≡ 0 → a ≡ b
xor_digits zero a b h k = omega (arith, h, k)
xor_digits (suc n) zero b h k = sym k
xor_digits (suc n) (suc a) b h k =
    let low = differ_zero (suc a % 2) (b % 2) (omega (arith, k)) in
    let high = xor_digits n (suc a / 2) (b / 2) (omega (arith, h)) (omega (arith, k)) in
    omega (arith, low, high)

xor_same : (n a : ℕ) → a ≤ n → digits (λ b. b) differ n a a ≡ 0
xor_same zero a h = omega (arith, h)
xor_same (suc n) zero h = refl
xor_same (suc n) (suc a) h =
    omega (arith, xor_same n (suc a / 2) (omega arith), differ_same (suc a % 2))

or_digits : (n a b : ℕ) → a ≤ n → digits (λ b. b) max n a b ≡ 0 → (a ≡ 0) × (b ≡ 0)
or_digits zero a b h k = (omega (arith, h), k)
or_digits (suc n) zero b h k = (refl, k)
or_digits (suc n) (suc a) b h k =
    let (x, y) = or_digits n (suc a / 2) (b / 2) (omega (arith, h)) (omega (arith, k)) in
    omega (arith, x, y, k)

xor_zero : (a b : ℕ) → bit_xor a b ≡ 0 → a ≡ b
xor_zero a b h = xor_digits a a b (omega arith) (sym (λ i. bit_xor-bitwise a b i) ∙ h)

xor_self : (a : ℕ) → bit_xor a a ≡ 0
xor_self a = (λ i. bit_xor-bitwise a a i) ∙ xor_same a a (omega arith)

or_zero : (a b : ℕ) → bit_or a b ≡ 0 → (a ≡ 0) × (b ≡ 0)
or_zero a b h = or_digits a a b (omega arith) (sym (λ i. bit_or-bitwise a b i) ∙ h)

gather_equal :
    (acc : ℕ) (xs ys : Bytes) → length xs ≡ length ys → gather acc xs ys ≡ 0 → (acc ≡ 0) × (xs ≡ ys)
unfolding gather
gather_equal acc [] [] l h = (h, refl)
gather_equal acc [] (y ∷ ys) l h = absurd (omega (arith, l))
gather_equal acc (x ∷ xs) [] l h = absurd (omega (arith, l))
gather_equal acc (x ∷ xs) (y ∷ ys) l h =
    let (here, rest) = gather_equal (bit_or acc (bit_xor x y)) xs ys (omega (arith, l)) h in
    let (clear, same) = or_zero acc (bit_xor x y) here in
    (clear, ap (λ (z : ℕ). z ∷ xs) (xor_zero x y same) ∙ ap (λ (z : Bytes). y ∷ z) rest)

gather_same : (xs : Bytes) → gather 0 xs xs ≡ 0
unfolding gather
gather_same [] = refl
gather_same (x ∷ xs) = ap (λ (z : ℕ). gather (bit_or 0 z) xs xs) (xor_self x) ∙ gather_same xs

-- The comparison in constant time answers whether the two hashes are the same.
pub constant_time_eq_lem :
    (left right : Bytes) → (constant_time_eq left right ≡ true) ↔ (left ≡ right)
unfolding constant_time_eq
constant_time_eq_lem left right = (
  (λ h. (gather_equal 0 left right (ground arith) (ground arith)).1),
  (λ h.
      subst (λ (z : Bytes). constant_time_eq left z ≡ true) h
        (ground (arith, gather_same left, ==_iff (length left) (length left)))),
)
