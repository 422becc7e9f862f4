-- ===== src/Bytes/Bits.antt =====
-- When `|` and `^` of two words are 0.
use Prim.Native.Nat.{digits, differ, bit_or-bitwise, bit_xor-bitwise}
use mq_project.Prelude.{
  ℕ, zero, suc, ◌/◌, ◌%◌, ◌≤◌, ◌≡◌, refl, sym, ◌∙◌, arith, max, bit_or, bit_xor,
}

max_zero : (m n : ℕ) → max m n ≡ 0 → (m ≡ 0) × (n ≡ 0)
max_zero m n h = (omega (arith, h), omega (arith, h))

differ_zero : (m n : ℕ) → differ m n ≡ 0 → m ≡ n
differ_zero zero n h = omega arith
differ_zero (suc m) zero h = absurd (omega arith)
differ_zero (suc m) (suc n) h = omega (arith, differ_zero m n h)

differ_refl : (m : ℕ) → differ m m ≡ 0
differ_refl zero = refl
differ_refl (suc m) = differ_refl m

or_digits_zero : (n a b : ℕ) → a ≤ n → digits (λ c. c) max n a b ≡ 0 → (a ≡ 0) × (b ≡ 0)
or_digits_zero zero a b l h = (omega arith, h)
or_digits_zero (suc n) zero b l h = (refl, h)
or_digits_zero (suc n) (suc a) b l h =
    let (e, f) = max_zero (suc a % 2) (b % 2) (omega (arith, h)) in
    let (g, k) = or_digits_zero n (suc a / 2) (b / 2) (omega arith) (omega (arith, h)) in
    (omega (arith, e, g), omega (arith, f, k))

xor_digits_zero : (n a b : ℕ) → a ≤ n → digits (λ c. c) differ n a b ≡ 0 → a ≡ b
xor_digits_zero zero a b l h = omega arith
xor_digits_zero (suc n) zero b l h = omega arith
xor_digits_zero (suc n) (suc a) b l h =
    let e = differ_zero (suc a % 2) (b % 2) (omega (arith, h)) in
    let g = xor_digits_zero n (suc a / 2) (b / 2) (omega arith) (omega (arith, h)) in
    omega (arith, e, g)

xor_digits_self : (n a : ℕ) → a ≤ n → digits (λ c. c) differ n a a ≡ 0
xor_digits_self zero a l = omega arith
xor_digits_self (suc n) zero l = refl
xor_digits_self (suc n) (suc a) l =
    omega (arith, differ_refl (suc a % 2), xor_digits_self n (suc a / 2) (omega arith))

pub bit_or_zero : (a b : ℕ) → bit_or a b ≡ 0 → (a ≡ 0) × (b ≡ 0)
bit_or_zero a b h = or_digits_zero a a b (omega arith) (sym (λ i. bit_or-bitwise a b i) ∙ h)

pub bit_xor_zero : (a b : ℕ) → bit_xor a b ≡ 0 → a ≡ b
bit_xor_zero a b h = xor_digits_zero a a b (omega arith) (sym (λ i. bit_xor-bitwise a b i) ∙ h)

pub bit_xor_self : (a : ℕ) → bit_xor a a ≡ 0
bit_xor_self a = (λ i. bit_xor-bitwise a a i) ∙ xor_digits_self a a (omega arith)
