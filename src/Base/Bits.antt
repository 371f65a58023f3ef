-- ===== src/Base/Bits.antt =====
-- When `|` and `^` of two numbers are zero.
use Prim.Native.Nat.{
  ℕ, zero, suc, ◌/◌, ◌%◌, ◌≤◌, max, differ, digits, bit_or, bit_xor, bit_or-bitwise,
  bit_xor-bitwise,
}
use mathlib.Core.Path.{◌≡◌, refl, sym, ap, ◌∙◌}
use native.Mathlib.Omega.{arith}

or_digits_zero : (n a b : ℕ) → a ≤ n → digits (λ b. b) max n a b ≡ 0 → (a ≡ 0) × (b ≡ 0)
or_digits_zero zero zero b le e = (refl, e)
or_digits_zero zero (suc a) b le e = absurd (omega arith)
or_digits_zero (suc n) zero b le e = (refl, e)
or_digits_zero (suc n) (suc a) b le e =
    let ih = or_digits_zero n (suc a / 2) (b / 2) (omega (arith, le)) (omega (arith, e)) in
    absurd (omega (arith, e, ih))

pub bit_or_zero : (a b : ℕ) → bit_or a b ≡ 0 → (a ≡ 0) × (b ≡ 0)
bit_or_zero a b e = or_digits_zero a a b (omega arith) (sym (bit_or-bitwise a b) ∙ e)

differ_zero : (a b : ℕ) → differ a b ≡ 0 → a ≡ b
differ_zero zero zero e = refl
differ_zero zero (suc b) e = sym e
differ_zero (suc a) zero e = e
differ_zero (suc a) (suc b) e = ap suc (differ_zero a b e)

differ_self : (a : ℕ) → differ a a ≡ 0
differ_self zero = refl
differ_self (suc a) = differ_self a

xor_digits_zero : (n a b : ℕ) → a ≤ n → digits (λ b. b) differ n a b ≡ 0 → a ≡ b
xor_digits_zero zero zero b le e = sym e
xor_digits_zero zero (suc a) b le e = absurd (omega arith)
xor_digits_zero (suc n) zero b le e = sym e
xor_digits_zero (suc n) (suc a) b le e =
    let high = xor_digits_zero n (suc a / 2) (b / 2) (omega (arith, le)) (omega (arith, e)) in
    let low = differ_zero (suc a % 2) (b % 2) (omega (arith, e)) in omega (arith, high, low)

pub bit_xor_zero : (a b : ℕ) → bit_xor a b ≡ 0 → a ≡ b
bit_xor_zero a b e = xor_digits_zero a a b (omega arith) (sym (bit_xor-bitwise a b) ∙ e)

xor_digits_self : (n a : ℕ) → a ≤ n → digits (λ b. b) differ n a a ≡ 0
xor_digits_self zero zero le = refl
xor_digits_self zero (suc a) le = absurd (omega arith)
xor_digits_self (suc n) zero le = refl
xor_digits_self (suc n) (suc a) le =
    omega (arith, xor_digits_self n (suc a / 2) (omega (arith, le)), differ_self (suc a % 2))

pub bit_xor_self : (a : ℕ) → bit_xor a a ≡ 0
bit_xor_self a = bit_xor-bitwise a a ∙ xor_digits_self a a (omega arith)
