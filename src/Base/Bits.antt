-- ===== src/Base/Bits.antt =====
-- The lowest binary digit of `|` and of `&`, and what follows from it at every width.
use Prim.Native.Nat.{
  ℕ, zero, suc, ◌+◌, ◌-◌, ◌*◌, ◌/◌, ◌%◌, ◌^◌, ◌≤◌, ◌<◌, min, max, bit_and, bit_or, digits, bitwise,
  bit_and-bitwise, bit_or-bitwise,
}
use mathlib.Core.Path.{◌≡◌, refl, ap, ◌∙◌}
use native.Mathlib.Nat.{
  pow-zero, pow-suc, one-le-pow, add-zero, add-suc, mul-one, mul_assoc, div-add-mod',
  mul-add-mod_self_right, mod-eq_of_lt, mod-lt,
}
use native.Mathlib.Omega.{arith}

-- The fuel of the library's digit recursion does not matter once it reaches the number.
module _ (stop : ℕ → ℕ) (op : ℕ → ℕ → ℕ) where
  enough : (f g a b : ℕ) → a ≤ f → a ≤ g → digits stop op f a b ≡ digits stop op g a b
  enough zero zero zero b p q = refl
  enough (suc f) zero zero b p q = refl
  enough f zero (suc a) b p q = absurd (omega arith)
  enough zero (suc g) zero b p q = refl
  enough (suc f) (suc g) zero b p q = refl
  enough zero (suc g) (suc a) b p q = absurd (omega arith)
  enough (suc f) (suc g) (suc a) b p q =
      ground (arith, enough f g (suc a / 2) (b / 2) (omega arith) (omega arith))

  first_digit :
      (a b : ℕ)
      → 0 < a
      → bitwise stop op a b ≡ bitwise stop op (a / 2) (b / 2) * 2 + op (a % 2) (b % 2)
  first_digit zero b h = elim h [ ]
  first_digit (suc a) b h =
      ground (arith, enough a (suc a / 2) (suc a / 2) (b / 2) (omega arith) (omega arith))

pub bit_or_digit : (a b : ℕ) → bit_or a b ≡ bit_or (a / 2) (b / 2) * 2 + max (a % 2) (b % 2)
bit_or_digit zero b = simp bit_or-bitwise (omega arith)
bit_or_digit (suc a) b = simp bit_or-bitwise (first_digit (λ y. y) max (suc a) b (omega arith))

pub bit_and_digit : (a b : ℕ) → bit_and a b ≡ bit_and (a / 2) (b / 2) * 2 + min (a % 2) (b % 2)
bit_and_digit zero b = simp bit_and-bitwise (omega arith)
bit_and_digit (suc a) b = simp bit_and-bitwise (first_digit (λ y. 0) min (suc a) b (omega arith))

-- Strong induction through halving, for the laws below.
bit_and_below : (n a : ℕ) → a ≤ n → bit_and a 0 ≡ 0
bit_and_below n zero h = refl
bit_and_below zero (suc a) h = absurd (omega arith)
bit_and_below (suc n) (suc a) h =
    omega (arith, bit_and_digit (suc a) 0, bit_and_below n (suc a / 2) (omega arith))

pub bit_and-zero : (a : ℕ) → bit_and a 0 ≡ 0
bit_and-zero a = bit_and_below a a (omega arith)

bit_or_below : (n a : ℕ) → a ≤ n → bit_or a 0 ≡ a
bit_or_below n zero h = refl
bit_or_below zero (suc a) h = absurd (omega arith)
bit_or_below (suc n) (suc a) h =
    omega (arith, bit_or_digit (suc a) 0, bit_or_below n (suc a / 2) (omega arith))

pub bit_or-zero : (a : ℕ) → bit_or a 0 ≡ a
bit_or-zero a = bit_or_below a a (omega arith)

pub zero-bit_or : (b : ℕ) → bit_or 0 b ≡ b
zero-bit_or b = bit_or-bitwise 0 b

pub pow-add : (b m k : ℕ) → b ^ (m + k) ≡ b ^ m * b ^ k
pow-add b m zero = rw (add-zero, pow-zero, mul-one)
pow-add b m (suc k) = rw (add-suc, pow-suc, pow-suc, pow-add b m k, mul_assoc)

mod_double : (a m : ℕ) → 0 < m → a % (m * 2) ≡ a / 2 % m * 2 + a % 2
mod_double a m h =
    let low : ℕ = a / 2 % m * 2 + a % 2 in
    let split : a ≡ a / 2 / m * (m * 2) + low =
      omega (arith, ap (λ (t : ℕ). t * 2) (div-add-mod' (a / 2) m), div-add-mod' a 2) in
    let reduced : (a / 2 / m * (m * 2) + low) % (m * 2) ≡ low =
      mul-add-mod_self_right (a / 2 / m) (m * 2) low
      ∙ mod-eq_of_lt (omega (arith, mod-lt (a / 2) h)) in
    ap (λ (t : ℕ). t % (m * 2)) split ∙ reduced

-- A mask of `k` ones keeps the remainder by `2 ^ k`.
pub bit_and-mask : (k a : ℕ) → bit_and a (2 ^ k - 1) ≡ a % 2 ^ k
bit_and-mask zero a = omega (arith, bit_and-zero a)
bit_and-mask (suc k) a =
    rw (pow-suc, mod_double a (2 ^ k) (one-le-pow k 2 (omega arith)))
      (ground (arith, one-le-pow k 2, bit_and_digit a (2 ^ k * 2 - 1), bit_and-mask k (a / 2)))
