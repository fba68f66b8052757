-- ===== src/Core/Capacity.antt =====
-- `round_up_power_of_two` of include/usn/core/packet_ring.hpp, and the same function, word for word,
-- of include/usn/core/mpsc_queue.hpp, on a 64-bit `std::size_t`.
use native.Mathlib.Nat.{div-div-eq-div-mul, div-one, mul_comm, pow-suc, mul_assoc, div-eq_of_lt}
use usn_hft_sim.Base.{
  ℕ, zero, suc, ◌+◌, ◌-◌, ◌*◌, ◌/◌, ◌%◌, ◌^◌, ◌≤◌, ◌<◌, max, bit_or, ◌≡◌, refl, ap, ◌∙◌, arith,
  ◌==◌, if◌then◌else◌, u64, ◌>>>◌, ◌≢◌, sym,
}
use usn_hft_sim.Base.Bits.{bit_or_digit, pow-add}

-- `n |= n >> s`
unfoldable pub or_shift : ℕ → ℕ → ℕ
or_shift s n = bit_or n (n >>> s)

-- The six shifts, in the order of the source.
unfoldable pub smear : ℕ → ℕ
smear n = or_shift 32 (or_shift 16 (or_shift 8 (or_shift 4 (or_shift 2 (or_shift 1 n)))))

unfoldable pub round_up_power_of_two : ℕ → ℕ
round_up_power_of_two n = if n == 0 then 1 else u64 (smear (n - 1) + 1)

or_shift-parity : (s n : ℕ) → or_shift s n % 2 ≡ max (n % 2) (n / 2 ^ s % 2)
unfolding or_shift
or_shift-parity s n = omega (arith, bit_or_digit n (n / 2 ^ s))

-- Each step commutes with dropping the lowest digit.
or_shift-half : (s n : ℕ) → or_shift s n / 2 ≡ or_shift s (n / 2)
unfolding or_shift
or_shift-half s n =
    rw (div-div-eq-div-mul n 2 (2 ^ s), mul_comm 2 (2 ^ s), ← div-div-eq-div-mul n (2 ^ s) 2)
      (omega (arith, bit_or_digit n (n / 2 ^ s)))

-- `g` halves with its argument, and its lowest digit is 0 only if the lowest `w` digits of the
-- argument are.
record Spreads (w : ℕ) (g : ℕ → ℕ) : Type 0 where
  halves : (n : ℕ) → g n / 2 ≡ g (n / 2)
  sees : (n : ℕ) → g n % 2 ≡ 0 → n / 2 ^ w * 2 ^ w ≡ n

Spreads-id : Spreads 1 (λ n. n)
Spreads-id = record { halves = λ n. refl; sees = λ n h. omega arith }

module _ {w : ℕ} {g : ℕ → ℕ} (spreads : Spreads w g) where
  open spreads use {halves, sees}

  drops : (k n : ℕ) → g n / 2 ^ k ≡ g (n / 2 ^ k)
  drops zero n = rw (div-one, div-one)
  drops (suc k) n =
      rw (pow-suc 2 k, ← div-div-eq-div-mul, drops k n, halves, ← div-div-eq-div-mul) refl

  or_shift-Spreads : Spreads (w + w) (λ n. or_shift w (g n))
  or_shift-Spreads = record {
    halves = λ n. or_shift-half w (g n) ∙ ap (or_shift w) (halves n);
    sees = blank;
  }
    where
      blank : (n : ℕ) → or_shift w (g n) % 2 ≡ 0 → n / 2 ^ (w + w) * 2 ^ (w + w) ≡ n
      blank n h =
          let low : n / 2 ^ w * 2 ^ w ≡ n = sees n (omega (arith, or_shift-parity w (g n))) in
          let high : n / 2 ^ w / 2 ^ w * 2 ^ w ≡ n / 2 ^ w =
            sees (n / 2 ^ w) (omega (arith, or_shift-parity w (g n), drops w n)) in
          rw (pow-add 2 w w, ← div-div-eq-div-mul, ← mul_assoc, high, low) refl

smear-Spreads : Spreads 64 smear
unfolding smear
smear-Spreads = or_shift-Spreads (
    or_shift-Spreads
      (or_shift-Spreads (or_shift-Spreads (or_shift-Spreads (or_shift-Spreads Spreads-id)))))

smear-zero : smear 0 ≡ 0
unfolding smear or_shift
smear-zero = refl

smear-suc : (n : ℕ) → 0 < n → n < 2 ^ 64 → smear n ≡ 2 * smear (n / 2) + 1
smear-suc n pos fits = omega (arith, smear-Spreads.halves n, odd)
  where
    odd : smear n % 2 ≢ 0
    odd e = omega (arith, smear-Spreads.sees n e, div-eq_of_lt fits)

-- The shape of the result: all ones, as many as the number has digits.
record IsOnes (n r : ℕ) : Type 0 where
  exponent : ℕ
  ones : r + 1 ≡ 2 ^ exponent
  above : n ≤ r
  below : 0 < n → r + 1 ≤ 2 * n
  within : (k : ℕ) → n < 2 ^ k → r < 2 ^ k

IsOnes-double : (n r : ℕ) → 0 < n → IsOnes (n / 2) r → (0 ≡ n / 2 → r ≡ 0) → IsOnes n (2 * r + 1)
IsOnes-double n r pos half blank = record {
  exponent = suc half.exponent;
  ones = omega (arith, half.ones, pow-suc 2 half.exponent);
  above = omega (arith, half.above);
  below = λ p. grind (arith, half.below, blank);
  within = bound;
}
  where
    bound : (k : ℕ) → n < 2 ^ k → 2 * r + 1 < 2 ^ k
    bound zero h = absurd (omega arith)
    bound (suc k) h = omega (arith, pow-suc 2 k, half.within k (omega (arith, pow-suc 2 k)))

smear-IsOnes_below : (f n : ℕ) → n ≤ f → n < 2 ^ 64 → IsOnes n (smear n)
smear-IsOnes_below f zero h fits = rw smear-zero (record {
  exponent = 0;
  ones = refl;
  above = omega arith;
  below = λ p. omega arith;
  within = λ k p. p;
})
smear-IsOnes_below zero (suc n) h fits = absurd (omega arith)
smear-IsOnes_below (suc f) (suc n) h fits = rw (smear-suc (suc n) (omega arith) fits) (
    IsOnes-double (suc n) (smear (suc n / 2)) (omega arith)
      (smear-IsOnes_below f (suc n / 2) (omega arith) (omega arith))
      (λ e. ap smear (sym e) ∙ smear-zero))

-- What both rings rely on: a power of two that holds `n` elements and is less than twice that.
pub record IsCapacity (n c : ℕ) : Type 0 where
  pub exponent : ℕ
  pub power : c ≡ 2 ^ exponent
  pub holds : n ≤ c
  pub tight : 0 < n → c < 2 * n
  pub small : c ≤ 2 ^ 63

round_up_power_of_two-zero : round_up_power_of_two 0 ≡ 1
unfolding round_up_power_of_two
round_up_power_of_two-zero = refl

round_up_power_of_two-suc : (n : ℕ) → smear n < 2 ^ 63 → round_up_power_of_two (suc n) ≡ smear n + 1
unfolding round_up_power_of_two
round_up_power_of_two-suc n h = let back : suc n - 1 ≡ n = omega arith in rw back (ground arith)

-- For every request up to 2 ^ 63 the rounded capacity is a power of two, at least the request, less
-- than twice a request that is not 0, and at most 2 ^ 63.
pub round_up_power_of_two-IsCapacity : (n : ℕ) → n ≤ 2 ^ 63 → IsCapacity n (round_up_power_of_two n)
round_up_power_of_two-IsCapacity zero h = rw round_up_power_of_two-zero (record {
  exponent = 0;
  power = refl;
  holds = omega arith;
  tight = λ p. absurd (omega arith);
  small = omega arith;
})
round_up_power_of_two-IsCapacity (suc n) h =
    let shape = smear-IsOnes_below n n (omega arith) (omega arith) in
    let small = shape.within 63 (omega arith) in
    rw (round_up_power_of_two-suc n small) (record {
      exponent = shape.exponent;
      power = shape.ones;
      holds = omega (arith, shape.above);
      tight = λ p. tight_at n shape;
      small = omega arith;
    })
  where
    tight_at : (m : ℕ) → IsOnes m (smear m) → smear m + 1 < 2 * suc m
    tight_at zero shape = omega (arith, smear-zero)
    tight_at (suc m) shape = omega (arith, shape.below (omega arith))
