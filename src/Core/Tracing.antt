-- ===== src/Core/Tracing.antt =====
-- `Tracer` of include/usn/core/tracing.hpp: which calls print. The printing itself is not modelled.
mod Tests
use usn_hft_sim.Base.{
  ℕ, ◌+◌, ◌-◌, ◌*◌, ◌/◌, ◌%◌, ◌^◌, ◌<◌, ◌≡◌, refl, arith, Bool, true, false, not, zero, suc, ◌==◌,
  ◌≤◌, ap, ◌∙◌, inl, inr, ◌⊎◌, Bool-cases, if◌then◌else◌, u64,
}
use native.Mathlib.Nat.{
  mod-lt, div-add-mod', mul-add-div_right, mul-add-mod_self_right, div-eq_of_lt, mod-eq_of_lt,
  div_self, mod_self,
}

pub record Tracer : Type 0 where
  pub enabled : Bool
  pub sample_every : ℕ
  pub counter : ℕ

unfoldable pub should_emit : Tracer → Bool × Tracer
should_emit t =
    let counter = u64 (t.counter + 1) in
    let emits =
      if not t.enabled
      then false
      else if t.sample_every == 0
      then false
      else counter % t.sample_every == 0 in
    (emits, record t { counter = counter })

-- How many of `n` calls print.
unfoldable pub emitted : Tracer → ℕ → ℕ
emitted t zero = 0
emitted t (suc n) =
    let (emits, t') = should_emit t in let rest = emitted t' n in if emits then rest + 1 else rest

step :
    (r k : ℕ)
    → r < k
    → ((r + 1 ≡ k) × ((r + 1) / k ≡ 1) × ((r + 1) % k ≡ 0))
      ⊎ ((r + 1 < k) × ((r + 1) / k ≡ 0) × ((r + 1) % k ≡ r + 1))
step r k h = elim (Bool-cases (r + 1 == k)) [
  | inl full ↦
      let e : r + 1 ≡ k = ground arith in
      inl
        (e, ap (λ (t : ℕ). t / k) e ∙ div_self (omega arith), ap (λ (t : ℕ). t % k) e ∙ mod_self k)
  | inr room ↦ let l : r + 1 < k = ground arith in inr (l, div-eq_of_lt l, mod-eq_of_lt l)
]

-- The quotient moves exactly where the remainder starts over.
next_quotient : (c k : ℕ) → 0 < k → (c + 1) / k ≡ (if (c + 1) % k == 0 then c / k + 1 else c / k)
next_quotient c k h =
    let split : c + 1 ≡ c / k * k + (c % k + 1) = omega (arith, div-add-mod' c k) in
    let quotient : (c + 1) / k ≡ c / k + (c % k + 1) / k =
      ap (λ (t : ℕ). t / k) split ∙ mul-add-div_right h (c / k) (c % k + 1) in
    let remainder : (c + 1) % k ≡ (c % k + 1) % k =
      ap (λ (t : ℕ). t % k) split ∙ mul-add-mod_self_right (c / k) k (c % k + 1) in
    ground (arith, step (c % k) k (mod-lt c h), quotient, remainder)

emitted_lem :
    (n : ℕ) (t : Tracer)
    → t.enabled ≡ true
    → 0 < t.sample_every
    → t.counter + n < 2 ^ 64
    → emitted t n + t.counter / t.sample_every ≡ (t.counter + n) / t.sample_every
unfolding emitted should_emit
emitted_lem zero t on pos fits =
    let same : t.counter + 0 ≡ t.counter = omega arith in rw same (omega arith)
emitted_lem (suc n) t on pos fits =
    ground (arith, emitted_lem n (should_emit t).1, next_quotient t.counter t.sample_every pos)

-- An enabled tracer that samples one call in `k`, with the counter at `c`, prints exactly as often in
-- its next `n` calls as there are multiples of `k` from `c + 1` to `c + n`, as long as the counter
-- stays below 2 ^ 64.
pub tracer_samples :
    (n : ℕ) (t : Tracer)
    → t.enabled ≡ true
    → 0 < t.sample_every
    → t.counter + n < 2 ^ 64
    → emitted t n ≡ (t.counter + n) / t.sample_every - t.counter / t.sample_every
tracer_samples n t on pos fits = omega (arith, emitted_lem n t on pos fits)
