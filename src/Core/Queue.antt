-- ===== src/Core/Queue.antt =====
-- What a ring promises: a first-in first-out queue of at most `cap` elements, with batches.
use usn_hft_sim.Base.{
  ℕ, ◌-◌, min, Bool, true, false, List, [], ◌∷◌, ◌++◌, length, take, drop, ltb, if◌then◌else◌,
}

module _ {ℓ} {A : Type ℓ} where
  unfoldable pub push : ℕ → List A → A → Bool × List A
  push cap q x = if ltb (length q) cap then (true, q ++ x ∷ []) else (false, q)

  -- As many as fit, in order.
  unfoldable pub push_batch : ℕ → List A → List A → ℕ × List A
  push_batch cap q xs = let n = min (length xs) (cap - length q) in (n, q ++ take n xs)

  -- The second result is what the caller's variable holds afterwards.
  unfoldable pub pop : List A → A → Bool × A × List A
  pop [] out = (false, out, [])
  pop (x ∷ q) out = (true, x, q)

  -- The second result is the caller's array afterwards.
  unfoldable pub pop_batch : List A → List A → ℕ × List A × List A
  pop_batch q out = let n = min (length out) (length q) in (n, take n q ++ drop n out, drop n q)
