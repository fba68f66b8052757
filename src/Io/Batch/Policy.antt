-- ===== src/Io/Batch/Policy.antt =====
-- The retry loop: how long it waits and that it ends.
use usn_hft_sim.Base.{
  ℕ, ◌+◌, ◌-◌, ◌≤◌, ◌<◌, ◌≡◌, arith, Bool, true, false, none, some, List, [], ◌∷◌, length,
}
use usn_hft_sim.Base.Ints.{is_positive, is_negative, at_least_zero}
use usn_hft_sim.Io.Batch.{
  BatchIoOptions, Attempt, Run, interval, after_poll, on_failure, next_wait, attempt_loop,
  recvmmsg_with_policy, sendmmsg_with_policy,
}

abbrev pub sum : List ℕ → ℕ
sum [] = 0
sum (x ∷ xs) = x + sum xs

next_wait_bounds :
    (o : BatchIoOptions) (remaining : ℕ)
    → is_positive o.timeout_ms ≡ true
    → (next_wait o remaining ≤ remaining) × (0 < remaining → 0 < next_wait o remaining)
unfolding next_wait interval
next_wait_bounds o remaining h = ground arith

abbrev pub has_ended : Run → Bool
has_ended r = elim r.outcome [ none ↦ false | some reply ↦ true ]

loop_waits :
    (o : BatchIoOptions) (remaining : ℕ) (attempts : List Attempt)
    → is_negative o.timeout_ms ≡ false
    → sum (attempt_loop o remaining attempts).waits ≤ remaining
unfolding attempt_loop on_failure after_poll
loop_waits o remaining [] h = omega arith
loop_waits o remaining (a ∷ attempts) h = ground (
  arith,
  loop_waits o (remaining - next_wait o remaining) attempts h,
  next_wait_bounds o remaining,
)

loop_ends :
    (o : BatchIoOptions) (remaining : ℕ) (attempts : List Attempt)
    → is_negative o.timeout_ms ≡ false
    → remaining < length attempts
    → has_ended (attempt_loop o remaining attempts) ≡ true
unfolding attempt_loop on_failure after_poll
loop_ends o remaining [] h e = absurd (omega arith)
loop_ends o remaining (a ∷ attempts) h e = ground (
  arith,
  loop_ends o (remaining - next_wait o remaining) attempts h,
  next_wait_bounds o remaining,
)

-- With a timeout that is not negative, both loops end after at most one attempt more than the timeout
-- has milliseconds, whatever the system answers, and the waits asked for do not add up to more than the
-- timeout.
pub policy_ends :
    (o : BatchIoOptions) (is_cancelled : Bool) (attempts : List Attempt)
    → is_negative o.timeout_ms ≡ false
    → at_least_zero o.timeout_ms < length attempts
    → (has_ended (recvmmsg_with_policy o is_cancelled attempts) ≡ true)
      × (sum (recvmmsg_with_policy o is_cancelled attempts).waits ≤ at_least_zero o.timeout_ms)
      × (has_ended (sendmmsg_with_policy o is_cancelled attempts) ≡ true)
      × (sum (sendmmsg_with_policy o is_cancelled attempts).waits ≤ at_least_zero o.timeout_ms)
unfolding recvmmsg_with_policy sendmmsg_with_policy
policy_ends o is_cancelled attempts h e = ground (
  arith,
  loop_ends o (at_least_zero o.timeout_ms) attempts h,
  loop_waits o (at_least_zero o.timeout_ms) attempts h,
)
