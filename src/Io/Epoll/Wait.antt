-- ===== src/Io/Epoll/Wait.antt =====
-- The waiting loop ends in time, and its result fits the events.
use usn_hft_sim.Base.{
  ℕ, ◌+◌, ◌-◌, ◌≤◌, ◌<◌, ◌≡◌, ◌≢◌, arith, Bool, true, false, none, some, List, [], ◌∷◌, length,
}
use usn_hft_sim.Base.Ints.{pos, is_positive, at_least_zero}
use usn_hft_sim.Io.Epoll.{
  ok, EpollWaitOptions, EpollWaitResult, Event, Attempt, Run, interval, next_wait, on_no_event,
  on_error, on_reply, wait_loop, wait_with_options,
}

abbrev pub sum : List ℕ → ℕ
sum [] = 0
sum (x ∷ xs) = x + sum xs

abbrev pub has_ended : Run → Bool
has_ended r = elim r.outcome [ none ↦ false | some result ↦ true ]

-- The count is the number of events, and there are events exactly with the status `ok`.
abbrev pub Fits : EpollWaitResult → List Event → Type 0
Fits r [] = r.status ≢ ok
Fits r (e ∷ events) = (r.status ≡ ok) × (r.count ≡ pos (length (e ∷ events))) × (r.error ≡ 0)

abbrev pub RunFits : Run → Type 0
RunFits r = elim r.outcome [ none ↦ Unit | some (result, events) ↦ Fits result events ]

next_wait_bounds :
    (o : EpollWaitOptions) (remaining : ℕ)
    → is_positive o.timeout_ms ≡ true
    → (next_wait o remaining ≤ remaining) × (0 < remaining → 0 < next_wait o remaining)
unfolding next_wait interval
next_wait_bounds o remaining h = ground arith

loop_ends :
    (o : EpollWaitOptions) (remaining : ℕ) (attempts : List Attempt)
    → is_positive o.timeout_ms ≡ true
    → remaining < length attempts
    → (has_ended (wait_loop o remaining attempts) ≡ true)
      × (sum (wait_loop o remaining attempts).waits ≤ remaining)
unfolding wait_loop on_reply on_no_event on_error
loop_ends o remaining [] h e = absurd (omega arith)
loop_ends o remaining (a ∷ attempts) h e = ground (
  arith,
  loop_ends o (remaining - next_wait o remaining) attempts h,
  next_wait_bounds o remaining h,
)

loop_fits :
    (o : EpollWaitOptions) (remaining : ℕ) (attempts : List Attempt)
    → RunFits (wait_loop o remaining attempts)
unfolding wait_loop on_reply on_no_event on_error
loop_fits o remaining [] = tt
loop_fits o remaining (a ∷ attempts) =
    ground (arith, loop_fits o (remaining - next_wait o remaining) attempts)

-- The result of a wait fits the events that it leaves: the status is `ok` exactly if there are events,
-- and then the count is their number and the error 0.
pub wait_fits :
    (o : EpollWaitOptions) (is_cancelled : Bool) (attempts : List Attempt)
    → RunFits (wait_with_options o is_cancelled attempts)
unfolding wait_with_options
wait_fits o is_cancelled attempts =
    ground (arith, loop_fits o (at_least_zero o.timeout_ms) attempts)

-- With a positive timeout the wait ends after at most one attempt more than the timeout has
-- milliseconds, interruptions included, and the waits do not add up to more than the timeout.
pub wait_ends :
    (o : EpollWaitOptions) (is_cancelled : Bool) (attempts : List Attempt)
    → is_positive o.timeout_ms ≡ true
    → at_least_zero o.timeout_ms < length attempts
    → (has_ended (wait_with_options o is_cancelled attempts) ≡ true)
      × (sum (wait_with_options o is_cancelled attempts).waits ≤ at_least_zero o.timeout_ms)
unfolding wait_with_options
wait_ends o is_cancelled attempts h e =
    ground (arith, loop_ends o (at_least_zero o.timeout_ms) attempts h)
