-- ===== src/Io/BusyPoll/Timeouts.antt =====
-- When the timeout of the loop is taken, and when it is not.
use usn_hft_sim.Base.{
  ℕ, ◌+◌, ◌-◌, ◌*◌, ◌/◌, length, ◌≤◌, ◌<◌, ◌≡◌, ◌⊎◌, refl, arith, Bool, true, false, none, some,
  List, [], ◌∷◌, ◌++◌, leb, leb→le, Bool-cases, inl, inr,
}
use usn_hft_sim.Io.BusyPoll.{BusyPollConfig, timeout, Round, Loop, ends, poll, on_idle_round, run}

-- Nobody stops or cancels the loop in this round.
pub record IsLeft (round : Round) : Type 0 where
  pub runs : round.is_stopped ≡ false
  pub goes_on : round.is_cancelled ≡ false

-- Rounds in which the start of the idle time, `start`, stays as it is: there is data, or the idle time
-- has not yet been too long.
abbrev pub AreBusy : (max_idle_time start : ℕ) → List Round → Type 0
AreBusy max_idle_time start [] = Unit
AreBusy max_idle_time start (r ∷ rs) =
    IsLeft r
    × ((r.has_data ≡ true) ⊎ (r.now_at_idle - start < max_idle_time))
    × AreBusy max_idle_time start rs

-- Rounds without data, each of which ends a long idle time at most `limit` nanoseconds after the sleep of
-- the round before, `start`, by a clock that does not go back.
abbrev pub AreIdle : (max_idle_time limit start : ℕ) → List Round → Type 0
AreIdle max_idle_time limit start [] = Unit
AreIdle max_idle_time limit start (r ∷ rs) =
    IsLeft r
    × (r.has_data ≡ false)
    × (r.now_at_check ≤ r.now_at_idle)
    × (start + max_idle_time ≤ r.now_at_idle)
    × (r.now_at_idle ≤ start + limit)
    × (r.now_at_idle ≤ r.now_after_sleep)
    × AreIdle max_idle_time limit r.now_after_sleep rs

-- The clock after the rounds.
abbrev pub end_of : (start : ℕ) → List Round → ℕ
end_of start [] = start
end_of start (r ∷ rs) = end_of r.now_after_sleep rs

ends-timeout :
    (ms : ℕ) (r : Round) (loop : Loop)
    → IsLeft r
    → ms ≤ (r.now_at_check - loop.start_time) / 1000000
    → ends (some ms) r loop ≡ some timeout
unfolding ends
ends-timeout ms r loop left late = ground arith

ends-none :
    (ms : ℕ) (r : Round) (loop : Loop)
    → IsLeft r
    → (r.now_at_check - loop.start_time) / 1000000 < ms
    → ends (some ms) r loop ≡ none
unfolding ends
ends-none ms r loop left early = ground arith

poll-busy :
    (config : BusyPollConfig) (has_on_idle : Bool) (r : Round) (loop : Loop)
    → (r.has_data ≡ true) ⊎ (r.now_at_idle - loop.start_time < config.max_idle_time)
    → (poll config has_on_idle r loop).start_time ≡ loop.start_time
unfolding poll on_idle_round
poll-busy config has_on_idle r loop busy = ground arith

poll-idle :
    (config : BusyPollConfig) (has_on_idle : Bool) (r : Round) (loop : Loop)
    → r.has_data ≡ false
    → config.max_idle_time ≤ r.now_at_idle - loop.start_time
    → (poll config has_on_idle r loop).start_time ≡ r.now_after_sleep
unfolding poll on_idle_round
poll-idle config has_on_idle r loop empty long = ground arith

-- As long as no idle time is too long, the loop ends with a timeout at the latest in the first round
-- that finds the timeout past.
pub timeout_is_taken :
    (config : BusyPollConfig) (has_on_idle : Bool) (ms : ℕ) (rounds : List Round) (last : Round)
    (loop : Loop)
    → AreBusy config.max_idle_time loop.start_time rounds
    → IsLeft last
    → ms ≤ (last.now_at_check - loop.start_time) / 1000000
    → (final : Loop) × (run config has_on_idle (some ms) (rounds ++ last ∷ []) loop ≡ some final)
      × (final.result.status ≡ timeout)
unfolding run
timeout_is_taken config has_on_idle ms [] last loop busy left late =
    rw (ends-timeout ms last loop left late) (_, refl, refl)
timeout_is_taken config has_on_idle ms (r ∷ rounds) last loop busy left late =
    let next : Loop = poll config has_on_idle r loop in
    let same : next.start_time ≡ loop.start_time = poll-busy config has_on_idle r loop busy.1 in
    elim (Bool-cases (leb ms ((r.now_at_check - loop.start_time) / 1000000))) [
      | inl past ↦ rw (ends-timeout ms r loop busy.0 (leb→le _ _ past)) (_, refl, refl)
      | inr before ↦ rw (ends-none ms r loop busy.0 (ground arith)) (
          timeout_is_taken config has_on_idle ms rounds last next (rw same busy.2) left
            (rw same late))
    ]

idle-none :
    (config : BusyPollConfig) (has_on_idle : Bool) (ms limit : ℕ) (rounds : List Round)
    (loop : Loop)
    → AreIdle config.max_idle_time limit loop.start_time rounds
    → limit < ms * 1000000
    → run config has_on_idle (some ms) rounds loop ≡ none
unfolding run
idle-none config has_on_idle ms limit [] loop idle short = refl
idle-none config has_on_idle ms limit (r ∷ rounds) loop idle short =
    let next : Loop = poll config has_on_idle r loop in
    let moved : next.start_time ≡ r.now_after_sleep =
      poll-idle config has_on_idle r loop idle.1 (omega arith) in
    rw (ends-none ms r loop idle.0 (omega arith))
      (idle-none config has_on_idle ms limit rounds next (rw moved idle.6) short)

idle-end_of :
    (max_idle_time limit start : ℕ) (rounds : List Round)
    → AreIdle max_idle_time limit start rounds
    → start + max_idle_time * length rounds ≤ end_of start rounds
idle-end_of max_idle_time limit start [] idle = omega arith
idle-end_of max_idle_time limit start (r ∷ rounds) idle =
    grind (arith, idle-end_of max_idle_time limit r.now_after_sleep rounds idle.6)

-- Without data, where nobody stops or cancels the loop, the clock does not go back, and each round lasts,
-- from the sleep of the round before on, at least the longest idle time and at most a limit that is
-- shorter than the timeout, the loop still runs after any number of rounds, although the clock has then
-- gone on by the longest idle time for each of them: the timeout is never taken, however long ago it has
-- passed.
pub timeout_is_put_off :
    (config : BusyPollConfig) (has_on_idle : Bool) (ms limit : ℕ) (rounds : List Round)
    (loop : Loop)
    → AreIdle config.max_idle_time limit loop.start_time rounds
    → limit < ms * 1000000
    → (run config has_on_idle (some ms) rounds loop ≡ none)
      × (loop.start_time + config.max_idle_time * length rounds ≤ end_of loop.start_time rounds)
timeout_is_put_off config has_on_idle ms limit rounds loop idle short = (
  idle-none config has_on_idle ms limit rounds loop idle short,
  idle-end_of config.max_idle_time limit loop.start_time rounds idle,
)
