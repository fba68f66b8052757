-- ===== src/Io/BusyPoll.antt =====
-- `BusyPoller` of include/usn/io/busy_poll.hpp. What the loop reads from outside, the clock, the flags
-- and the callback `poll_func`, is given round by round; times are nanoseconds, counters unbounded but
-- for the `unsigned` ones.
pub mod Timeouts
mod Tests
use usn_hft_sim.Base.{
  ℕ, ◌+◌, ◌-◌, ◌*◌, ◌/◌, min, max, Bool, true, false, not, ◌&&◌, ◌||◌, ◌++◌, Option, none, some,
  List, [], ◌∷◌, map, ltb, leb, ◌==◌, if◌then◌else◌, u32,
}

pub record BusyPollConfig : Type 0 where
  pub poll_interval : ℕ
  pub max_idle_time : ℕ
  pub max_iterations : ℕ
  pub adaptive : Bool

pub data BusyPollStatus : Type 0 where
  completed timeout cancelled stopped : BusyPollStatus

pub record BusyPollResult : Type 0 where
  pub iterations : ℕ
  pub data_hits : ℕ
  pub status : BusyPollStatus

-- What happens around the loop, in order.
pub data Event : Type 0 where
  polled yielded idled : Event
  slept : ℕ → Event

-- One round of the loop as it finds the world: whether another thread has stopped the poller, whether
-- the cancel flag is there and set, the clock at the test for the timeout, what `poll_func` returns, and
-- the clock after that and after a long sleep.
pub record Round : Type 0 where
  pub is_stopped : Bool
  pub is_cancelled : Bool
  pub now_at_check : ℕ
  pub has_data : Bool
  pub now_at_idle : ℕ
  pub now_after_sleep : ℕ

-- The variables of the loop; `idle_count` is the member.
pub record Loop : Type 0 where
  pub start_time : ℕ
  pub iterations : ℕ
  pub idle_count : ℕ
  pub result : BusyPollResult
  pub events : List Event

-- `on_idle` is set or not.
unfoldable pub idle_events : BusyPollConfig → (has_on_idle long yields : Bool) → List Event
idle_events config has_on_idle long yields =
    let sleep =
      if long || ltb 0 config.poll_interval then slept config.poll_interval ∷ [] else [] in
    let idle = if long && has_on_idle then idled ∷ sleep else sleep in
    if yields then yielded ∷ idle else idle

-- A round in which `poll_func` has nothing.
unfoldable pub on_idle_round : BusyPollConfig → Bool → Round → Loop → Loop
unfolding idle_events
on_idle_round config has_on_idle round loop =
    let iterations = u32 (loop.iterations + 1) in
    let yields = leb config.max_iterations iterations in
    let long = leb config.max_idle_time (round.now_at_idle - loop.start_time) in
    record loop {
      idle_count = u32 (loop.idle_count + 1);
      iterations = if yields then 0 else iterations;
      start_time = if long then round.now_after_sleep else loop.start_time;
      events = loop.events ++ idle_events config has_on_idle long yields;
    }

-- The body of the loop from `result.iterations++` on.
unfoldable pub poll : BusyPollConfig → Bool → Round → Loop → Loop
unfolding on_idle_round
poll config has_on_idle round loop =
    let counted : Loop = record loop {
      result = record (loop.result) { iterations = loop.result.iterations + 1 };
      events = loop.events ++ polled ∷ [];
    } in
    if round.has_data
    then record counted {
      result = record (counted.result) { data_hits = counted.result.data_hits + 1 };
      idle_count = 0;
      iterations = 0;
    }
    else on_idle_round config has_on_idle round counted

-- The tests at the head of a round; `none` where the loop goes on. A timeout of `none` is a negative
-- one; otherwise it is in milliseconds.
unfoldable pub ends : Option ℕ → Round → Loop → Option BusyPollStatus
ends control_timeout round loop =
    if round.is_stopped
    then some stopped
    else (if round.is_cancelled then some cancelled else elim control_timeout [
      | none ↦ none
      | some ms ↦
          if leb ms ((round.now_at_check - loop.start_time) / 1000000) then some timeout else none
    ])

-- The end of the loop with a status, or the rest of it.
unfoldable pub finish : Option BusyPollStatus → Loop → Option Loop → Option Loop
finish (some status) loop rest =
    some (record loop { result = record (loop.result) { status = status } })
finish none loop rest = rest

-- The loop over the rounds given; `none` where it is still running after them.
unfoldable pub run : BusyPollConfig → Bool → Option ℕ → List Round → Loop → Option Loop
unfolding finish
run config has_on_idle control_timeout [] loop = none
run config has_on_idle control_timeout (round ∷ rounds) loop =
    let rest = run config has_on_idle control_timeout rounds (poll config has_on_idle round loop) in
    finish (ends control_timeout round loop) loop rest

-- `start_with_control`, from the clock at its start.
unfoldable pub start_with_control :
    BusyPollConfig → Bool → Option ℕ → (idle_count start_time : ℕ) → List Round → Option Loop
unfolding run
start_with_control config has_on_idle control_timeout idle_count start_time rounds =
    run config has_on_idle control_timeout rounds (record {
      start_time = start_time;
      iterations = 0;
      idle_count = idle_count;
      result = record { iterations = 0; data_hits = 0; status = completed };
      events = [];
    })

unfoldable pub adaptive_adjust : BusyPollConfig → (idle_count : ℕ) → BusyPollConfig
adaptive_adjust config idle =
    if not config.adaptive
    then config
    else (if ltb 1000 idle
        then record config { poll_interval = min (config.poll_interval * 2) 1000000 }
        else (if ltb idle 100
            then record config { poll_interval = max (config.poll_interval / 2) 100 }
            else config))

-- The members besides the configuration.
pub record BusyPoller : Type 0 where
  pub config : BusyPollConfig
  pub running : Bool
  pub idle_count : ℕ

unfoldable pub make : BusyPollConfig → BusyPoller
make config = record { config = config; running = false; idle_count = 0 }

-- `start`: a control with no cancel flag and no timeout.
unfoldable pub start :
    BusyPoller → (has_on_idle : Bool) → (start_time : ℕ) → List Round → Option Loop
unfolding start_with_control
start p has_on_idle start_time rounds =
    start_with_control p.config has_on_idle none p.idle_count start_time
      (map (λ (r : Round). record r { is_cancelled = false }) rounds)

unfoldable pub stop : BusyPoller → BusyPoller
stop p = record p { running = false }

unfoldable pub is_running : BusyPoller → Bool
is_running p = p.running

-- The poller when `start_with_control` has begun, and what `adaptive_adjust` does to its configuration.
unfoldable pub begun : BusyPoller → BusyPoller
begun p = record p { running = true }

unfoldable pub adjust : BusyPoller → BusyPoller
unfolding adaptive_adjust
adjust p = record p { config = adaptive_adjust p.config p.idle_count }
