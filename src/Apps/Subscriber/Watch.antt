-- ===== src/Apps/Subscriber/Watch.antt =====
-- `main` of apps/market_udp/feed_subscriber.cpp behind the command line: the poller with its two
-- callbacks, and the report. What a round reads from outside is an input; the prints are left out.
use usn_hft_sim.Base.{
  ℕ, ◌+◌, ◌-◌, Bool, true, false, not, ◌&&◌, ◌||◌, Option, none, some, List, [], ◌∷◌, max, ltb, leb,
  if◌then◌else◌, u32,
}
use usn_hft_sim.Core.Ring
use usn_hft_sim.Io.BusyPoll.{BusyPollConfig, Loop, ends, poll, adaptive_adjust, completed}
use usn_hft_sim.Udp.Feedback.{fresh}
use usn_hft_sim.Apps.CommandLine.{SubscriberOptions}
use usn_hft_sim.Apps.Subscriber.{
  Subscriber, Host, Turn, PollOutcome, Poll, round_of, poll_callback, poll_config,
}
use usn_hft_sim.Apps.Subscriber.Join.{JoinAnswers, create_and_join_multicast}
use usn_hft_sim.Apps.Subscriber.Report.{Indices, report_of, summary_line}

-- What a round reads: `g_running` at the test of the cancel flag, what the callback reads, and the clock
-- after the callback and after a long sleep.
pub record Look : Type 0 where
  pub is_running : Bool
  pub turn : Turn
  pub now_at_idle : ℕ
  pub now_after_sleep : ℕ

-- The poller, its loop, and whether the callback has stopped it or cleared `g_running`.
pub record Watch : Type 0 where
  pub config : BusyPollConfig
  pub loop : Loop
  pub subscriber : Subscriber
  pub is_stopped : Bool
  pub is_cleared : Bool

abbrev pub poll_of : Look → (has_data : Bool) → Watch → Poll
poll_of l has_data w = record {
  is_stopped = w.is_stopped;
  is_running = l.is_running && not w.is_cleared;
  has_data = has_data;
  now_at_check = 0;
  now_at_idle = l.now_at_idle;
  now_after_sleep = l.now_after_sleep;
}

-- The configuration after a round, which the callback for a long idle time adjusts before the sleep.
unfoldable pub adjusted : Look → (has_data : Bool) → Watch → BusyPollConfig
adjusted l has_data w =
    if not has_data && leb w.config.max_idle_time (l.now_at_idle - w.loop.start_time)
    then adaptive_adjust w.config (u32 (w.loop.idle_count + 1))
    else w.config

-- What is left of a round when the callback has returned.
unfoldable pub after_callback : Look → PollOutcome × Subscriber → Watch → Watch
after_callback l (o, s) w =
    let config : BusyPollConfig = adjusted l o.has_data w in
    record {
      config = config;
      loop = poll config true (round_of (poll_of l o.has_data w)) w.loop;
      subscriber = s;
      is_stopped = w.is_stopped || o.stops;
      is_cleared = w.is_cleared || o.clears_running;
    }

-- The polling loop; `none` where it still runs after the rounds given.
unfoldable pub watch : (address : ℕ → ℕ) → Host → List Look → Watch → Option Watch
watch address h [] w = none
watch address h (l ∷ looks) w = elim (ends none (round_of (poll_of l false w)) w.loop) [
  | some status ↦
      some (record w {
        loop = record (w.loop) { result = record (w.loop.result) { status = status } };
      })
  | none ↦ elim (poll_callback address h l.turn w.subscriber) [
    | none ↦ none
    | some called ↦ watch address h looks (after_callback l called w)
  ]
]

abbrev pub new_subscriber : SubscriberOptions → Subscriber
new_subscriber o = record {
  ring = Ring.make 64;
  tracer = record {
    enabled = ltb 0 o.trace_every;
    sample_every = max 1 o.trace_every;
    counter = 0;
  };
  feedback = fresh;
  latency_us_samples = [];
}

abbrev pub new_watch : SubscriberOptions → (start_time : ℕ) → Watch
new_watch o start_time = record {
  config = poll_config;
  loop = record {
    start_time = start_time;
    iterations = 0;
    idle_count = 0;
    result = record { iterations = 0; data_hits = 0; status = completed };
    events = [];
  };
  subscriber = new_subscriber o;
  is_stopped = false;
  is_cleared = false;
}

-- The line for the summary file, where one is named and can be opened.
unfoldable pub written :
    Indices → SubscriberOptions → (is_opened : Bool) → Subscriber → Option (List ℕ)
written i o is_opened s = elim o.summary_file [
  | [] ↦ none
  | b ∷ path ↦
      if is_opened
      then some (summary_line (report_of i o.subscriber_id s.feedback s.latency_us_samples))
      else none
]

-- The code that `main` returns, and what it writes; `none` while the loop runs.
unfoldable pub subscriber_main :
    Indices
    → SubscriberOptions
    → JoinAnswers
    → (address : ℕ → ℕ) → Host
    → (start_time : ℕ) → List Look
    → (is_opened : Bool) → Option (ℕ × Option (List ℕ))
subscriber_main i o a address h start_time looks is_opened = elim (create_and_join_multicast a).0 [
  | none ↦ some (1, none)
  | some fd ↦ elim (watch address h looks (new_watch o start_time)) [
    | none ↦ none
    | some w ↦ some (0, written i o is_opened w.subscriber)
  ]
]
