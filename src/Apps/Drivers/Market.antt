-- ===== src/Apps/Drivers/Market.antt =====
-- apps/run_sim_market.cpp: subscribers and a publisher. The summaries are in Summary.
use usn_hft_sim.Base.{
  ℕ, zero, suc, ◌+◌, ◌*◌, ◌/◌, Bool, Option, none, some, List, [], ◌∷◌, ◌++◌, ltb, if◌then◌else◌,
}
use usn_hft_sim.Base.Text.{codes, same, atoi, to_string}
use usn_hft_sim.Apps.CommandLine.{Bytes, at_least, percent, Doubles}
use usn_hft_sim.Apps.Drivers.{Event, spawn_process, stop_process, asks_help, each_known}

abbrev pub subscriber_path : Bytes
subscriber_path = codes "./build/apps/feed_subscriber"

abbrev pub publisher_path : Bytes
publisher_path = codes "./build/apps/feed_publisher"

-- The first `slow_subscriber_ratio` percent of the subscribers are slow.
unfoldable pub is_slow : (i subscribers slow_subscriber_ratio : ℕ) → Bool
is_slow i subscribers slow_subscriber_ratio = ltb (i * 100 / subscribers) slow_subscriber_ratio

unfoldable pub summary_path : (own_pid i : ℕ) → Bytes
summary_path own_pid i =
    codes "/tmp/usn_run_market_sub_" ++ (to_string own_pid ++ (b'_' ∷ to_string i ++ codes ".txt"))

unfoldable pub subscriber_args : (own_pid i subscribers slow_subscriber_ratio : ℕ) → List Bytes
subscriber_args own_pid i subscribers slow_subscriber_ratio =
    codes "--subscriber-id"
    ∷ to_string i
    ∷ codes "--artificial-delay-ms"
    ∷ (if is_slow i subscribers slow_subscriber_ratio then codes "2" else codes "0")
    ∷ codes "--summary-file"
    ∷ summary_path own_pid i
    ∷ []

unfoldable pub stop_all : List ℕ → List Event
stop_all [] = []
stop_all (pid ∷ pids) = stop_process pid ++ stop_all pids

module _ (d : Doubles) where
  open d use {Double, zero_double, atof, print, clamp}

  pub record MarketSim : Type 0 where
    pub run_seconds : ℕ
    pub rate : ℕ
    pub payload_size : ℕ
    pub subscribers : ℕ
    pub streams : ℕ
    pub jitter_ms : ℕ
    pub slow_subscriber_ratio : ℕ
    pub drop_rate : Double
    pub reorder_rate : Double

  abbrev pub market_defaults : MarketSim
  market_defaults = record {
    run_seconds = 10;
    rate = 2;
    payload_size = 36;
    subscribers = 1;
    streams = 1;
    jitter_ms = 0;
    slow_subscriber_ratio = 0;
    drop_rate = zero_double;
    reorder_rate = zero_double;
  }

  unfoldable pub set_market : MarketSim → (key val : Bytes) → Option MarketSim
  set_market o key val =
      if same key (codes "--duration")
      then some (record o { run_seconds = at_least 1 (atoi val) })
      else if same key (codes "--rate")
      then some (record o { rate = at_least 1 (atoi val) })
      else if same key (codes "--payload-size")
      then some (record o { payload_size = at_least 64 (atoi val) })
      else if same key (codes "--subscribers")
      then some (record o { subscribers = at_least 1 (atoi val) })
      else if same key (codes "--streams")
      then some (record o { streams = at_least 1 (atoi val) })
      else if same key (codes "--jitter-ms")
      then some (record o { jitter_ms = at_least 0 (atoi val) })
      else if same key (codes "--slow-subscriber-ratio")
      then some (record o { slow_subscriber_ratio = percent (atoi val) })
      else if same key (codes "--drop-rate")
      then some (record o { drop_rate = clamp (atof val) })
      else if same key (codes "--reorder-rate")
      then some (record o { reorder_rate = clamp (atof val) })
      else none

  unfoldable pub market_options : List Bytes → Option MarketSim
  market_options argv = each_known set_market argv market_defaults

  unfoldable pub publisher_args : MarketSim → List Bytes
  publisher_args o =
      codes "--rate"
      ∷ to_string o.rate
      ∷ codes "--payload-size"
      ∷ to_string o.payload_size
      ∷ codes "--streams"
      ∷ to_string o.streams
      ∷ codes "--jitter-ms"
      ∷ to_string o.jitter_ms
      ∷ codes "--drop-rate"
      ∷ print o.drop_rate
      ∷ codes "--reorder-rate"
      ∷ print o.reorder_rate
      ∷ []

  -- All subscribers run: the publisher, and the end.
  unfoldable pub with_subscribers :
      MarketSim → (subscriber_pids : List ℕ) → (publisher : Option ℕ) → ℕ × List Event
  with_subscribers o subscriber_pids none = (1, stop_all subscriber_pids)
  with_subscribers o subscriber_pids (some publisher) = (
    0,
    spawn_process (some publisher) publisher_path (publisher_args o)
        ++ (stop_process publisher ++ stop_all subscriber_pids),
  )

  -- The loop that starts the subscribers from the `i`-th, with `left` of them to go, after those in
  -- `subscriber_pids`; `forks` answers for each.
  unfoldable pub start_subscribers :
      MarketSim
      → (own_pid left i : ℕ) → (forks : ℕ → Option ℕ) → (subscriber_pids : List ℕ)
      → (publisher : Option ℕ) → ℕ × List Event
  start_subscribers o own_pid zero i forks subscriber_pids publisher =
      with_subscribers o subscriber_pids publisher
  start_subscribers o own_pid (suc left) i forks subscriber_pids publisher = elim (forks i) [
    | none ↦ (1, stop_all subscriber_pids)
    | some pid ↦
        let (exit_code, events) =
          start_subscribers o own_pid left (i + 1) forks (subscriber_pids ++ pid ∷ []) publisher in
        (
          exit_code,
          spawn_process (some pid) subscriber_path
                (subscriber_args own_pid i o.subscribers o.slow_subscriber_ratio)
              ++ events,
        )
  ]

  -- `main` up to the summary: the code that it returns, and what it does.
  unfoldable pub market_main :
      List Bytes → (own_pid : ℕ) → (forks : ℕ → Option ℕ) → (publisher : Option ℕ) → ℕ × List Event
  market_main argv own_pid forks publisher =
      if asks_help argv then (0, []) else elim (market_options argv) [
        | none ↦ (1, [])
        | some o ↦ start_subscribers o own_pid o.subscribers 0 forks [] publisher
      ]
