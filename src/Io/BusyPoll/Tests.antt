-- ===== src/Io/BusyPoll/Tests.antt =====
-- The loop on a few rounds.
use usn_hft_sim.Base.{◌≡◌, ◌+◌, ◌*◌, ◌≤◌, ℕ, true, false, Bool, none, some, [], ◌∷◌, refl, arith}
use usn_hft_sim.Io.BusyPoll.{BusyPollConfig, completed, Round, Loop, adaptive_adjust, run}
use usn_hft_sim.Io.BusyPoll.Timeouts.{end_of, timeout_is_put_off}

-- The defaults of the code.
abbrev config : BusyPollConfig
config = record {
  poll_interval = 1000;
  max_idle_time = 10000;
  max_iterations = 1000;
  adaptive = true;
}

abbrev at_start : Loop
at_start = record {
  start_time = 0;
  iterations = 0;
  idle_count = 0;
  result = record { iterations = 0; data_hits = 0; status = completed };
  events = [];
}

abbrev round : (now : ℕ) (has_data : Bool) → Round
round now has_data = record {
  is_stopped = false;
  is_cancelled = false;
  now_at_check = now;
  has_data = has_data;
  now_at_idle = now + 10000;
  now_after_sleep = now + 11000;
}

interval_grows : (adaptive_adjust config 2000).poll_interval ≡ 2000
unfolding adaptive_adjust
interval_grows = refl

-- The timeout is one millisecond, and the loop runs for three.
timeout_is_put_off_example :
    let rounds = round 900000 false ∷ round 1800000 false ∷ round 2700000 false ∷ [] in
    (run config true (some 1) rounds at_start ≡ none) × (0 + 10000 * 3 ≤ end_of 0 rounds)
timeout_is_put_off_example =
    timeout_is_put_off config true 1 920000
      (round 900000 false ∷ round 1800000 false ∷ round 2700000 false ∷ []) at_start (ground arith)
      (omega arith)
