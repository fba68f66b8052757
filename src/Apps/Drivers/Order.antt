-- ===== src/Apps/Drivers/Order.antt =====
-- apps/run_sim_order.cpp: a gateway and a client.
use usn_hft_sim.Base.{ℕ, Option, none, some, List, [], ◌∷◌, ◌++◌, if◌then◌else◌}
use usn_hft_sim.Base.Text.{codes, same, atoi, to_string}
use usn_hft_sim.Apps.CommandLine.{Bytes, at_least, percent}
use usn_hft_sim.Apps.Drivers.{Event, spawn_process, stop_process, asks_help, each_known}

pub record OrderSim : Type 0 where
  pub run_seconds : ℕ
  pub qps : ℕ
  pub burst : ℕ
  pub disconnect_interval_s : ℕ
  pub server_drop_at_s : ℕ
  pub timeout_ms : ℕ
  pub cancel_ratio : ℕ
  pub replace_ratio : ℕ
  pub gateway_backpressure_threshold : ℕ

abbrev pub order_defaults : OrderSim
order_defaults = record {
  run_seconds = 10;
  qps = 2;
  burst = 1;
  disconnect_interval_s = 0;
  server_drop_at_s = 0;
  timeout_ms = 1000;
  cancel_ratio = 0;
  replace_ratio = 0;
  gateway_backpressure_threshold = 0;
}

unfoldable pub set_order : OrderSim → (key val : Bytes) → Option OrderSim
set_order o key val =
    if same key (codes "--duration")
    then some (record o { run_seconds = at_least 1 (atoi val) })
    else if same key (codes "--qps")
    then some (record o { qps = at_least 1 (atoi val) })
    else if same key (codes "--burst")
    then some (record o { burst = at_least 1 (atoi val) })
    else if same key (codes "--disconnect-interval-s")
    then some (record o { disconnect_interval_s = at_least 0 (atoi val) })
    else if same key (codes "--server-drop-at-s")
    then some (record o { server_drop_at_s = at_least 0 (atoi val) })
    else if same key (codes "--timeout-ms")
    then some (record o { timeout_ms = at_least 1 (atoi val) })
    else if same key (codes "--cancel-ratio")
    then some (record o { cancel_ratio = percent (atoi val) })
    else if same key (codes "--replace-ratio")
    then some (record o { replace_ratio = percent (atoi val) })
    else if same key (codes "--gateway-backpressure-threshold")
    then some (record o { gateway_backpressure_threshold = at_least 0 (atoi val) })
    else none

unfoldable pub order_options : List Bytes → Option OrderSim
order_options argv = each_known set_order argv order_defaults

unfoldable pub gateway_args : OrderSim → List Bytes
gateway_args o =
    codes "--server-drop-at-s"
    ∷ to_string o.server_drop_at_s
    ∷ codes "--backpressure-threshold"
    ∷ to_string o.gateway_backpressure_threshold
    ∷ []

unfoldable pub client_args : OrderSim → List Bytes
client_args o =
    codes "--qps"
    ∷ to_string o.qps
    ∷ codes "--burst"
    ∷ to_string o.burst
    ∷ codes "--disconnect-interval-s"
    ∷ to_string o.disconnect_interval_s
    ∷ codes "--timeout-ms"
    ∷ to_string o.timeout_ms
    ∷ codes "--cancel-ratio"
    ∷ to_string o.cancel_ratio
    ∷ codes "--replace-ratio"
    ∷ to_string o.replace_ratio
    ∷ []

abbrev pub gateway_path : Bytes
gateway_path = codes "./build/apps/order_gateway"

abbrev pub client_path : Bytes
client_path = codes "./build/apps/order_client"

-- The gateway runs: the client, and the end.
unfoldable pub with_gateway : OrderSim → (gateway : ℕ) → (client : Option ℕ) → ℕ × List Event
with_gateway o gateway none = (1, stop_process gateway)
with_gateway o gateway (some client) = (
  0,
  spawn_process (some client) client_path (client_args o)
      ++ (stop_process client ++ stop_process gateway),
)

-- Past the command line: the code that `main` returns, and what it does.
unfoldable pub simulate_order : OrderSim → (gateway client : Option ℕ) → ℕ × List Event
simulate_order o none client = (1, [])
simulate_order o (some gateway) client =
    let (exit_code, events) = with_gateway o gateway client in
    (exit_code, spawn_process (some gateway) gateway_path (gateway_args o) ++ events)

unfoldable pub order_main : List Bytes → (gateway client : Option ℕ) → ℕ × List Event
order_main argv gateway client =
    if asks_help argv
    then (0, [])
    else elim (order_options argv) [ none ↦ (1, []) | some o ↦ simulate_order o gateway client ]
