-- ===== src/Apps/CommandLine.antt =====
-- The command lines of the applications: the loops over `argv` in apps/order_tcp/order_client.cpp,
-- apps/order_tcp/order_gateway.cpp, apps/market_udp/feed_subscriber.cpp and
-- apps/market_udp/feed_publisher.cpp. The arguments are those behind the program's name, as bytes. A
-- `double` and its functions are a parameter.
mod Tests
use usn_hft_sim.Base.{ℕ, ◌≤◌, min, max, Bool, true, false, ◌||◌, List, [], ◌∷◌, if◌then◌else◌}
use usn_hft_sim.Base.Ints.{ℤ, at_least_zero}
use usn_hft_sim.Base.Text.{codes, same, atoi}
use usn_hft_sim.Apps.Messages.{increment_size}

abbrev pub Bytes : Type 0
Bytes = List ℕ

-- `std::max(n, val)` and `std::clamp(val, 0, 100)`
abbrev pub at_least : ℕ → ℤ → ℕ
at_least n val = max n (at_least_zero val)

abbrev pub percent : ℤ → ℕ
percent val = min 100 (at_least_zero val)

-- The loop that takes a key and its value at a time; a key at the end has no value and is passed over.
unfoldable pub each_pair : {A : Type 0} → (A → Bytes → Bytes → A) → List Bytes → A → A
each_pair set [] o = o
each_pair set (key ∷ []) o = o
each_pair set (key ∷ val ∷ argv) o = each_pair set argv (set o key val)

pub record ClientOptions : Type 0 where
  pub qps : ℕ
  pub burst : ℕ
  pub disconnect_interval_s : ℕ
  pub timeout_ms : ℕ
  pub cancel_ratio : ℕ
  pub replace_ratio : ℕ
  pub trace_every : ℕ
  pub gateway_ip : Bytes

abbrev pub client_defaults : ClientOptions
client_defaults = record {
  qps = 2;
  burst = 1;
  disconnect_interval_s = 0;
  timeout_ms = 1000;
  cancel_ratio = 0;
  replace_ratio = 0;
  trace_every = 0;
  gateway_ip = codes "127.0.0.1";
}

unfoldable pub set_client : ClientOptions → (key val : Bytes) → ClientOptions
set_client o key val =
    if same key (codes "--qps")
    then record o { qps = at_least 1 (atoi val) }
    else if same key (codes "--burst")
    then record o { burst = at_least 1 (atoi val) }
    else if same key (codes "--disconnect-interval-s")
    then record o { disconnect_interval_s = at_least 0 (atoi val) }
    else if same key (codes "--timeout-ms")
    then record o { timeout_ms = at_least 1 (atoi val) }
    else if same key (codes "--cancel-ratio")
    then record o { cancel_ratio = percent (atoi val) }
    else if same key (codes "--replace-ratio")
    then record o { replace_ratio = percent (atoi val) }
    else if same key (codes "--trace-every")
    then record o { trace_every = at_least 0 (atoi val) }
    else if same key (codes "--gateway-ip")
    then record o { gateway_ip = val }
    else o

unfoldable pub client_options : List Bytes → ClientOptions
client_options argv = each_pair set_client argv client_defaults

pub record GatewayOptions : Type 0 where
  pub server_drop_at_s : ℕ
  pub backpressure_threshold : ℕ
  pub trace_every : ℕ

abbrev pub gateway_defaults : GatewayOptions
gateway_defaults = record { server_drop_at_s = 0; backpressure_threshold = 0; trace_every = 0 }

unfoldable pub set_gateway : GatewayOptions → (key val : Bytes) → GatewayOptions
set_gateway o key val =
    if same key (codes "--server-drop-at-s")
    then record o { server_drop_at_s = at_least 0 (atoi val) }
    else if same key (codes "--backpressure-threshold")
    then record o { backpressure_threshold = at_least 0 (atoi val) }
    else if same key (codes "--trace-every")
    then record o { trace_every = at_least 0 (atoi val) }
    else o

unfoldable pub gateway_options : List Bytes → GatewayOptions
gateway_options argv = each_pair set_gateway argv gateway_defaults

pub record SubscriberOptions : Type 0 where
  pub subscriber_id : ℕ
  pub artificial_delay_ms : ℕ
  pub trace_every : ℕ
  pub summary_file : Bytes

abbrev pub subscriber_defaults : SubscriberOptions
subscriber_defaults = record {
  subscriber_id = 0;
  artificial_delay_ms = 0;
  trace_every = 0;
  summary_file = [];
}

unfoldable pub set_subscriber : SubscriberOptions → (key val : Bytes) → SubscriberOptions
set_subscriber o key val =
    if same key (codes "--subscriber-id")
    then record o { subscriber_id = at_least 0 (atoi val) }
    else if same key (codes "--artificial-delay-ms")
    then record o { artificial_delay_ms = at_least 0 (atoi val) }
    else if same key (codes "--summary-file")
    then record o { summary_file = val }
    else if same key (codes "--trace-every")
    then record o { trace_every = at_least 0 (atoi val) }
    else o

unfoldable pub subscriber_options : List Bytes → SubscriberOptions
subscriber_options argv = each_pair set_subscriber argv subscriber_defaults

-- `double` with `std::atof`, `std::to_string` and `std::clamp(x, 0.0, 1.0)`.
pub record Doubles : Type 1 where
  pub Double : Type 0
  pub zero_double : Double
  pub atof : Bytes → Double
  pub print : Double → Bytes
  pub clamp : Double → Double

module _ (d : Doubles) where
  open d use {Double, zero_double, atof, clamp}

  pub record PublisherOptions : Type 0 where
    pub rate : ℕ
    pub payload_size : ℕ
    pub streams : ℕ
    pub jitter_ms : ℕ
    pub drop_rate : Double
    pub reorder_rate : Double
    pub seed : ℕ

  abbrev pub publisher_defaults : PublisherOptions
  publisher_defaults = record {
    rate = 2;
    payload_size = 64;
    streams = 1;
    jitter_ms = 0;
    drop_rate = zero_double;
    reorder_rate = zero_double;
    seed = 42;
  }

  unfoldable pub set_publisher : PublisherOptions → (key val : Bytes) → PublisherOptions
  set_publisher o key val =
      if same key (codes "--rate")
      then record o { rate = at_least 1 (atoi val) }
      else if same key (codes "--payload-size")
      then record o { payload_size = at_least increment_size (atoi val) }
      else if same key (codes "--streams")
      then record o { streams = at_least 1 (atoi val) }
      else if same key (codes "--jitter-ms")
      then record o { jitter_ms = at_least 0 (atoi val) }
      else if same key (codes "--drop-rate")
      then record o { drop_rate = clamp (atof val) }
      else if same key (codes "--reorder-rate")
      then record o { reorder_rate = clamp (atof val) }
      else if same key (codes "--seed")
      then record o { seed = at_least 1 (atoi val) }
      else o

  unfoldable pub publisher_options : List Bytes → PublisherOptions
  publisher_options argv = each_pair set_publisher argv publisher_defaults
