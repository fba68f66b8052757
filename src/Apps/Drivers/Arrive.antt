-- ===== src/Apps/Drivers/Arrive.antt =====
-- The options of a driver reach the programs that it starts.
use usn_hft_sim.Base.{
  ℕ, ◌≤◌, ◌<◌, ◌^◌, ◌≡◌, refl, ap, ◌∙◌, inl, inr, arith, some, Option-cases, List, [], ◌∷◌,
}
use mathlib.Core.Path.{subst}
use mathlib.Core.Option.{some-injective, none-ne-some}
use usn_hft_sim.Base.Text.{atoi, to_string, atoi-lt, atoi-to_string}
use usn_hft_sim.Apps.CommandLine.{
  Bytes, at_least, percent, each_pair, client_defaults, client_options, set_client, gateway_options,
  set_gateway,
}
use usn_hft_sim.Apps.Drivers.{each_known}
use usn_hft_sim.Apps.Drivers.Order.{
  OrderSim, order_defaults, set_order, order_options, gateway_args, client_args,
}

pub record IsInRange (o : OrderSim) : Type 0 where
  pub qps_fits : (1 ≤ o.qps) × (o.qps < 2 ^ 31)
  pub burst_fits : (1 ≤ o.burst) × (o.burst < 2 ^ 31)
  pub interval_fits : o.disconnect_interval_s < 2 ^ 31
  pub drop_fits : o.server_drop_at_s < 2 ^ 31
  pub timeout_fits : (1 ≤ o.timeout_ms) × (o.timeout_ms < 2 ^ 31)
  pub cancel_fits : o.cancel_ratio ≤ 100
  pub replace_fits : o.replace_ratio ≤ 100
  pub threshold_fits : o.gateway_backpressure_threshold < 2 ^ 31

set_order-IsInRange :
    (o o' : OrderSim) (key val : Bytes) → IsInRange o → set_order o key val ≡ some o' → IsInRange o'
unfolding set_order
set_order-IsInRange o o' key val v h = ground (arith, atoi-lt val)

each_known-IsInRange :
    (argv : List Bytes) (o o' : OrderSim)
    → IsInRange o
    → each_known set_order argv o ≡ some o'
    → IsInRange o'
unfolding each_known
each_known-IsInRange [] o o' v h = subst IsInRange (some-injective o o' h) v
each_known-IsInRange (key ∷ []) o o' v h = subst IsInRange (some-injective o o' h) v
each_known-IsInRange (key ∷ val ∷ argv) o o' v h = elim (Option-cases (set_order o key val)) [
  | inl unknown ↦ absurd (none-ne-some o' (rw (unknown, each_known) at h))
  | inr (next, known) ↦
      each_known-IsInRange argv next o' (set_order-IsInRange o next key val v known)
        (rw (known, each_known) at h)
]

at_least-to_string : (n k : ℕ) → n ≤ k → k < 2 ^ 31 → at_least n (atoi (to_string k)) ≡ k
at_least-to_string n k low high = ap (at_least n) (atoi-to_string k high) ∙ omega arith

percent-to_string : (k : ℕ) → k ≤ 100 → percent (atoi (to_string k)) ≡ k
percent-to_string k h = ap percent (atoi-to_string k (omega arith)) ∙ omega arith

client_reads :
    (o : OrderSim)
    → IsInRange o
    → client_options (client_args o) ≡ record client_defaults {
      qps = o.qps;
      burst = o.burst;
      disconnect_interval_s = o.disconnect_interval_s;
      timeout_ms = o.timeout_ms;
      cancel_ratio = o.cancel_ratio;
      replace_ratio = o.replace_ratio;
    }
unfolding client_options client_args each_pair set_client
client_reads o v =
    rw
      (
        at_least-to_string 1 o.qps v.qps_fits.0 v.qps_fits.1,
        at_least-to_string 1 o.burst v.burst_fits.0 v.burst_fits.1,
        at_least-to_string 0 o.disconnect_interval_s (omega arith) v.interval_fits,
        at_least-to_string 1 o.timeout_ms v.timeout_fits.0 v.timeout_fits.1,
        percent-to_string o.cancel_ratio v.cancel_fits,
        percent-to_string o.replace_ratio v.replace_fits,
      )
      refl

gateway_reads :
    (o : OrderSim)
    → IsInRange o
    → gateway_options (gateway_args o) ≡ record {
      server_drop_at_s = o.server_drop_at_s;
      backpressure_threshold = o.gateway_backpressure_threshold;
      trace_every = 0;
    }
unfolding gateway_options gateway_args each_pair set_gateway
gateway_reads o v =
    rw
      (
        at_least-to_string 0 o.server_drop_at_s (omega arith) v.drop_fits,
        at_least-to_string 0 o.gateway_backpressure_threshold (omega arith) v.threshold_fits,
      )
      refl

-- Whatever command line the driver of the orders accepts, the client and the gateway that it starts
-- read from their arguments the options that it has read: printing the numbers and reading them again,
-- with the bounds of each program, changes nothing. What the driver does not pass on keeps its default.
pub order_options_arrive :
    (argv : List Bytes) (o : OrderSim)
    → order_options argv ≡ some o
    → (client_options (client_args o) ≡ record client_defaults {
      qps = o.qps;
      burst = o.burst;
      disconnect_interval_s = o.disconnect_interval_s;
      timeout_ms = o.timeout_ms;
      cancel_ratio = o.cancel_ratio;
      replace_ratio = o.replace_ratio;
    })
      × (gateway_options (gateway_args o) ≡ record {
        server_drop_at_s = o.server_drop_at_s;
        backpressure_threshold = o.gateway_backpressure_threshold;
        trace_every = 0;
      })
unfolding order_options
order_options_arrive argv o h =
    let v : IsInRange o = each_known-IsInRange argv order_defaults o (omega arith) h in
    (client_reads o v, gateway_reads o v)
