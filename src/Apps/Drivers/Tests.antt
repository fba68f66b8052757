-- ===== src/Apps/Drivers/Tests.antt =====
-- Runs of the drivers.
use usn_hft_sim.Base.{
  ℕ, ◌+◌, ◌≡◌, refl, arith, true, false, none, some, List, [], ◌∷◌, ◌==◌, if◌then◌else◌,
}
use usn_hft_sim.Base.Text.{codes, atoi, to_string}
use usn_hft_sim.Apps.CommandLine.{Bytes, client_defaults, client_options, gateway_options, Doubles}
use usn_hft_sim.Apps.Subscriber.Report.{Report}
use usn_hft_sim.Apps.Drivers.{each_known, alive}
use usn_hft_sim.Apps.Drivers.Order.{
  OrderSim, order_defaults, set_order, order_options, gateway_args, client_args,
}
use usn_hft_sim.Apps.Drivers.Market.{is_slow, market_main}
use usn_hft_sim.Apps.Drivers.Arrive.{order_options_arrive}
use usn_hft_sim.Apps.Drivers.Children.{market_children_end}
use usn_hft_sim.Apps.Drivers.Summary.{no_totals, add_files}
use usn_hft_sim.Apps.Drivers.Summary.ReadBack.{IsReport}
use usn_hft_sim.Apps.Drivers.Summary.Sums.{AreReports, files_of, AddsUp, summaries_add_up}

abbrev argv : List Bytes
argv = codes "--qps" ∷ codes "50" ∷ codes "--replace-ratio" ∷ codes "130" ∷ []

abbrev sim : OrderSim
sim = record order_defaults { qps = 50; replace_ratio = 100 }

argv_reads : order_options argv ≡ some sim
unfolding order_options each_known set_order atoi
argv_reads = refl

order_options_arrive_example :
    (client_options (client_args sim) ≡ record client_defaults { qps = 50; replace_ratio = 100 })
    × (gateway_options (gateway_args sim)
        ≡ record { server_drop_at_s = 0; backpressure_threshold = 0; trace_every = 0 })
order_options_arrive_example = order_options_arrive argv sim argv_reads

printed : to_string 1205 ≡ codes "1205"
unfolding to_string
printed = refl

-- Rates in hundredths, written as numbers.
abbrev hundredths : Doubles
hundredths = record {
  Double = ℕ;
  zero_double = 0;
  atof = λ s. 0;
  print = to_string;
  clamp = λ x. x;
}

-- The second of three subscribers cannot be started.
market_children_end_example :
    alive
      (market_main hundredths
        (codes "--subscribers" ∷ codes "3" ∷ [])
        300
        (λ i. if i == 1 then none else some (301 + i))
        (some 310)).1
      []
    ≡ []
market_children_end_example =
    market_children_end hundredths (codes "--subscribers" ∷ codes "3" ∷ []) 300
      (λ i. if i == 1 then none else some (301 + i)) (some 310)

abbrev report : (id latency : ℕ) → Report
report id latency = record {
  id = id;
  recv_total = 40;
  gaps = 2;
  reorder_events = 1;
  max_reorder_depth = 1;
  latency_p50_us = 80;
  latency_p99_us = 90;
  latency_p999_us = 95;
  latency_max_us = latency;
}

report-IsReport : IsReport (report 0 95)
report-IsReport = ground arith

two-AreReports : AreReports (report 0 95 ∷ report 1 120 ∷ [])
two-AreReports = ground arith

summaries_add_up_example :
    AddsUp
      (add_files (files_of (report 0 95 ∷ report 1 120 ∷ [])) no_totals)
      (report 0 95 ∷ report 1 120 ∷ [])
summaries_add_up_example = summaries_add_up (report 0 95) (report 1 120 ∷ []) two-AreReports

-- 30 percent of four subscribers are two.
slow_ones : (is_slow 1 4 30 ≡ true) × (is_slow 2 4 30 ≡ false)
unfolding is_slow
slow_ones = (refl, refl)
