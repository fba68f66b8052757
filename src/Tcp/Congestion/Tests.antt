-- ===== src/Tcp/Congestion/Tests.antt =====
-- The congestion window on small inputs.
use usn_hft_sim.Base.{◌≡◌, ◌≤◌, some, refl, arith}
use usn_hft_sim.Tcp.Congestion.{Controller, avoid, avoid_congestion, cap, on_ack}
use usn_hft_sim.Tcp.Congestion.Growth.{IsValid, on_ack-IsValid}

-- Past the threshold.
abbrev steady : Controller
steady = record {
  mss_bytes = 1000;
  cwnd_bytes = 8000;
  ssthresh_bytes = 8000;
  ca_accumulator_bytes = 7500;
}

steady-IsValid : IsValid steady
steady-IsValid = ground arith

grows_by_a_segment :
    on_ack steady 1000 ≡ some (record steady { cwnd_bytes = 9000; ca_accumulator_bytes = 500 })
unfolding on_ack avoid_congestion avoid cap
grows_by_a_segment = refl

on_ack-IsValid_example :
    (d : Controller) × (on_ack steady 9000 ≡ some d) × IsValid d × (8000 ≤ d.cwnd_bytes)
on_ack-IsValid_example = on_ack-IsValid {c = steady} 9000 steady-IsValid (omega arith)
