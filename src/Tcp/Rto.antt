-- ===== src/Tcp/Rto.antt =====
-- `TcpRtoEstimator` of include/usn/protocol/tcp_retransmission.hpp, in milliseconds.
pub mod Bounds
mod Tests
use usn_hft_sim.Base.{ℕ, ◌+◌, ◌-◌, ◌*◌, ◌/◌, max, Bool, true, false, ltb, ◌==◌, if◌then◌else◌, u64}

pub record Estimator : Type 0 where
  pub initialized : Bool
  pub srtt_ms : ℕ
  pub rttvar_ms : ℕ
  pub rto_ms : ℕ

abbrev pub min_rto_ms : ℕ
min_rto_ms = 50

abbrev pub max_rto_ms : ℕ
max_rto_ms = 5000

abbrev pub fresh : Estimator
fresh = record { initialized = false; srtt_ms = 200; rttvar_ms = 100; rto_ms = 300 }

-- The smoothed values, before the timeout is computed.
unfoldable pub smooth : Estimator → ℕ → Estimator
smooth s rtt =
    if s.initialized
    then (let delta = if ltb rtt s.srtt_ms then s.srtt_ms - rtt else rtt - s.srtt_ms in
        record s {
          rttvar_ms = u64 (3 * s.rttvar_ms + delta) / 4;
          srtt_ms = u64 (7 * s.srtt_ms + rtt) / 8;
        })
    else record s { srtt_ms = rtt; rttvar_ms = rtt / 2; initialized = true }

unfoldable pub clamp : ℕ → ℕ
clamp candidate =
    let raised = if ltb candidate min_rto_ms then min_rto_ms else candidate in
    if ltb max_rto_ms raised then max_rto_ms else raised

unfoldable pub sample_rtt : Estimator → ℕ → Estimator
unfolding smooth clamp
sample_rtt s rtt_ms =
    let s' = smooth s (if rtt_ms == 0 then 1 else rtt_ms) in
    record s' { rto_ms = clamp (u64 (s'.srtt_ms + max 1 (u64 (4 * s'.rttvar_ms)))) }
