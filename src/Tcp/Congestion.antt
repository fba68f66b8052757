-- ===== src/Tcp/Congestion.antt =====
-- `TcpCongestionController` of include/usn/protocol/tcp_congestion.hpp. The `while` of `on_ack` runs on
-- fuel, `none` where that runs out; the accumulator plus one is enough.
pub mod Growth
mod Tests
use mathlib.Core.Option
use usn_hft_sim.Base.{
  ℕ, zero, suc, ◌+◌, ◌-◌, ◌*◌, ◌/◌, ◌^◌, max, min, Bool, true, false, Option, none, some, ltb, leb,
  ◌==◌, if◌then◌else◌, u32, u64,
}

pub record Controller : Type 0 where
  pub mss_bytes : ℕ
  pub cwnd_bytes : ℕ
  pub ssthresh_bytes : ℕ
  pub ca_accumulator_bytes : ℕ

abbrev pub max_cwnd_bytes : ℕ
max_cwnd_bytes = 2 ^ 20

unfoldable pub make : ℕ → Controller
make mss_bytes =
    let mss = if mss_bytes == 0 then 1200 else mss_bytes in
    record {
      mss_bytes = mss;
      cwnd_bytes = mss;
      ssthresh_bytes = u32 (8 * mss);
      ca_accumulator_bytes = 0;
    }

unfoldable pub can_send : Controller → (inflight_bytes payload_len peer_window : ℕ) → Bool
can_send c inflight_bytes payload_len peer_window =
    leb (u64 (inflight_bytes + payload_len)) (min c.cwnd_bytes peer_window)

-- `while (ca_accumulator_bytes_ >= cwnd_bytes_)`
unfoldable pub avoid : ℕ → Controller → Option Controller
avoid zero c = none
avoid (suc fuel) c =
    let again = avoid fuel (record c {
      ca_accumulator_bytes = c.ca_accumulator_bytes - c.cwnd_bytes;
      cwnd_bytes = u32 (c.cwnd_bytes + c.mss_bytes);
    }) in
    if leb c.cwnd_bytes c.ca_accumulator_bytes then again else some c

unfoldable pub cap : Controller → Controller
cap c = if ltb max_cwnd_bytes c.cwnd_bytes then record c { cwnd_bytes = max_cwnd_bytes } else c

-- The loop with the fuel that is enough for it.
unfoldable pub avoid_congestion : Controller → ℕ → Option Controller
unfolding avoid
avoid_congestion c acked_bytes =
    let acc = u32 (c.ca_accumulator_bytes + u32 acked_bytes) in
    avoid (suc acc) (record c { ca_accumulator_bytes = acc })

unfoldable pub on_ack : Controller → ℕ → Option Controller
unfolding cap avoid_congestion
on_ack c acked_bytes =
    if acked_bytes == 0
    then some c
    else (if ltb c.cwnd_bytes c.ssthresh_bytes
        then some (cap (record c { cwnd_bytes = u32 (c.cwnd_bytes + u32 acked_bytes) }))
        else Option.map cap (avoid_congestion c acked_bytes))

unfoldable pub on_loss : Controller → Controller
on_loss c = record c {
  ssthresh_bytes = max (u32 (2 * c.mss_bytes)) (c.cwnd_bytes / 2);
  cwnd_bytes = c.mss_bytes;
  ca_accumulator_bytes = 0;
}
