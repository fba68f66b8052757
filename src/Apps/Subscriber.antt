-- ===== src/Apps/Subscriber.antt =====
-- apps/market_udp/feed_subscriber.cpp: the handling of packets and the callback of the poller. What the
-- system and the clock answer is an input; the prints are left out. The loop is in Watch, the report in
-- Report.
pub mod Feed
pub mod Flag
pub mod Report
pub mod Join
pub mod Percentiles
pub mod Watch
mod Tests
use usn_hft_sim.Base.{
  ℕ, zero, suc, ◌+◌, ◌-◌, ◌/◌, Bool, true, false, not, ◌&&◌, ◌||◌, Option, none, some, List, [],
  ◌∷◌, ◌++◌, length, map, ltb, leb, if◌then◌else◌,
}
use usn_hft_sim.Base.Ints.{pos}
use usn_hft_sim.Core.Packet.{Packet, blank}
use usn_hft_sim.Core.Ring.{PacketRing, try_pop, size}
use usn_hft_sim.Core.Tracing.{Tracer, should_emit}
use usn_hft_sim.Io.Batch.{BatchIoOptions, BatchIoResult, Attempt, World, recv_batch}
use usn_hft_sim.Io.BusyPoll.{BusyPollConfig, Round, Loop, start_with_control}
use usn_hft_sim.Io.Status.{
  UnifiedIoStatus, UnifiedIoResult, LoopControl, stop, classify_loop_control, of_batch,
}
use usn_hft_sim.Udp.Wire.{UdpHeader, parse}
use usn_hft_sim.Udp.Feedback.{Feedback, observe}
use usn_hft_sim.Apps.Messages.{MarketDataIncrement, increment_of, increment_size}

pub record Subscriber : Type 0 where
  pub ring : PacketRing
  pub tracer : Tracer
  pub feedback : Feedback
  pub latency_us_samples : List ℕ

-- The bytes that a packet points to and the time when it is handled.
pub record Host : Type 0 where
  pub memory : Packet → List ℕ
  pub now_ns : Packet → ℕ

-- The message has been read.
unfoldable pub on_increment : (now_ns : ℕ) → MarketDataIncrement → Subscriber → Subscriber
on_increment now_ns m s =
    let observed : Subscriber = record s { feedback = observe s.feedback m.seq } in
    if leb m.send_ts_ns now_ns
    then record observed {
      latency_us_samples = s.latency_us_samples ++ ((now_ns - m.send_ts_ns) / 1000) ∷ [];
      tracer = (should_emit s.tracer).1;
    }
    else observed

unfoldable pub on_datagram : (now_ns : ℕ) → Option (UdpHeader × List ℕ) → Subscriber → Subscriber
on_datagram now_ns none s = s
on_datagram now_ns (some (header, payload)) s =
    if ltb (length payload) increment_size then s else on_increment now_ns (increment_of payload) s

unfoldable pub process_packet : Host → Packet → Subscriber → Subscriber
process_packet h pkt s = on_datagram (h.now_ns pkt) (parse (h.memory pkt)) s

-- The loop over the ring, whose size is enough fuel.
unfoldable pub drain : (fuel : ℕ) → Host → Subscriber → Subscriber
drain zero h s = s
drain (suc fuel) h s =
    let (found, pkt, ring) = try_pop s.ring blank in
    let rest = drain fuel h (process_packet h pkt (record s { ring = ring })) in
    if found then rest else s

-- What `g_running` holds when it is read, at the start of the callback and in `recv_batch`, and the
-- attempts of that.
pub record Turn : Type 0 where
  pub is_running : Bool
  pub running_before : Bool
  pub attempts : List Attempt
  pub running_after : Bool

-- What the callback returns, and whether it stops the poller and clears `g_running`.
pub record PollOutcome : Type 0 where
  pub has_data : Bool
  pub stops : Bool
  pub clears_running : Bool

abbrev pub batch_options : BatchIoOptions
batch_options = record { timeout_ms = pos 0; poll_interval_ms = pos 1 }

-- The cancel flag of the call is `g_running`.
abbrev pub world_of : Turn → World
world_of t = record {
  cancelled_before = t.running_before;
  attempts = t.attempts;
  cancelled_after = t.running_after;
}

abbrev pub is_sys_error : UnifiedIoStatus → Bool
is_sys_error UnifiedIoStatus.sys_error = true
is_sys_error s = false

abbrev pub is_cancelled : UnifiedIoStatus → Bool
is_cancelled UnifiedIoStatus.cancelled = true
is_cancelled s = false

abbrev pub is_stop : LoopControl → Bool
is_stop LoopControl.stop = true
is_stop c = false

unfoldable pub after_batch : Host → UnifiedIoResult → Subscriber → PollOutcome × Subscriber
after_batch h io s =
    let fetched = ltb 0 (size s.ring) || ltb 0 io.count in
    if is_sys_error io.status
    then (record { has_data = false; stops = true; clears_running = true }, s)
    else (if is_stop (classify_loop_control io) && not (is_cancelled io.status)
        then (record { has_data = false; stops = true; clears_running = false }, s)
        else (
          record { has_data = fetched; stops = false; clears_running = false },
          drain (size s.ring) h s,
        ))

-- The callback of the poller; `none` while `recv_batch` is running.
unfoldable pub poll_callback :
    (address : ℕ → ℕ) → Host → Turn → Subscriber → Option (PollOutcome × Subscriber)
poll_callback address h t s =
    if not t.is_running
    then some (record { has_data = false; stops = true; clears_running = false }, s)
    else elim (recv_batch address batch_options 16 (world_of t) s.ring) [
      | none ↦ none
      | some (result, ring) ↦ some (after_batch h (of_batch result) (record s { ring = ring }))
    ]

abbrev pub poll_config : BusyPollConfig
poll_config = record {
  poll_interval = 1000;
  max_idle_time = 100000;
  max_iterations = 1000;
  adaptive = true;
}

-- A round of the poller: the cancel flag of its control is `g_running`.
pub record Poll : Type 0 where
  pub is_stopped : Bool
  pub is_running : Bool
  pub has_data : Bool
  pub now_at_check : ℕ
  pub now_at_idle : ℕ
  pub now_after_sleep : ℕ

abbrev pub round_of : Poll → Round
round_of p = record {
  is_stopped = p.is_stopped;
  is_cancelled = p.is_running;
  now_at_check = p.now_at_check;
  has_data = p.has_data;
  now_at_idle = p.now_at_idle;
  now_after_sleep = p.now_after_sleep;
}
