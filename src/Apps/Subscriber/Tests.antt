-- ===== src/Apps/Subscriber/Tests.antt =====
-- A subscriber that hears two messages, the second of which came first.
use usn_hft_sim.Base.{
  ℕ, ◌+◌, ◌-◌, ◌*◌, ◌/◌, ◌≤◌, ◌≡◌, refl, arith, true, false, Option, some, List, [], ◌∷◌, ◌==◌,
  if◌then◌else◌,
}
use usn_hft_sim.Core.Packet.{blank, of_buffer}
use usn_hft_sim.Core.Ring.{PacketRing}
use usn_hft_sim.Io.Batch.{transferred}
use usn_hft_sim.Udp.Feedback.{fresh}
use usn_hft_sim.Apps.Messages.{MarketDataIncrement}
use usn_hft_sim.Apps.Publisher.{Options, datagram}
use usn_hft_sim.Apps.Subscriber.{Subscriber, Host, Turn}
use usn_hft_sim.Apps.Subscriber.Feed.{Arrival}
use usn_hft_sim.Apps.Subscriber.Report.{Indices, report_of}
use usn_hft_sim.Apps.Subscriber.Percentiles.{AllTo, percentiles_in_order}
use usn_hft_sim.Apps.Subscriber.Report.{summary_line}
use usn_hft_sim.Apps.Subscriber.Join.{JoinAnswers, create_and_join_multicast}
use usn_hft_sim.Apps.Subscriber.Watch.{Look, subscriber_main}
use usn_hft_sim.Apps.Subscriber.Flag.{empty_report, nothing_is_received}
use usn_hft_sim.Apps.CommandLine.{SubscriberOptions}
use usn_hft_sim.Base.Text.{codes}

abbrev options : Options
options = record { payload_size = 64; streams = 1 }

abbrev message : (seq : ℕ) → MarketDataIncrement
message seq = record {
  seq = seq;
  stream_id = 0;
  instrument_id = 10001;
  bid_price = 100000;
  bid_qty = 10;
  ask_price = 100010;
  ask_qty = 10;
  send_ts_ns = 1000 * seq;
}

abbrev host : Host
host = record {
  memory = λ p. if p.ptr == 1 then datagram options (message 1) else datagram options (message 2);
  now_ns = λ p. 9000;
}

abbrev arrivals : List Arrival
arrivals =
    record { pkt = of_buffer 2 72 0; message = message 2 }
    ∷ record { pkt = of_buffer 1 72 0; message = message 1 }
    ∷ []

abbrev ring : PacketRing
ring = record { capacity = 2; mask = 1; write_pos = 0; read_pos = 0; packets = blank ∷ blank ∷ [] }

abbrev at_start : Subscriber
at_start = record {
  ring = ring;
  tracer = record { enabled = false; sample_every = 1; counter = 0 };
  feedback = fresh;
  latency_us_samples = [];
}

-- Two datagrams are there for the taking.
abbrev turn : Turn
turn = record {
  is_running = true;
  running_before = true;
  attempts =
      record { reply = transferred (72 ∷ 72 ∷ []); is_cancelled = true; poll_errno = Option.none }
      ∷ [];
  running_after = true;
}

abbrev indices : Indices
indices = record { p50 = λ last. last / 2; p99 = λ last. last - 1; p999 = λ last. last }

percentiles_in_order_example :
    let r = report_of indices 4 fresh (9 ∷ 3 ∷ 7 ∷ []) in
    (r.latency_p50_us ≤ r.latency_p99_us)
    × (r.latency_p99_us ≤ r.latency_p999_us)
    × (r.latency_p999_us ≤ r.latency_max_us)
    × AllTo r.latency_max_us (9 ∷ 3 ∷ 7 ∷ [])
percentiles_in_order_example =
    percentiles_in_order indices 4 fresh 9 (3 ∷ 7 ∷ []) (omega arith) (omega arith) (omega arith)

abbrev joined : JoinAnswers
joined = record { fd = some 5; is_bound = true; joins = true }

abbrev with_file : SubscriberOptions
with_file = record {
  subscriber_id = 3;
  artificial_delay_ms = 0;
  trace_every = 0;
  summary_file = codes "/tmp/s";
}

abbrev look : Look
look = record {
  is_running = false;
  turn = record turn { is_running = false };
  now_at_idle = 60;
  now_after_sleep = 70;
}

nothing_is_received_example :
    subscriber_main indices with_file joined (λ i. i + 1) host 40 (look ∷ look ∷ []) true
    ≡ some (0, some (summary_line (empty_report 3)))
unfolding create_and_join_multicast
nothing_is_received_example =
    nothing_is_received indices with_file joined 5 (λ i. i + 1) host 40 look look [] 47
      (codes "tmp/s") refl (λ ends. ends) refl
