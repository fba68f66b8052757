-- ===== src/Apps/Feed/Tests.antt =====
-- Four rounds of the publisher, and a subscriber that hears its two datagrams in the other order.
use usn_hft_sim.Base.{
  ◌+◌, ◌≤◌, ◌≡◌, refl, arith, true, false, List, [], ◌∷◌, length, ◌==◌, if◌then◌else◌,
}
use mathlib.Core.List.{Permᴰ}
use usn_hft_sim.Base.Ints.{pos}
use usn_hft_sim.Core.Packet.{blank, of_buffer}
use usn_hft_sim.Udp.Feedback.{fresh}
use usn_hft_sim.Udp.Wire.{encapsulate}
use usn_hft_sim.Apps.Messages.{MarketDataIncrement, increment_bytes}
use usn_hft_sim.Apps.Publisher.{
  Options, at_start, Draw, next_increment, datagram, Socket, swap_last, flush, publish, run,
}
use usn_hft_sim.Apps.Publisher.Delivery.{TakesAll}
use usn_hft_sim.Apps.Subscriber.{Subscriber, Host}
use usn_hft_sim.Apps.Subscriber.Feed.{Arrival, process_all}
use usn_hft_sim.Apps.Feed.{messages, feed_accounts}

abbrev options : Options
options = record { payload_size = 64; streams = 2 }

-- The second message is dropped, and the third overtakes the first.
abbrev draws : List Draw
draws =
    record { now_ns = 100; drops = false; reorders = false }
    ∷ record { now_ns = 200; drops = true; reorders = false }
    ∷ record { now_ns = 300; drops = false; reorders = true }
    ∷ record { now_ns = 400; drops = false; reorders = false }
    ∷ []

abbrev takes_all : Socket
takes_all sent d = pos (length d)

takes_all-TakesAll : TakesAll takes_all
takes_all-TakesAll sent d = refl

abbrev first : MarketDataIncrement
first = next_increment options 1 100

abbrev third : MarketDataIncrement
third = next_increment options 3 300

abbrev host : Host
host = record {
  memory = λ p. if p.ptr == 1 then datagram options first else datagram options third;
  now_ns = λ p. 9000;
}

abbrev arrivals : List Arrival
arrivals =
    record { pkt = of_buffer 1 72 0; message = first }
    ∷ record { pkt = of_buffer 3 72 0; message = third }
    ∷ []

abbrev subscriber : Subscriber
subscriber = record {
  ring = record {
    capacity = 2;
    mask = 1;
    write_pos = 0;
    read_pos = 0;
    packets = blank ∷ blank ∷ [];
  };
  tracer = record { enabled = false; sample_every = 1; counter = 0 };
  feedback = fresh;
  latency_us_samples = [];
}

two_are_sent : (run options takes_all draws at_start).1.sent ≡ third ∷ first ∷ []
unfolding run publish flush swap_last datagram encapsulate increment_bytes next_increment
two_are_sent = refl

both_arrive : Permᴰ (run options takes_all draws at_start).1.sent (messages arrivals)
both_arrive = rw two_are_sent (Permᴰ.swap refl refl)

feed_accounts_example :
    let p = (run options takes_all draws at_start).1 in
    let f = (process_all host arrivals subscriber).feedback in
    (f.total + length p.reorder_q + p.dropped_total ≡ 4)
    × (length p.reorder_q ≤ 1)
    × (f.gaps + 1 + f.total ≡ f.expected_seq + f.reorder_events)
    × (f.expected_seq ≤ 5)
    × (f.gaps ≤ p.dropped_total + length p.reorder_q + f.reorder_events)
unfolding next_increment
feed_accounts_example =
    feed_accounts options takes_all draws host arrivals subscriber takes_all-TakesAll (omega arith)
      (omega arith) refl (ground arith, refl, omega arith, (ground arith, refl, omega arith, tt))
      both_arrive
