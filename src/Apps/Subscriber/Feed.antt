-- ===== src/Apps/Subscriber/Feed.antt =====
-- What a subscriber makes of the datagrams of a publisher.
use usn_hft_sim.Base.{
  ℕ, ◌+◌, ◌-◌, ◌/◌, ◌≤◌, ◌<◌, ◌^◌, ◌≡◌, refl, ap, sym, ◌∙◌, arith, true, false, List, [], ◌∷◌, ◌++◌,
  length, length-append, length-replicate, replicate, ltb, leb,
}
use mathlib.Core.List.{append_assoc, append-nil}
use usn_hft_sim.Core.Packet.{Packet}
use usn_hft_sim.Udp.Wire.{parse}
use usn_hft_sim.Udp.Wire.Frame.{encapsulate_parses}
use usn_hft_sim.Udp.Feedback.{Feedback, observe}
use usn_hft_sim.Udp.Feedback.Account.{observe_all}
use usn_hft_sim.Apps.Messages.{MarketDataIncrement, increment_bytes, increment_size}
use usn_hft_sim.Apps.Messages.Layout.{IsIncrement, increment_reads_back, increment_bytes_size}
use usn_hft_sim.Apps.Publisher.{
  Options, payload_bytes, datagram, src_port, multicast_port, publisher_ip, group_ip,
}
use usn_hft_sim.Apps.Subscriber.{Subscriber, Host, on_increment, on_datagram, process_packet}

-- A publisher's datagram is read as its message.
datagram_is_read :
    (o : Options) (m : MarketDataIncrement) (now_ns : ℕ) (s : Subscriber)
    → IsIncrement m
    → payload_bytes o + 8 < 2 ^ 16
    → on_datagram now_ns (parse (datagram o m)) s ≡ on_increment now_ns m s
unfolding on_datagram datagram
datagram_is_read o m now_ns s v small =
    let padding : List ℕ = replicate (payload_bytes o - increment_size) 0 in
    let payload : List ℕ = increment_bytes m ++ padding in
    let size : length payload ≡ payload_bytes o =
      length-append (increment_bytes m) padding
      ∙ omega (
        arith,
        increment_bytes_size m,
        length-replicate {A = ℕ} (payload_bytes o - increment_size) 0,
      ) in
    let (h, parsed, _, _, _) =
      encapsulate_parses payload src_port multicast_port publisher_ip group_ip true (omega arith)
        (omega arith) (omega (arith, size)) in
    let long : ltb (length payload) increment_size ≡ false = ground (arith, size) in
    rw (parsed, long)
      (ap (λ (k : MarketDataIncrement). on_increment now_ns k s) (increment_reads_back m padding v))

-- A packet with the message whose datagram it points to.
pub record Arrival : Type 0 where
  pub pkt : Packet
  pub message : MarketDataIncrement

-- The message fits, its datagram is what the packet points to, and the clock has not gone back.
abbrev pub AreDatagrams : Host → Options → List Arrival → Type 0
AreDatagrams h o [] = Unit
AreDatagrams h o (a ∷ arrivals) =
    IsIncrement a.message
    × (h.memory a.pkt ≡ datagram o a.message)
    × (a.message.send_ts_ns ≤ h.now_ns a.pkt)
    × AreDatagrams h o arrivals

unfoldable pub process_all : Host → List Arrival → Subscriber → Subscriber
process_all h [] s = s
process_all h (a ∷ arrivals) s = process_all h arrivals (process_packet h a.pkt s)

abbrev pub seqs : List Arrival → List ℕ
seqs [] = []
seqs (a ∷ arrivals) = a.message.seq ∷ seqs arrivals

-- In microseconds.
abbrev pub latencies : Host → List Arrival → List ℕ
latencies h [] = []
latencies h (a ∷ arrivals) = (h.now_ns a.pkt - a.message.send_ts_ns) / 1000 ∷ latencies h arrivals

-- The subscriber after one message.
abbrev Heard : ℕ → ℕ → Subscriber → Subscriber → Type 0
Heard seq latency s s' =
    (s'.feedback ≡ observe s.feedback seq)
    × (s'.latency_us_samples ≡ s.latency_us_samples ++ latency ∷ [])

one-Heard :
    (now_ns : ℕ) (m : MarketDataIncrement) (s : Subscriber)
    → m.send_ts_ns ≤ now_ns
    → Heard m.seq ((now_ns - m.send_ts_ns) / 1000) s (on_increment now_ns m s)
unfolding on_increment
one-Heard now_ns m s h =
    let sane : leb m.send_ts_ns now_ns ≡ true = ground arith in rw sane (refl, refl)

packet-Heard :
    (h : Host) (o : Options) (pkt : Packet) (m : MarketDataIncrement) (s : Subscriber)
    → IsIncrement m
    → payload_bytes o + 8 < 2 ^ 16
    → h.memory pkt ≡ datagram o m
    → m.send_ts_ns ≤ h.now_ns pkt
    → Heard m.seq ((h.now_ns pkt - m.send_ts_ns) / 1000) s (process_packet h pkt s)
unfolding process_packet
packet-Heard h o pkt m s v small points sane =
    let read : on_datagram (h.now_ns pkt) (parse (h.memory pkt)) s
        ≡ on_increment (h.now_ns pkt) m s =
      ap (λ (bytes : List ℕ). on_datagram (h.now_ns pkt) (parse bytes) s) points
      ∙ datagram_is_read o m (h.now_ns pkt) s v small in
    let (feedback, samples) = one-Heard (h.now_ns pkt) m s sane in
    (
      ap (λ (k : Subscriber). k.feedback) read ∙ feedback,
      ap (λ (k : Subscriber). k.latency_us_samples) read ∙ samples,
    )

-- A subscriber that handles datagrams of a publisher, in whatever order and however often they come,
-- observes the number of each message in its feedback and records the latency of each, in the order in
-- which they come.
pub feed_is_heard :
    (h : Host) (o : Options) (arrivals : List Arrival) (s : Subscriber)
    → payload_bytes o + 8 < 2 ^ 16
    → AreDatagrams h o arrivals
    → let s' = process_all h arrivals s in
      (s'.feedback ≡ observe_all s.feedback (seqs arrivals))
      × (s'.latency_us_samples ≡ s.latency_us_samples ++ latencies h arrivals)
unfolding process_all observe_all
feed_is_heard h o [] s small v = (refl, sym (append-nil s.latency_us_samples))
feed_is_heard h o (a ∷ arrivals) s small (fits, points, sane, rest) =
    let s' : Subscriber = process_packet h a.pkt s in
    let (feedback, samples) = packet-Heard h o a.pkt a.message s fits small points sane in
    let (feedback', samples') = feed_is_heard h o arrivals s' small rest in
    (
      feedback' ∙ ap (λ (f : Feedback). observe_all f (seqs arrivals)) feedback,
      samples'
          ∙ ap (λ (l : List ℕ). l ++ latencies h arrivals) samples
          ∙ append_assoc s.latency_us_samples _ (latencies h arrivals),
    )
