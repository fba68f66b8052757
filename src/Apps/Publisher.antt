-- ===== src/Apps/Publisher.antt =====
-- apps/market_udp/feed_publisher.cpp: the loop of `main`. The clock, the random draws and the answers of
-- the socket are inputs; the memory pool, which hands out a block and takes it back at once, the prints
-- and the sleeps are left out.
pub mod Delivery
mod Tests
use usn_hft_sim.Base.{
  ℕ, zero, suc, ◌+◌, ◌-◌, ◌%◌, max, Bool, true, false, not, ◌&&◌, Option, none, some, List, [], ◌∷◌,
  ◌++◌, length, replicate, ltb, ◌==◌, if◌then◌else◌, u32, u64, sub_u64,
}
use usn_hft_sim.Base.Ints.{ℤ, pos, negsuc}
use usn_hft_sim.Udp.Wire.{encapsulate}
use usn_hft_sim.Apps.Messages.{MarketDataIncrement, increment_bytes, increment_size}

-- The command line: what is left of it in the loop.
pub record Options : Type 0 where
  pub payload_size : ℕ
  pub streams : ℕ

abbrev pub src_port : ℕ
src_port = 9001

abbrev pub multicast_port : ℕ
multicast_port = 9100

abbrev pub publisher_ip : ℕ
publisher_ip = 0x7f000001

abbrev pub group_ip : ℕ
group_ip = 0xef000001

abbrev pub payload_bytes : Options → ℕ
payload_bytes o = max o.payload_size increment_size

-- `sent` is what has gone out, oldest first.
pub record Publisher : Type 0 where
  pub seq : ℕ
  pub reorder_q : List MarketDataIncrement
  pub sent : List MarketDataIncrement
  pub sent_total : ℕ
  pub dropped_total : ℕ
  pub reordered_total : ℕ

abbrev pub at_start : Publisher
at_start = record {
  seq = 1;
  reorder_q = [];
  sent = [];
  sent_total = 0;
  dropped_total = 0;
  reordered_total = 0;
}

-- The inputs of a round: the time, and whether the two draws fall below their rates.
pub record Draw : Type 0 where
  pub now_ns : ℕ
  pub drops : Bool
  pub reorders : Bool

unfoldable pub next_increment : Options → (seq now_ns : ℕ) → MarketDataIncrement
next_increment o seq now_ns = record {
  seq = seq;
  stream_id = u32 (sub_u64 seq 1 % o.streams);
  instrument_id = 10001;
  bid_price = 100000;
  bid_qty = 10;
  ask_price = 100010;
  ask_qty = 10;
  send_ts_ns = now_ns;
}

-- The message at the start of a payload of zeros, in a datagram with a checksum.
unfoldable pub datagram : Options → MarketDataIncrement → List ℕ
datagram o m =
    encapsulate (increment_bytes m ++ replicate (payload_bytes o - increment_size) 0) src_port
      multicast_port publisher_ip group_ip true

-- `std::swap` of the last two entries.
unfoldable pub swap_last : List MarketDataIncrement → List MarketDataIncrement
swap_last [] = []
swap_last (a ∷ []) = a ∷ []
swap_last (a ∷ b ∷ []) = b ∷ a ∷ []
swap_last (a ∷ b ∷ c ∷ q) = a ∷ swap_last (b ∷ c ∷ q)

-- What the socket answers to a datagram, after the messages sent before.
abbrev pub Socket : Type 0
Socket = List MarketDataIncrement → List ℕ → ℤ

abbrev pub sent_all : ℤ → ℕ → Bool
sent_all (pos n) len = n == len
sent_all (negsuc n) len = false

-- The inner `while`: everything but the last entry is sent. The flag says whether `main` goes on.
unfoldable pub flush : Options → Socket → List MarketDataIncrement → Publisher → Bool × Publisher
flush o sendto [] p = (true, record p { reorder_q = [] })
flush o sendto (m ∷ []) p = (true, record p { reorder_q = m ∷ [] })
flush o sendto (m ∷ n ∷ q) p =
    let rest =
      flush o sendto (n ∷ q)
        (record p { sent = p.sent ++ m ∷ []; sent_total = u64 (p.sent_total + 1) }) in
    if sent_all (sendto p.sent (datagram o m)) (length (datagram o m))
    then rest
    else (false, record p { reorder_q = n ∷ q })

-- One round of the outer `while`.
unfoldable pub publish : Options → Socket → Draw → Publisher → Bool × Publisher
publish o sendto d p =
    let m : MarketDataIncrement = next_increment o p.seq d.now_ns in
    let next : Publisher = record p { seq = u64 (p.seq + 1) } in
    let queue : List MarketDataIncrement = p.reorder_q ++ m ∷ [] in
    if d.drops
    then (true, record next { dropped_total = u64 (p.dropped_total + 1) })
    else (if d.reorders && ltb 1 (length queue)
        then flush o sendto (swap_last queue)
            (record next { reordered_total = u64 (p.reordered_total + 1) })
        else flush o sendto queue next)

unfoldable pub run : Options → Socket → List Draw → Publisher → Bool × Publisher
run o sendto [] p = (true, p)
run o sendto (d ∷ draws) p =
    let (goes_on, p') = publish o sendto d p in
    let rest = run o sendto draws p' in if goes_on then rest else (false, p')

-- `main` behind the command line: `none` where there is no socket.
unfoldable pub publisher_main :
    (created : Bool) → Options → Socket → List Draw → Option (Bool × Publisher)
publisher_main created o sendto draws = if created then some (run o sendto draws at_start) else none
