-- ===== src/Apps/Messages/Layout.antt =====
-- The messages come back from their bytes.
use usn_hft_sim.Base.{
  ℕ, ◌<◌, ◌^◌, ◌≡◌, refl, ap, Bool, true, false, List, ◌++◌, length, not, ◌==◌, if◌then◌else◌,
}
use usn_hft_sim.Wire.Order.{bytes32, bytes64}
use usn_hft_sim.Apps.Messages.{
  OrderRequest, OrderAck, MarketDataIncrement, order_request_size, order_ack_size, increment_size,
  order_request_bytes, order_ack_bytes, increment_bytes, order_request_of, order_ack_of,
  increment_of,
}

-- Every field fits its width.
pub record IsRequest (r : OrderRequest) : Type 0 where
  pub client_fits : r.client_order_id < 2 ^ 64
  pub target_fits : r.target_order_id < 2 ^ 64
  pub instrument_fits : r.instrument_id < 2 ^ 32
  pub action_fits : r.action < 2 ^ 8
  pub side_fits : r.side < 2 ^ 8
  pub price_fits : r.price < 2 ^ 32
  pub quantity_fits : r.quantity < 2 ^ 32
  pub time_fits : r.send_ts_ns < 2 ^ 64

pub record IsAck (a : OrderAck) : Type 0 where
  pub client_fits : a.client_order_id < 2 ^ 64
  pub server_fits : a.server_order_id < 2 ^ 64

pub record IsIncrement (m : MarketDataIncrement) : Type 0 where
  pub seq_fits : m.seq < 2 ^ 64
  pub stream_fits : m.stream_id < 2 ^ 32
  pub instrument_fits : m.instrument_id < 2 ^ 32
  pub bid_price_fits : m.bid_price < 2 ^ 32
  pub bid_qty_fits : m.bid_qty < 2 ^ 32
  pub ask_price_fits : m.ask_price < 2 ^ 32
  pub ask_qty_fits : m.ask_qty < 2 ^ 32
  pub time_fits : m.send_ts_ns < 2 ^ 64

pub request_reads_back :
    (r : OrderRequest) (rest : List ℕ)
    → IsRequest r
    → order_request_of (order_request_bytes r ++ rest) ≡ r
unfolding order_request_of order_request_bytes
request_reads_back r rest v = rw (
  bytes64 r.client_order_id v.client_fits,
  bytes64 r.target_order_id v.target_fits,
  bytes32 r.instrument_id v.instrument_fits,
  bytes32 r.price v.price_fits,
  bytes32 r.quantity v.quantity_fits,
  bytes64 r.send_ts_ns v.time_fits,
)

flag_reads_back : (b : Bool) → not ((if b then 1 else 0) == 0) ≡ b
flag_reads_back true = refl
flag_reads_back false = refl

pub ack_reads_back :
    (a : OrderAck) (rest : List ℕ) → IsAck a → order_ack_of (order_ack_bytes a ++ rest) ≡ a
unfolding order_ack_of order_ack_bytes
ack_reads_back a rest v =
    rw (bytes64 a.client_order_id v.client_fits, bytes64 a.server_order_id v.server_fits)
      (ap (λ (b : Bool). record a { accepted = b }) (flag_reads_back a.accepted))

pub increment_reads_back :
    (m : MarketDataIncrement) (rest : List ℕ)
    → IsIncrement m
    → increment_of (increment_bytes m ++ rest) ≡ m
unfolding increment_of increment_bytes
increment_reads_back m rest v = rw (
  bytes64 m.seq v.seq_fits,
  bytes32 m.stream_id v.stream_fits,
  bytes32 m.instrument_id v.instrument_fits,
  bytes32 m.bid_price v.bid_price_fits,
  bytes32 m.bid_qty v.bid_qty_fits,
  bytes32 m.ask_price v.ask_price_fits,
  bytes32 m.ask_qty v.ask_qty_fits,
  bytes64 m.send_ts_ns v.time_fits,
)

pub request_size : (r : OrderRequest) → length (order_request_bytes r) ≡ order_request_size
unfolding order_request_bytes
request_size r = refl

pub ack_size : (a : OrderAck) → length (order_ack_bytes a) ≡ order_ack_size
unfolding order_ack_bytes
ack_size a = refl

pub increment_bytes_size : (m : MarketDataIncrement) → length (increment_bytes m) ≡ increment_size
unfolding increment_bytes
increment_bytes_size m = refl
