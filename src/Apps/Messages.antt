-- ===== src/Apps/Messages.antt =====
-- include/usn/apps/messages.hpp: the messages and their bytes in memory, in GCC layout on a little-endian
-- host, where the padding of a message made with `{}` is 0.
pub mod Layout
use usn_hft_sim.Base.{
  ℕ, ◌<◌, ◌^◌, Bool, true, false, not, List, [], ◌∷◌, ◌++◌, get_or, ◌==◌, if◌then◌else◌,
}
use usn_hft_sim.Wire.Order.{store32, store64, load32, load64}

-- The enumerators of `Side` and `OrderAction`, with the values that the byte holds.
abbrev pub side_buy : ℕ
side_buy = 1

abbrev pub side_sell : ℕ
side_sell = 2

abbrev pub action_new : ℕ
action_new = 1

abbrev pub action_cancel : ℕ
action_cancel = 2

abbrev pub action_replace : ℕ
action_replace = 3

pub record OrderRequest : Type 0 where
  pub client_order_id : ℕ
  pub target_order_id : ℕ
  pub instrument_id : ℕ
  pub action : ℕ
  pub side : ℕ
  pub price : ℕ
  pub quantity : ℕ
  pub send_ts_ns : ℕ

pub record OrderAck : Type 0 where
  pub client_order_id : ℕ
  pub server_order_id : ℕ
  pub accepted : Bool

pub record MarketDataIncrement : Type 0 where
  pub seq : ℕ
  pub stream_id : ℕ
  pub instrument_id : ℕ
  pub bid_price : ℕ
  pub bid_qty : ℕ
  pub ask_price : ℕ
  pub ask_qty : ℕ
  pub send_ts_ns : ℕ

-- `sizeof`
abbrev pub order_request_size : ℕ
order_request_size = 40

abbrev pub order_ack_size : ℕ
order_ack_size = 24

abbrev pub increment_size : ℕ
increment_size = 40

-- What `memcpy` copies out of a message.
unfoldable pub order_request_bytes : OrderRequest → List ℕ
order_request_bytes r =
    store64 r.client_order_id
    ++ (store64 r.target_order_id
        ++ (store32 r.instrument_id
            ++ (r.action
                ∷ r.side
                ∷ 0
                ∷ 0
                ∷ (store32 r.price ++ (store32 r.quantity ++ store64 r.send_ts_ns)))))

unfoldable pub order_ack_bytes : OrderAck → List ℕ
order_ack_bytes a =
    store64 a.client_order_id
    ++ (store64 a.server_order_id
        ++ ((if a.accepted then 1 else 0) ∷ 0 ∷ 0 ∷ 0 ∷ 0 ∷ 0 ∷ 0 ∷ 0 ∷ []))

unfoldable pub increment_bytes : MarketDataIncrement → List ℕ
increment_bytes m =
    store64 m.seq
    ++ (store32 m.stream_id
        ++ (store32 m.instrument_id
            ++ (store32 m.bid_price
                ++ (store32 m.bid_qty
                    ++ (store32 m.ask_price ++ (store32 m.ask_qty ++ store64 m.send_ts_ns))))))

-- What `memcpy` makes of the bytes.
unfoldable pub order_request_of : List ℕ → OrderRequest
order_request_of bytes = record {
  client_order_id = load64 bytes 0;
  target_order_id = load64 bytes 8;
  instrument_id = load32 bytes 16;
  action = get_or bytes 20 0;
  side = get_or bytes 21 0;
  price = load32 bytes 24;
  quantity = load32 bytes 28;
  send_ts_ns = load64 bytes 32;
}

unfoldable pub order_ack_of : List ℕ → OrderAck
order_ack_of bytes = record {
  client_order_id = load64 bytes 0;
  server_order_id = load64 bytes 8;
  accepted = not (get_or bytes 16 0 == 0);
}

unfoldable pub increment_of : List ℕ → MarketDataIncrement
increment_of bytes = record {
  seq = load64 bytes 0;
  stream_id = load32 bytes 8;
  instrument_id = load32 bytes 12;
  bid_price = load32 bytes 16;
  bid_qty = load32 bytes 20;
  ask_price = load32 bytes 24;
  ask_qty = load32 bytes 28;
  send_ts_ns = load64 bytes 32;
}
