-- ===== src/Apps/Gateway/Tests.antt =====
-- A gateway with one connection, over which a new order and a keepalive come.
use usn_hft_sim.Base.{
  ℕ, ◌+◌, ◌≡◌, refl, arith, true, false, none, some, List, [], ◌∷◌, ◌++◌, u32, u64,
}
use usn_hft_sim.Base.Ints.{pos}
use usn_hft_sim.Base.Maps
use usn_hft_sim.Core.Packet.{Packet, blank}
use usn_hft_sim.Core.Ring.{PacketRing}
use usn_hft_sim.Core.Ring.Inv.{IsValid}
use usn_hft_sim.Tcp.Types.{has_ack, TcpHeader, TcpConnection, new_connection}
use usn_hft_sim.Tcp.Wire.{is_malformed_header, parse, create_data}
use usn_hft_sim.Tcp.Wire.ReadBack.{IsEndpoint}
use usn_hft_sim.Tcp.StateMachine.{create_keepalive}
use usn_hft_sim.Tcp.Reassembly.{fresh}
use usn_hft_sim.Apps.Messages.{
  OrderRequest, order_request_bytes, order_ack_of, action_new, side_buy,
}
use usn_hft_sim.Apps.Messages.Layout.{IsRequest}
use usn_hft_sim.Apps.Gateway.{ConnectionContext, Metrics, Gateway, Host, wrote, removed}
use usn_hft_sim.Apps.Gateway.Frames.{handle_packet}
use usn_hft_sim.Apps.Gateway.Rounds.{on_accept}
use usn_hft_sim.Apps.Gateway.Sound.{IsSound}
use usn_hft_sim.Apps.Gateway.Closing.{keepalive_closes}
use usn_hft_sim.Apps.Gateway.Orders.{advanced}
use usn_hft_sim.Apps.Gateway.Acceptance.{is_acceptable, is_live_after, order_is_answered}

abbrev client : TcpConnection
client = record new_connection { local_port = 9101; remote_port = 9000; send_seq = 1; recv_seq = 1 }

abbrev server : TcpConnection
server = record new_connection { local_port = 9000; remote_port = 9101; send_seq = 1; recv_seq = 1 }

client-IsEndpoint : IsEndpoint client
client-IsEndpoint = ground arith

server-IsEndpoint : IsEndpoint server
server-IsEndpoint = ground arith

abbrev new_order : OrderRequest
new_order = record {
  client_order_id = 7;
  target_order_id = 0;
  instrument_id = 10001;
  action = action_new;
  side = side_buy;
  price = 100008;
  quantity = 1;
  send_ts_ns = 5000;
}

new_order-IsRequest : IsRequest new_order
new_order-IsRequest = ground arith

abbrev context : ConnectionContext
context = record { tcp = server; reassembly = fresh }

-- The descriptor 5 and 64 bytes of data.
abbrev pkt : Packet
pkt = record blank { ptr = 4096; len = 64; port = 5 }

abbrev ring : PacketRing
ring = record {
  capacity = 4;
  mask = 3;
  write_pos = 2;
  read_pos = 1;
  packets = blank ∷ pkt ∷ blank ∷ blank ∷ [];
}

ring-IsValid : IsValid ring
ring-IsValid = record {
  exponent = 2;
  power = refl;
  small = omega arith;
  masked = refl;
  storage = refl;
  ordered = omega arith;
  bounded = omega arith;
  fits = omega arith;
}

abbrev at_start : Metrics
at_start = record {
  req_recv_total = 0;
  ack_sent_total = 0;
  reject_total = 0;
  backpressure_hits = 0;
  reorder_buffered_total = 0;
  reorder_replayed_total = 0;
  reorder_hole_events = 0;
  reorder_hole_peak = 0;
  reorder_hole_bytes_peak = 0;
  accept_failures = 0;
  unexpected_disconnects = 0;
  keepalive_recv_total = 0;
  active_conn_peak = 1;
}

abbrev gateway : Gateway
gateway = record {
  conn_ctx = (5, context) ∷ [];
  live_orders = 3 ∷ [];
  req_ring = ring;
  tracer = record { enabled = false; sample_every = 1; counter = 0 };
  metrics = at_start;
  events = [];
}

gateway-IsSound : IsSound gateway
gateway-IsSound = ((record { sorted = tt; counted = refl }, tt), (refl, tt))

-- Every packet points to the bytes given, and every write takes 44 bytes.
abbrev host : List ℕ → Host
host bytes = record {
  memory = λ p. bytes;
  write_to = λ events fd frame. pos 44;
  must_drop = λ events. false;
  backpressure_threshold = 0;
}

abbrev with_order : Host
with_order = host (create_data client (order_request_bytes new_order))

order_is_answered_example :
    let g' = handle_packet with_order pkt gateway in
    (Maps.mem 3 g'.live_orders ≡ is_live_after new_order (3 ∷ []) 3)
    × (g'.conn_ctx ≡ Maps.update ((5, context) ∷ []) 5 (advanced context))
    × (frame : List ℕ) × (g'.events ≡ [] ++ wrote 5 frame ∷ [])
    × (header : TcpHeader) × (payload : List ℕ) × (parse frame ≡ some (header, payload))
    × (header.seq_num ≡ 1)
    × (header.ack_num ≡ u32 (1 + 40))
    × (order_ack_of payload ≡ record {
      client_order_id = new_order.client_order_id;
      server_order_id = u64 (new_order.client_order_id + 1000000);
      accepted = is_acceptable new_order (3 ∷ []);
    })
    × (is_malformed_header header ≡ false)
    × (has_ack header ≡ true)
order_is_answered_example =
    order_is_answered with_order pkt client new_order context gateway 3 client-IsEndpoint
      server-IsEndpoint new_order-IsRequest refl refl refl refl refl

keepalive_closes_example :
    let g' =
      handle_packet
        (host (create_keepalive client))
        (record pkt { port = 6 })
        (on_accept (some (6, 9101)) true gateway) in
    (Maps.find g'.conn_ctx 6 ≡ none) × (g'.events ≡ [] ++ removed 6 ∷ [])
keepalive_closes_example =
    keepalive_closes (host (create_keepalive client)) (record pkt { port = 6 }) client 9101 gateway
      client-IsEndpoint refl refl refl
