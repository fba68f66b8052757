-- ===== src/Apps/Client/Tests.antt =====
-- A client that sends one order to a gateway.
use usn_hft_sim.Base.{
  ℕ, ◌*◌, ◌≤◌, ◌≡◌, min, refl, arith, true, false, List, [], ◌∷◌, ◌++◌, length, some,
}
use usn_hft_sim.Base.Ints.{pos}
use usn_hft_sim.Base.Maps
use usn_hft_sim.Core.Packet.{Packet, blank}
use usn_hft_sim.Core.Ring.{PacketRing}
use usn_hft_sim.Tcp.Types.{TcpConnection, new_connection}
use usn_hft_sim.Tcp.Wire.{create_data}
use usn_hft_sim.Tcp.Wire.ReadBack.{IsEndpoint}
use usn_hft_sim.Tcp.Reassembly.{fresh}
use usn_hft_sim.Tcp.Rto
use usn_hft_sim.Tcp.StateMachine
use usn_hft_sim.Tcp.Congestion
use usn_hft_sim.Apps.Messages.{OrderRequest, order_request_bytes, action_new, side_buy}
use usn_hft_sim.Apps.Messages.Layout.{IsRequest}
use usn_hft_sim.Apps.Gateway
use usn_hft_sim.Apps.Gateway.{ConnectionContext, Metrics, Gateway, Host}
use usn_hft_sim.Apps.Gateway.Frames.{handle_packet}
use usn_hft_sim.Apps.Client.{Stats, Client, Socket, may_send, send_request}
use usn_hft_sim.Apps.Client.Answers.{on_ack_frame}
use usn_hft_sim.Apps.Client.Lifecycle.{Session, active, reconnect}
use usn_hft_sim.Apps.Client.Reconnect.{reconnected_is_unheard}
use usn_hft_sim.Apps.Gateway.Rounds.{on_accept}
use usn_hft_sim.Apps.Client.Window.{sends_within_window}
use usn_hft_sim.Apps.Client.Settled.{IsIdle, exchange_settles}

abbrev pub client : TcpConnection
client = record new_connection { local_port = 9101; remote_port = 9000; send_seq = 1; recv_seq = 1 }

abbrev pub server : TcpConnection
server = record new_connection { local_port = 9000; remote_port = 9101; send_seq = 1; recv_seq = 1 }

client-IsEndpoint : IsEndpoint client
client-IsEndpoint = ground arith

server-IsEndpoint : IsEndpoint server
server-IsEndpoint = ground arith

abbrev pub new_order : OrderRequest
new_order = record {
  client_order_id = 7;
  target_order_id = 0;
  instrument_id = 10001;
  action = action_new;
  side = side_buy;
  price = 100008;
  quantity = 1;
  send_ts_ns = 5000;
}

new_order-IsRequest : IsRequest new_order
new_order-IsRequest = ground arith

abbrev context : ConnectionContext
context = record { tcp = server; reassembly = fresh }

-- The descriptor 5 and 64 bytes of data.
abbrev pkt : Packet
pkt = record blank { ptr = 4096; len = 64; port = 5 }

abbrev ring : PacketRing
ring = record {
  capacity = 4;
  mask = 3;
  write_pos = 2;
  read_pos = 1;
  packets = blank ∷ pkt ∷ blank ∷ blank ∷ [];
}

abbrev at_start : Metrics
at_start = record {
  req_recv_total = 0;
  ack_sent_total = 0;
  reject_total = 0;
  backpressure_hits = 0;
  reorder_buffered_total = 0;
  reorder_replayed_total = 0;
  reorder_hole_events = 0;
  reorder_hole_peak = 0;
  reorder_hole_bytes_peak = 0;
  accept_failures = 0;
  unexpected_disconnects = 0;
  keepalive_recv_total = 0;
  active_conn_peak = 1;
}

abbrev gateway : Gateway
gateway = record {
  conn_ctx = (5, context) ∷ [];
  live_orders = 3 ∷ [];
  req_ring = ring;
  tracer = record { enabled = false; sample_every = 1; counter = 0 };
  metrics = at_start;
  events = [];
}

-- Every packet points to the bytes given, and every write takes 44 bytes.
abbrev host : List ℕ → Host
host bytes = record {
  memory = λ p. bytes;
  write_to = λ events fd frame. pos 44;
  must_drop = λ events. false;
  backpressure_threshold = 0;
}

abbrev pub stats : Stats
stats = record {
  req_sent_total = 0;
  ack_recv_total = 0;
  ack_timeout_total = 0;
  send_blocked_total = 0;
  retransmit_total = 0;
  retransmit_failed_total = 0;
  retransmit_drop_total = 0;
  keepalive_sent_total = 0;
  cwnd_blocked_total = 0;
  congestion_loss_total = 0;
  new_total = 0;
  cancel_total = 0;
  replace_total = 0;
  rtt_us_samples = [];
  rtt_new = [];
  rtt_cancel = [];
  rtt_replace = [];
}

abbrev pub sender : Client
sender = record {
  is_running = true;
  conn = client;
  order_id = 8;
  order_book_shadow = [];
  retrans_q = [];
  rto_estimator = Rto.fresh;
  cc = record {
    mss_bytes = 1200;
    cwnd_bytes = 1200;
    ssthresh_bytes = 9600;
    ca_accumulator_bytes = 0;
  };
  outstanding_segments = [];
  last_activity_ms = 0;
  tracer = record { enabled = false; sample_every = 1; counter = 0 };
  stats = stats;
  wrote = [];
}

abbrev pub takes_all : Socket
takes_all wrote frame = pos (length frame)

window_is_open : (may_send sender).0 ≡ true
unfolding may_send StateMachine.can_send Congestion.can_send
window_is_open = refl

sends_within_window_example :
    length (send_request takes_all 10 new_order sender).1.outstanding_segments * 40 ≤ min 1200 65535
sends_within_window_example =
    sends_within_window takes_all 10 new_order sender (omega arith) window_is_open

abbrev with_order : Host
with_order = host (create_data client (order_request_bytes new_order))

exchange_settles_example :
    let g' = handle_packet with_order pkt gateway in
    let c' = (send_request takes_all 10 new_order sender).1 in
    (ctx' : ConnectionContext) × (g'.conn_ctx ≡ Maps.update ((5, context) ∷ []) 5 ctx')
    × (frame : List ℕ) × (g'.events ≡ [] ++ Gateway.wrote 5 frame ∷ [])
    × IsIdle (on_ack_frame 900 11 new_order frame c')
    × ((on_ack_frame 900 11 new_order frame c').is_running ≡ true)
    × ((on_ack_frame 900 11 new_order frame c').conn.send_seq ≡ ctx'.tcp.recv_seq)
exchange_settles_example =
    exchange_settles with_order pkt context gateway takes_all 10 900 11 new_order sender
      client-IsEndpoint server-IsEndpoint new_order-IsRequest (λ wrote frame. refl) (refl, refl)
      refl refl refl refl refl

-- The client after one order.
abbrev later : TcpConnection
later = record client { send_seq = 41 }

later-IsEndpoint : IsEndpoint later
later-IsEndpoint = ground arith

abbrev pub session : Session
session = record {
  state = active;
  is_connected = true;
  client = record sender { conn = later };
  reconnect_total = 0;
}

reconnected_is_unheard_example :
    let h =
      host
        (create_data (reconnect true true session).1.client.conn (order_request_bytes new_order)) in
    let g' = handle_packet h (record pkt { port = 6 }) (on_accept (some (6, 9101)) true gateway) in
    (g'.events ≡ []) × (g'.live_orders ≡ 3 ∷ [])
reconnected_is_unheard_example =
    reconnected_is_unheard
      (host
        (create_data (reconnect true true session).1.client.conn (order_request_bytes new_order)))
      (record pkt { port = 6 }) 9101 gateway session new_order later-IsEndpoint (omega arith) refl
      refl refl
