-- ===== src/Apps/Gateway.antt =====
-- apps/order_tcp/order_gateway.cpp: the event loop of `main`. What the system answers comes from a `Host`;
-- the text that is printed is left out, and a block of the pool of acknowledgements is taken to be large
-- enough for the frame.
pub mod Frames
pub mod Rounds
pub mod Orders
pub mod Acceptance
pub mod Closing
pub mod Sound
pub mod Inv
pub mod Drain
pub mod Service
pub mod Steady
mod Tests
mod ServiceTests
use usn_hft_sim.Base.{
  ℕ, zero, suc, ◌+◌, max, Bool, true, false, not, ◌&&◌, ◌||◌, Option, none, some, List, [], ◌∷◌,
  ◌++◌, length, ltb, leb, ◌==◌, if◌then◌else◌, u16, u32, u64,
}
use usn_hft_sim.Base.Ints.{ℤ, pos, negsuc, eagain, is_negative}
use usn_hft_sim.Base.Maps
use usn_hft_sim.Core.Packet.{Packet, of_buffer, blank}
use usn_hft_sim.Core.Ring.{PacketRing, try_push, try_pop, size}
use usn_hft_sim.Core.Tracing.{Tracer, should_emit}
use usn_hft_sim.Io.Status.{UnifiedIoStatus, UnifiedIoResult, LoopControl, classify_loop_control}
use usn_hft_sim.Tcp.Types.{TcpState, is, TcpHeader, has_ack, has_fin, TcpConnection, new_connection}
use usn_hft_sim.Tcp.Wire.{parse, is_malformed_header, create_data, create_ack, create_fin}
use usn_hft_sim.Tcp.StateMachine.{handle_incoming, initiate_close}
use usn_hft_sim.Tcp.Reassembly.{
  Buffer, Segment, fresh, insert, pop_contiguous, hole_count, total_hole_bytes,
}
use usn_hft_sim.Apps.Messages.{
  OrderRequest, OrderAck, order_request_size, order_request_of, order_ack_bytes, action_new,
  action_cancel, action_replace,
}

pub record ConnectionContext : Type 0 where
  pub tcp : TcpConnection
  pub reassembly : Buffer

-- The counters that the loop prints.
pub record Metrics : Type 0 where
  pub req_recv_total : ℕ
  pub ack_sent_total : ℕ
  pub reject_total : ℕ
  pub backpressure_hits : ℕ
  pub reorder_buffered_total : ℕ
  pub reorder_replayed_total : ℕ
  pub reorder_hole_events : ℕ
  pub reorder_hole_peak : ℕ
  pub reorder_hole_bytes_peak : ℕ
  pub accept_failures : ℕ
  pub unexpected_disconnects : ℕ
  pub keepalive_recv_total : ℕ
  pub active_conn_peak : ℕ

abbrev pub bump : ℕ → ℕ
bump n = u64 (n + 1)

-- A call that the system sees, in order: a frame that is written, a descriptor that is taken out of
-- the epoll set and closed, and one that is closed at once.
pub data Event : Type 0 where
  wrote : (fd : ℕ) → (frame : List ℕ) → Event
  removed : (fd : ℕ) → Event
  refused : (fd : ℕ) → Event

pub record Gateway : Type 0 where
  pub conn_ctx : List (ℕ × ConnectionContext)
  pub live_orders : List ℕ
  pub req_ring : PacketRing
  pub tracer : Tracer
  pub metrics : Metrics
  pub events : List Event

-- The bytes that a packet points to, what `write` answers after the events so far, whether the time
-- of `server_drop_at_s` has come then, and the option `backpressure_threshold`.
pub record Host : Type 0 where
  pub memory : Packet → List ℕ
  pub write_to : List Event → ℕ → List ℕ → ℤ
  pub must_drop : List Event → Bool
  pub backpressure_threshold : ℕ

-- A context and the gateway around it.
abbrev pub Working : Type 0
Working = ConnectionContext × Gateway

-- `nw == static_cast<ssize_t>(len)`
abbrev pub wrote_all : ℤ → ℕ → Bool
wrote_all (pos n) len = n == len
wrote_all (negsuc n) len = false

-- Whether the request is accepted, and the live orders.
unfoldable pub apply_order : OrderRequest → List ℕ → Bool × List ℕ
apply_order req live =
    if req.action == action_new
    then (true, Maps.add req.client_order_id live)
    else if req.action == action_cancel
    then (Maps.mem req.target_order_id live, Maps.remove req.target_order_id live)
    else if req.action == action_replace
    then (Maps.mem req.target_order_id live, live)
    else (true, live)

unfoldable pub order_ack_for : OrderRequest → Bool → OrderAck
order_ack_for req accepted = record {
  client_order_id = req.client_order_id;
  server_order_id = u64 (req.client_order_id + 1000000);
  accepted = accepted;
}

-- The write of the acknowledgement and its accounting.
unfoldable pub send_order_ack : Host → (fd : ℕ) → List ℕ → Gateway → Gateway
send_order_ack h fd frame g =
    let m : Metrics = g.metrics in
    if wrote_all (h.write_to g.events fd frame) (length frame)
    then record g {
      metrics = record m { ack_sent_total = bump m.ack_sent_total };
      tracer = (should_emit g.tracer).1;
      events = g.events ++ wrote fd frame ∷ [];
    }
    else record g {
      metrics = record m { unexpected_disconnects = bump m.unexpected_disconnects };
      events = g.events ++ wrote fd frame ∷ [];
    }

-- The counters of a request.
unfoldable pub count_request : Host → PacketRing → (accepted : Bool) → Metrics → Metrics
count_request h ring accepted m = record m {
  req_recv_total = bump m.req_recv_total;
  reject_total = if accepted then m.reject_total else bump m.reject_total;
  backpressure_hits =
      if ltb 0 h.backpressure_threshold && leb h.backpressure_threshold (size ring)
      then bump m.backpressure_hits
      else m.backpressure_hits;
}

unfoldable pub process_order_payload : Host → (fd : ℕ) → List ℕ → Working → Working
process_order_payload h fd payload (ctx, g) =
    let req : OrderRequest = order_request_of payload in
    let tcp : TcpConnection = record ctx.tcp {
      recv_seq = u32 (ctx.tcp.recv_seq + u32 (length payload));
    } in
    let ordered : Bool × List ℕ = apply_order req g.live_orders in
    let frame : List ℕ = create_data tcp (order_ack_bytes (order_ack_for req ordered.0)) in
    let g' : Gateway = record g {
      live_orders = ordered.1;
      metrics = count_request h g.req_ring ordered.0 g.metrics;
    } in
    if ltb (length payload) order_request_size
    then (ctx, g)
    else (record ctx { tcp = tcp }, send_order_ack h fd frame g')
