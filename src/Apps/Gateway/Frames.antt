-- ===== src/Apps/Gateway/Frames.antt =====
-- The handling of a packet in the gateway.
use usn_hft_sim.Base.{
  ℕ, ◌+◌, max, Bool, not, ◌&&◌, ◌||◌, Option, none, some, List, [], ◌∷◌, ◌++◌, length, ltb, ◌==◌,
  if◌then◌else◌, u32, u64,
}
use usn_hft_sim.Base.Maps
use usn_hft_sim.Core.Packet.{Packet}
use usn_hft_sim.Tcp.Types.{TcpState, is, TcpHeader, has_ack, has_fin, TcpConnection}
use usn_hft_sim.Tcp.Wire.{parse, is_malformed_header, create_ack, create_fin}
use usn_hft_sim.Tcp.StateMachine.{handle_incoming, initiate_close}
use usn_hft_sim.Tcp.Reassembly.{
  Buffer, Segment, insert, pop_contiguous, hole_count, total_hole_bytes,
}
use usn_hft_sim.Apps.Gateway.{
  ConnectionContext, Metrics, bump, Gateway, Host, Working, process_order_payload, wrote, removed,
}

-- The segments that have become next, one after the other.
unfoldable pub replay : Host → (fd : ℕ) → List Segment → Working → Working
replay h fd [] w = w
replay h fd (s ∷ segments) w = replay h fd segments (process_order_payload h fd s.bytes w)

-- What follows the call of `pop_contiguous`, which always has a result.
unfoldable pub pop_and_replay :
    Host → (fd : ℕ) → Working → Option (ℕ × List Segment × Buffer) → Working
pop_and_replay h fd w none = w
pop_and_replay h fd (ctx, g) (some (replayed, segments, buffer)) =
    let m : Metrics = g.metrics in
    let popped : ConnectionContext = record ctx { reassembly = buffer } in
    let counted : Gateway = record g {
      metrics = record m { reorder_replayed_total = u64 (m.reorder_replayed_total + replayed) };
    } in
    if ltb 0 replayed then replay h fd segments (popped, counted) else (popped, g)

-- A frame with the next payload.
unfoldable pub on_next : Host → (fd : ℕ) → List ℕ → Working → Working
on_next h fd payload w =
    let done : Working = process_order_payload h fd payload w in
    pop_and_replay h fd done (pop_contiguous done.0.reassembly done.0.tcp.recv_seq)

-- A payload that is not the next: it is buffered.
unfoldable pub on_other : TcpHeader → List ℕ → Working → Working
on_other header payload (ctx, g) =
    let inserted : Bool × Buffer = insert ctx.reassembly header.seq_num (some payload) in
    let holes = hole_count inserted.1 ctx.tcp.recv_seq in
    let m : Metrics = g.metrics in
    if inserted.0
    then (
      record ctx { reassembly = inserted.1 },
      record g {
        metrics = record m {
          reorder_buffered_total = bump m.reorder_buffered_total;
          reorder_hole_events =
              if ltb 0 holes then bump m.reorder_hole_events else m.reorder_hole_events;
          reorder_hole_peak = max m.reorder_hole_peak holes;
          reorder_hole_bytes_peak =
              max m.reorder_hole_bytes_peak (total_hole_bytes inserted.1 ctx.tcp.recv_seq);
        };
      },
    )
    else (ctx, g)

abbrev pub emit_frame : (fd : ℕ) → List ℕ → Gateway → Gateway
emit_frame fd frame g = record g { events = g.events ++ wrote fd frame ∷ [] }

-- The answer to a FIN: an acknowledgement, and a FIN if the connection waits to be closed. What the
-- writes answer is only printed.
unfoldable pub answer_fin : (fd : ℕ) → TcpConnection → Gateway → TcpConnection × Gateway
answer_fin fd conn g =
    let acked : Gateway = emit_frame fd (create_ack conn conn.send_ack) g in
    let closing : Bool × TcpConnection = initiate_close conn in
    let conn' : TcpConnection = closing.1 in
    if is conn.state TcpState.close_wait && closing.0
    then (
      record conn' { send_seq = u32 (conn'.send_seq + 1) },
      emit_frame fd (create_fin conn') acked,
    )
    else (conn, acked)

abbrev pub close_connection : (fd : ℕ) → Gateway → Gateway
close_connection fd g = record g {
  conn_ctx = Maps.erase g.conn_ctx fd;
  events = g.events ++ removed fd ∷ [];
}

abbrev pub store : (fd : ℕ) → Working → Gateway
store fd (ctx, g) = record g { conn_ctx = Maps.update g.conn_ctx fd ctx }

unfoldable pub count_keepalive : TcpHeader → Gateway → Gateway
count_keepalive header g =
    let m : Metrics = g.metrics in
    if has_ack header && not (has_fin header)
    then record g { metrics = record m { keepalive_recv_total = bump m.keepalive_recv_total } }
    else g

unfoldable pub close_if_closed : (fd : ℕ) → TcpConnection → Gateway → Gateway
close_if_closed fd conn g = if is conn.state TcpState.closed then close_connection fd g else g

unfoldable pub answer : (fd : ℕ) → TcpHeader → TcpConnection → Gateway → TcpConnection × Gateway
answer fd header conn g = if has_fin header then answer_fin fd conn g else (conn, g)

-- A frame without a payload that carries a FIN or an acknowledgement.
unfoldable pub on_control : (fd : ℕ) → TcpHeader → Working → Gateway
on_control fd header (ctx, g) =
    let conn : TcpConnection = (handle_incoming ctx.tcp header 0).1 in
    let answered : TcpConnection × Gateway = answer fd header conn (count_keepalive header g) in
    close_if_closed fd answered.0 (store fd (record ctx { tcp = answered.0 }, answered.1))

-- A frame that has been parsed, on its connection.
unfoldable pub on_frame : (fd : ℕ) → Host → TcpHeader → List ℕ → Working → Gateway
on_frame fd h header payload w =
    if length payload == 0 && (has_fin header || has_ack header)
    then on_control fd header w
    else if ltb 0 (length payload) && not (header.seq_num == w.0.tcp.recv_seq)
    then store fd (on_other header payload w)
    else store fd (on_next h fd payload w)

-- A packet of a connection that is known.
unfoldable pub on_parsed :
    Host → (fd : ℕ) → ConnectionContext → Option (TcpHeader × List ℕ) → Gateway → Gateway
on_parsed h fd ctx none g = g
on_parsed h fd ctx (some (header, payload)) g =
    if is_malformed_header header then g else on_frame fd h header payload (ctx, g)

-- The body of the loop over the ring; the descriptor is in the field `port`.
unfoldable pub handle_packet : Host → Packet → Gateway → Gateway
handle_packet h pkt g =
    if h.must_drop g.events
    then close_connection pkt.port g
    else elim (Maps.find g.conn_ctx pkt.port) [
      | none ↦ g
      | some ctx ↦ on_parsed h pkt.port ctx (parse (h.memory pkt)) g
    ]
