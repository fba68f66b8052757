-- ===== src/Apps/Gateway/Orders.antt =====
-- An order on its way from a client to the gateway and back.
use usn_hft_sim.Base.{
  ℕ, ◌+◌, ◌≡◌, refl, ap, ap₂, sym, ◌∙◌, arith, Bool, false, some, List, [], ◌∷◌, ◌++◌, length, u32,
  true,
}
use usn_hft_sim.Base.Maps
use mathlib.Core.List.{append-nil}
use usn_hft_sim.Core.Packet.{Packet}
use usn_hft_sim.Tcp.Types.{TcpHeader, has_ack, has_fin, has_syn, TcpConnection, IsConnection}
use usn_hft_sim.Tcp.Wire.{parse, is_malformed_header, create_data, header_of}
use usn_hft_sim.Tcp.Wire.ReadBack.{IsEndpoint, frames_read_back}
use usn_hft_sim.Tcp.Reassembly.{Buffer, fresh, pop_contiguous, pop_loop, take_at}
use usn_hft_sim.Apps.Messages.{
  OrderRequest, OrderAck, order_request_bytes, order_request_of, order_ack_bytes, order_ack_of,
}
use usn_hft_sim.Apps.Messages.Layout.{IsRequest, request_reads_back, request_size, ack_reads_back}
use usn_hft_sim.Apps.Gateway.{
  ConnectionContext, Gateway, Host, wrote, Working, apply_order, order_ack_for, send_order_ack,
  count_request, process_order_payload,
}
use usn_hft_sim.Apps.Gateway.Frames.{
  on_next, pop_and_replay, store, on_frame, on_parsed, handle_packet,
}

-- The context after a request.
abbrev pub advanced : ConnectionContext → ConnectionContext
advanced ctx = record ctx { tcp = record ctx.tcp { recv_seq = u32 (ctx.tcp.recv_seq + 40) } }

abbrev pub answer : ConnectionContext → OrderRequest → Bool → List ℕ
answer ctx req accepted =
    create_data (advanced ctx).tcp (order_ack_bytes (order_ack_for req accepted))

send_keeps :
    (h : Host) (fd : ℕ) (frame : List ℕ) (g : Gateway)
    → let g' = send_order_ack h fd frame g in
      (g'.live_orders ≡ g.live_orders)
      × (g'.conn_ctx ≡ g.conn_ctx)
      × (g'.events ≡ g.events ++ wrote fd frame ∷ [])
unfolding send_order_ack
send_keeps h fd frame g = ground arith

process_payload :
    (h : Host) (fd : ℕ) (payload : List ℕ) (req : OrderRequest) (ctx : ConnectionContext)
    (g : Gateway)
    → length payload ≡ 40
    → order_request_of payload ≡ req
    → let w = process_order_payload h fd payload (ctx, g) in
      let ordered = apply_order req g.live_orders in
      (w.0 ≡ advanced ctx)
      × (w.1.live_orders ≡ ordered.1)
      × (w.1.conn_ctx ≡ g.conn_ctx)
      × (w.1.events ≡ g.events ++ wrote fd (answer ctx req ordered.0) ∷ [])
unfolding process_order_payload
process_payload h fd payload req ctx g size is_req =
    let g' : Gateway = record g {
      live_orders = (apply_order req g.live_orders).1;
      metrics = count_request h g.req_ring (apply_order req g.live_orders).0 g.metrics;
    } in
    let kept = send_keeps h fd (answer ctx req (apply_order req g.live_orders).0) g' in
    rw (size, is_req) (refl, kept.0, kept.1, kept.2)

pop_nothing : (seq : ℕ) → pop_contiguous fresh seq ≡ some (0, [], fresh)
unfolding pop_contiguous pop_loop take_at
pop_nothing seq = refl

-- A next payload with nothing buffered behind it.
next_alone :
    (h : Host) (fd : ℕ) (payload : List ℕ) (ctx : ConnectionContext) (g : Gateway)
    → (process_order_payload h fd payload (ctx, g)).0.reassembly ≡ fresh
    → on_next h fd payload (ctx, g) ≡ process_order_payload h fd payload (ctx, g)
unfolding on_next pop_and_replay
next_alone h fd payload ctx g e =
    let w : Working = process_order_payload h fd payload (ctx, g) in
    let popped : pop_contiguous w.0.reassembly w.0.tcp.recv_seq ≡ some (0, [], fresh) =
      ap (λ (b : Buffer). pop_contiguous b w.0.tcp.recv_seq) e ∙ pop_nothing w.0.tcp.recv_seq in
    ap (pop_and_replay h fd w) popped
    ∙ ap (λ (b : Buffer). (record w.0 { reassembly = b }, w.1)) (sym e)

data_frame :
    (h : Host) (fd : ℕ) (header : TcpHeader) (payload : List ℕ) (w : Working)
    → length payload ≡ 40
    → header.seq_num ≡ w.0.tcp.recv_seq
    → on_frame fd h header payload w ≡ store fd (on_next h fd payload w)
unfolding on_frame
data_frame h fd header payload w size next = ground arith

-- What the header of a frame of `create_data` says.
pub data_header :
    (got : TcpHeader) (c : TcpConnection)
    → record got { window = c.window_size; checksum = 0 }
      ≡ header_of c.local_port c.remote_port c.send_seq c.recv_seq 24 c.window_size
    → (got.seq_num ≡ c.send_seq)
      × (got.ack_num ≡ c.recv_seq)
      × (is_malformed_header got ≡ false)
      × (has_ack got ≡ true)
unfolding is_malformed_header has_syn has_ack has_fin
data_header got c e =
    let offset : got.data_offset ≡ 5 = ap (λ (h : TcpHeader). h.data_offset) e in
    let flags : got.flags ≡ 24 = ap (λ (h : TcpHeader). h.flags) e in
    (
      ap (λ (h : TcpHeader). h.seq_num) e,
      ap (λ (h : TcpHeader). h.ack_num) e,
      rw (offset, flags) refl,
      rw flags refl,
    )

pub handled :
    (h : Host) (pkt : Packet) (header : TcpHeader) (payload : List ℕ) (ctx : ConnectionContext)
    (g : Gateway)
    → h.must_drop g.events ≡ false
    → Maps.find g.conn_ctx pkt.port ≡ some ctx
    → parse (h.memory pkt) ≡ some (header, payload)
    → is_malformed_header header ≡ false
    → handle_packet h pkt g ≡ on_frame pkt.port h header payload (ctx, g)
unfolding handle_packet on_parsed
handled h pkt header payload ctx g stays found parsed well = rw (stays, found, parsed, well) refl

next_order :
    (h : Host) (fd : ℕ) (header : TcpHeader) (req : OrderRequest) (ctx : ConnectionContext)
    (g : Gateway)
    → IsRequest req
    → ctx.reassembly ≡ fresh
    → header.seq_num ≡ ctx.tcp.recv_seq
    → let g' = on_frame fd h header (order_request_bytes req) (ctx, g) in
      let ordered = apply_order req g.live_orders in
      (g'.live_orders ≡ ordered.1)
      × (g'.conn_ctx ≡ Maps.update g.conn_ctx fd (advanced ctx))
      × (g'.events ≡ g.events ++ wrote fd (answer ctx req ordered.0) ∷ [])
next_order h fd header req ctx g v empty next =
    let payload : List ℕ = order_request_bytes req in
    let is_req : order_request_of payload ≡ req =
      ap order_request_of (sym (append-nil payload)) ∙ request_reads_back req [] v in
    let w : Working = process_order_payload h fd payload (ctx, g) in
    let (moved, live, same, events) =
      process_payload h fd payload req ctx g (request_size req) is_req in
    let alone =
      next_alone h fd payload ctx g (ap (λ (c : ConnectionContext). c.reassembly) moved ∙ empty) in
    let whole : on_frame fd h header payload (ctx, g) ≡ store fd w =
      data_frame h fd header payload (ctx, g) (request_size req) next ∙ ap (store fd) alone in
    (
      ap (λ (k : Gateway). k.live_orders) whole ∙ live,
      ap (λ (k : Gateway). k.conn_ctx) whole
          ∙ ap₂ (λ (m : List (ℕ × ConnectionContext)) (c : ConnectionContext). Maps.update m fd c)
              same moved,
      ap (λ (k : Gateway). k.events) whole ∙ events,
    )

answer_reads_back :
    (ctx : ConnectionContext) (req : OrderRequest) (accepted : Bool)
    → IsRequest req
    → IsEndpoint ctx.tcp
    → (header : TcpHeader) × (payload : List ℕ) × (parse (answer ctx req accepted)
        ≡ some (header, payload))
      × (header.seq_num ≡ ctx.tcp.send_seq)
      × (header.ack_num ≡ u32 (ctx.tcp.recv_seq + 40))
      × (order_ack_of payload ≡ order_ack_for req accepted)
      × (is_malformed_header header ≡ false)
      × (has_ack header ≡ true)
unfolding order_ack_for
answer_reads_back ctx req accepted v ep =
    let ack : OrderAck = order_ack_for req accepted in
    let payload : List ℕ = order_ack_bytes ack in
    let widths : IsConnection (advanced ctx).tcp = record {
      send_seq_fits = ep.widths.send_seq_fits;
      recv_seq_fits = omega arith;
      send_ack_fits = ep.widths.send_ack_fits;
      recv_ack_fits = ep.widths.recv_ack_fits;
      window_fits = ep.widths.window_fits;
      peer_window_fits = ep.widths.peer_window_fits;
    } in
    let endpoint : IsEndpoint (advanced ctx).tcp = record {
      widths = widths;
      local_fits = ep.local_fits;
      remote_fits = ep.remote_fits;
    } in
    let read =
      (frames_read_back (advanced ctx).tcp payload 0 0 endpoint (omega arith) (omega arith)).0 in
    let said = data_header read.got (advanced ctx).tcp read.fields in
    (
      read.got,
      payload,
      read.parsed,
      said.0,
      said.1,
      ap order_ack_of (sym (append-nil payload))
          ∙ ack_reads_back ack []
              (record { client_fits = v.client_fits; server_fits = omega arith }),
      said.2,
      said.3,
    )

-- A client's frame with a request is taken and answered with one frame, which reads back as the
-- acknowledgement that `order_ack_for` makes.
pub order_is_handled :
    (h : Host) (pkt : Packet) (c : TcpConnection) (req : OrderRequest) (ctx : ConnectionContext)
    (g : Gateway)
    → IsEndpoint c
    → IsEndpoint ctx.tcp
    → IsRequest req
    → h.must_drop g.events ≡ false
    → Maps.find g.conn_ctx pkt.port ≡ some ctx
    → h.memory pkt ≡ create_data c (order_request_bytes req)
    → c.send_seq ≡ ctx.tcp.recv_seq
    → ctx.reassembly ≡ fresh
    → let g' = handle_packet h pkt g in
      let (accepted, live) = apply_order req g.live_orders in
      (g'.live_orders ≡ live)
      × (g'.conn_ctx ≡ Maps.update g.conn_ctx pkt.port (advanced ctx))
      × (frame : List ℕ) × (g'.events ≡ g.events ++ wrote pkt.port frame ∷ [])
      × (header : TcpHeader) × (payload : List ℕ) × (parse frame ≡ some (header, payload))
      × (header.seq_num ≡ ctx.tcp.send_seq)
      × (header.ack_num ≡ u32 (ctx.tcp.recv_seq + 40))
      × (order_ack_of payload ≡ order_ack_for req accepted)
      × (is_malformed_header header ≡ false)
      × (has_ack header ≡ true)
order_is_handled h pkt c req ctx g ep ep' v stays found sent next empty =
    let payload : List ℕ = order_request_bytes req in
    let read = (frames_read_back c payload 0 0 ep (omega arith) (omega arith)).0 in
    let said = data_header read.got c read.fields in
    let parsed : parse (h.memory pkt) ≡ some (read.got, payload) = ap parse sent ∙ read.parsed in
    let whole : handle_packet h pkt g ≡ on_frame pkt.port h read.got payload (ctx, g) =
      handled h pkt read.got payload ctx g stays found parsed said.2 in
    let (live, contexts, events) =
      next_order h pkt.port read.got req ctx g v empty (said.0 ∙ next) in
    let accepted : Bool = (apply_order req g.live_orders).0 in
    let (header, load, comes, seq, ack, names, well, acks) =
      answer_reads_back ctx req accepted v ep' in
    (
      ap (λ (k : Gateway). k.live_orders) whole ∙ live,
      ap (λ (k : Gateway). k.conn_ctx) whole ∙ contexts,
      answer ctx req accepted,
      ap (λ (k : Gateway). k.events) whole ∙ events,
      header,
      load,
      comes,
      seq,
      ack,
      names,
      well,
      acks,
    )
