-- ===== src/Apps/Gateway/Acceptance.antt =====
-- Which orders the gateway accepts, and what its clients are told of it.
use usn_hft_sim.Base.{
  ℕ, ◌+◌, ◌≡◌, ap, ◌∙◌, arith, Bool, true, false, not, ◌&&◌, ◌||◌, some, List, [], ◌∷◌, ◌++◌, ◌==◌,
  u32, u64,
}
use usn_hft_sim.Base.Maps
use usn_hft_sim.Base.Maps.{mem-add, mem-of-remove}
use usn_hft_sim.Core.Packet.{Packet}
use usn_hft_sim.Tcp.Types.{TcpHeader, has_ack, TcpConnection}
use usn_hft_sim.Tcp.Wire.{parse, is_malformed_header, create_data}
use usn_hft_sim.Tcp.Wire.ReadBack.{IsEndpoint}
use usn_hft_sim.Tcp.Reassembly.{fresh}
use usn_hft_sim.Apps.Messages.{
  OrderRequest, order_request_bytes, order_ack_of, action_new, action_cancel, action_replace,
}
use usn_hft_sim.Apps.Messages.Layout.{IsRequest}
use usn_hft_sim.Apps.Gateway.{ConnectionContext, Gateway, Host, wrote, apply_order, order_ack_for}
use usn_hft_sim.Apps.Gateway.Frames.{handle_packet}
use usn_hft_sim.Apps.Gateway.Orders.{advanced, order_is_handled}

-- A Cancel and a Replace need a live target.
abbrev pub is_acceptable : OrderRequest → (live : List ℕ) → Bool
is_acceptable req live =
    not (req.action == action_cancel || req.action == action_replace)
    || Maps.mem req.target_order_id live

-- Whether an order is live after a request: it was before and has not been cancelled, or it is new.
abbrev pub is_live_after : OrderRequest → (live : List ℕ) → (order : ℕ) → Bool
is_live_after req live order =
    (Maps.mem order live && not (req.action == action_cancel && req.target_order_id == order))
    || (req.action == action_new && req.client_order_id == order)

apply_order-is_acceptable :
    (req : OrderRequest) (live : List ℕ) → (apply_order req live).0 ≡ is_acceptable req live
unfolding apply_order
apply_order-is_acceptable req live = ground arith

apply_order-is_live_after :
    (req : OrderRequest) (live : List ℕ) (order : ℕ)
    → Maps.mem order (apply_order req live).1 ≡ is_live_after req live order
unfolding apply_order
apply_order-is_live_after req live order =
    ground
      (arith, mem-add order req.client_order_id live, mem-of-remove order req.target_order_id live)

-- A client's frame with a request, the next of its connection and with nothing buffered behind it, is
-- taken and answered with one frame. A Cancel and a Replace are accepted where their target is live, and
-- everything else is. An order is live afterwards where it is that of a New, or was live before and has
-- not been cancelled. The connection expects the byte after the request, and the answer is parsed to an
-- acknowledgement of that byte whose payload names the request, with its number at the gateway, and
-- says whether it was accepted; the client does not take it for malformed.
pub order_is_answered :
    (h : Host) (pkt : Packet) (c : TcpConnection) (req : OrderRequest) (ctx : ConnectionContext)
    (g : Gateway) (order : ℕ)
    → IsEndpoint c
    → IsEndpoint ctx.tcp
    → IsRequest req
    → h.must_drop g.events ≡ false
    → Maps.find g.conn_ctx pkt.port ≡ some ctx
    → h.memory pkt ≡ create_data c (order_request_bytes req)
    → c.send_seq ≡ ctx.tcp.recv_seq
    → ctx.reassembly ≡ fresh
    → let g' = handle_packet h pkt g in
      (Maps.mem order g'.live_orders ≡ is_live_after req g.live_orders order)
      × (g'.conn_ctx ≡ Maps.update g.conn_ctx pkt.port (advanced ctx))
      × (frame : List ℕ) × (g'.events ≡ g.events ++ wrote pkt.port frame ∷ [])
      × (header : TcpHeader) × (payload : List ℕ) × (parse frame ≡ some (header, payload))
      × (header.seq_num ≡ ctx.tcp.send_seq)
      × (header.ack_num ≡ u32 (ctx.tcp.recv_seq + 40))
      × (order_ack_of payload ≡ record {
        client_order_id = req.client_order_id;
        server_order_id = u64 (req.client_order_id + 1000000);
        accepted = is_acceptable req g.live_orders;
      })
      × (is_malformed_header header ≡ false)
      × (has_ack header ≡ true)
unfolding order_ack_for
order_is_answered h pkt c req ctx g order ep ep' v stays found sent next empty =
    let (live, contexts, frame, events, header, load, comes, seq, ack, names, well, acks) =
      order_is_handled h pkt c req ctx g ep ep' v stays found sent next empty in
    (
      ap (Maps.mem order) live ∙ apply_order-is_live_after req g.live_orders order,
      contexts,
      frame,
      events,
      header,
      load,
      comes,
      seq,
      ack,
      names ∙ ap (order_ack_for req) (apply_order-is_acceptable req g.live_orders),
      well,
      acks,
    )
