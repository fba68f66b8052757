-- ===== src/Apps/Client/Reconnect.antt =====
-- What the gateway makes of a client that has reconnected.
use usn_hft_sim.Base.{
  ℕ, ◌≡◌, ◌≢◌, refl, ap, sym, ◌∙◌, arith, true, false, inl, inr, Bool-cases, none, some, List,
  length,
}
use usn_hft_sim.Base.Maps
use usn_hft_sim.Core.Packet.{Packet}
use usn_hft_sim.Tcp.Types.{TcpHeader, TcpConnection}
use usn_hft_sim.Tcp.Wire.{parse, create_data}
use usn_hft_sim.Tcp.Wire.ReadBack.{IsEndpoint, frames_read_back}
use usn_hft_sim.Tcp.Reassembly.{insert}
use usn_hft_sim.Apps.Messages.{OrderRequest, order_request_bytes}
use usn_hft_sim.Apps.Messages.Layout.{request_size}
use usn_hft_sim.Apps.Gateway.{ConnectionContext, Gateway, Host, Working}
use usn_hft_sim.Apps.Gateway.Frames.{on_other, store, on_frame, handle_packet}
use usn_hft_sim.Apps.Gateway.Rounds.{on_accept}
use usn_hft_sim.Apps.Gateway.Orders.{data_header, handled}
use usn_hft_sim.Apps.Gateway.Closing.{accepts}
use usn_hft_sim.Apps.Client.Lifecycle.{Session, reconnect}

-- The orders and what has been sent.
abbrev IsUnmoved : Gateway → Gateway → Type 0
IsUnmoved g g' = (g'.events ≡ g.events) × (g'.live_orders ≡ g.live_orders)

other-IsUnmoved :
    (fd : ℕ) (header : TcpHeader) (payload : List ℕ) (ctx : ConnectionContext) (g : Gateway)
    → IsUnmoved g (store fd (on_other header payload (ctx, g)))
unfolding on_other
other-IsUnmoved fd header payload ctx g =
    elim (Bool-cases (insert ctx.reassembly header.seq_num (some payload)).0) [
      | inl stored ↦ rw stored (refl, refl)
      | inr refused ↦ rw refused (refl, refl)
    ]

frame_ahead :
    (h : Host) (fd : ℕ) (header : TcpHeader) (payload : List ℕ) (w : Working)
    → length payload ≡ 40
    → header.seq_num ≢ w.0.tcp.recv_seq
    → on_frame fd h header payload w ≡ store fd (on_other header payload w)
unfolding on_frame
frame_ahead h fd header payload w size ahead = ground arith

-- A client that reconnects keeps its sequence number, and the gateway starts the new connection at 1:
-- unless the client is at 1 itself, its next order is neither taken nor answered.
pub reconnected_is_unheard :
    (h : Host) (pkt : Packet) (peer_port : ℕ) (g : Gateway) (s : Session) (req : OrderRequest)
    → IsEndpoint s.client.conn
    → s.client.conn.send_seq ≢ 1
    → Maps.find g.conn_ctx pkt.port ≡ none
    → h.must_drop g.events ≡ false
    → h.memory pkt ≡ create_data (reconnect true true s).1.client.conn (order_request_bytes req)
    → let g' = handle_packet h pkt (on_accept (some (pkt.port, peer_port)) true g) in
      (g'.events ≡ g.events) × (g'.live_orders ≡ g.live_orders)
unfolding reconnect on_accept
reconnected_is_unheard h pkt peer_port g s req ep later absent stays sent =
    let c : TcpConnection = s.client.conn in
    let payload : List ℕ = order_request_bytes req in
    let g' : Gateway = on_accept (some (pkt.port, peer_port)) true g in
    let (ctx, _, start, found, same) = accepts pkt.port peer_port g absent in
    let read = (frames_read_back c payload 0 0 ep (omega arith) (omega arith)).0 in
    let (seq, _, well, _) = data_header read.got c read.fields in
    let ahead : read.got.seq_num ≢ ctx.tcp.recv_seq = λ e. later (sym seq ∙ e ∙ start) in
    let whole : handle_packet h pkt g' ≡ store pkt.port (on_other read.got payload (ctx, g')) =
      handled h pkt read.got payload ctx g' (ap h.must_drop same ∙ stays) found
        (ap parse sent ∙ read.parsed) well
      ∙ frame_ahead h pkt.port read.got payload (ctx, g') (request_size req) ahead in
    let (events, live) = other-IsUnmoved pkt.port read.got payload ctx g' in
    (
      ap (λ (k : Gateway). k.events) whole ∙ events ∙ same,
      ap (λ (k : Gateway). k.live_orders) whole ∙ live,
    )
