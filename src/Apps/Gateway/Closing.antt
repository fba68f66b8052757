-- ===== src/Apps/Gateway/Closing.antt =====
-- What a keepalive does to a connection that has just been accepted.
use usn_hft_sim.Base.{ℕ, ◌≡◌, refl, ap, ◌∙◌, arith, true, false, none, some, List, [], ◌∷◌, ◌++◌}
use usn_hft_sim.Base.Maps
use usn_hft_sim.Base.Maps.{find-erase, find-emplace}
use usn_hft_sim.Core.Packet.{Packet}
use usn_hft_sim.Tcp.Types.{closed, TcpHeader, has_ack, has_fin, has_syn, TcpConnection}
use usn_hft_sim.Tcp.Wire.{parse, is_malformed_header, header_of}
use usn_hft_sim.Tcp.Wire.ReadBack.{IsEndpoint, frames_read_back}
use usn_hft_sim.Tcp.StateMachine.{
  handle_incoming, on_window_update, on_syn, on_ack, on_payload, on_fin, result, create_keepalive,
}
use usn_hft_sim.Apps.Gateway.{ConnectionContext, Gateway, Host, Event, removed, Working}
use usn_hft_sim.Apps.Gateway.Frames.{
  on_control, answer, close_if_closed, count_keepalive, on_frame, handle_packet,
}
use usn_hft_sim.Apps.Gateway.Rounds.{on_accept}
use usn_hft_sim.Apps.Gateway.Orders.{handled}

-- The header of a bare acknowledgement.
abbrev pub IsBareAck : TcpHeader → Type 0
IsBareAck h = (has_syn h ≡ false) × (has_ack h ≡ true) × (has_fin h ≡ false)

closed_stays :
    (c : TcpConnection) (h : TcpHeader)
    → c.state ≡ closed
    → IsBareAck h
    → (handle_incoming c h 0).1.state ≡ closed
unfolding handle_incoming on_window_update on_syn on_ack on_payload on_fin result
closed_stays c h e bare = ground arith

ack_header :
    (got : TcpHeader) (c : TcpConnection) (ack : ℕ)
    → record got { window = c.window_size; checksum = 0 }
      ≡ header_of c.local_port c.remote_port c.send_seq ack 16 c.window_size
    → IsBareAck got × (is_malformed_header got ≡ false)
unfolding is_malformed_header has_syn has_ack has_fin
ack_header got c ack e =
    let offset : got.data_offset ≡ 5 = ap (λ (h : TcpHeader). h.data_offset) e in
    let flags : got.flags ≡ 16 = ap (λ (h : TcpHeader). h.flags) e in
    rw (offset, flags) ((refl, refl, refl), refl)

closes :
    (fd : ℕ) (header : TcpHeader) (ctx : ConnectionContext) (g : Gateway)
    → ctx.tcp.state ≡ closed
    → IsBareAck header
    → let g' = on_control fd header (ctx, g) in
      (Maps.find g'.conn_ctx fd ≡ none) × (g'.events ≡ g.events ++ removed fd ∷ [])
unfolding on_control answer close_if_closed count_keepalive
closes fd header ctx g e (no_syn, ack, no_fin) =
    let stays = closed_stays ctx.tcp header e (no_syn, ack, no_fin) in
    rw (ack, no_fin, stays)
      (
        find-erase
            (Maps.update g.conn_ctx fd (record ctx { tcp = (handle_incoming ctx.tcp header 0).1 }))
            fd,
        refl,
      )

bare_ack :
    (h : Host) (fd : ℕ) (header : TcpHeader) (w : Working)
    → has_ack header ≡ true
    → on_frame fd h header [] w ≡ on_control fd header w
unfolding on_frame
bare_ack h fd header w ack = ground arith

-- The connection that the gateway makes for an accepted descriptor.
pub accepts :
    (fd peer_port : ℕ) (g : Gateway)
    → Maps.find g.conn_ctx fd ≡ none
    → let g' = on_accept (some (fd, peer_port)) true g in
      (ctx : ConnectionContext) × (ctx.tcp.state ≡ closed)
      × (ctx.tcp.recv_seq ≡ 1)
      × (Maps.find g'.conn_ctx fd ≡ some ctx)
      × (g'.events ≡ g.events)
unfolding on_accept
accepts fd peer_port g absent = (_, refl, refl, find-emplace g.conn_ctx fd _ absent, refl)

-- A connection that has just been accepted is closed by the first keepalive that comes over it, since
-- the gateway leaves its state `CLOSED`.
pub keepalive_closes :
    (h : Host) (pkt : Packet) (c : TcpConnection) (peer_port : ℕ) (g : Gateway)
    → IsEndpoint c
    → Maps.find g.conn_ctx pkt.port ≡ none
    → h.must_drop g.events ≡ false
    → h.memory pkt ≡ create_keepalive c
    → let g' = handle_packet h pkt (on_accept (some (pkt.port, peer_port)) true g) in
      (Maps.find g'.conn_ctx pkt.port ≡ none) × (g'.events ≡ g.events ++ removed pkt.port ∷ [])
unfolding create_keepalive
keepalive_closes h pkt c peer_port g ep absent stays sent =
    let g' : Gateway = on_accept (some (pkt.port, peer_port)) true g in
    let (ctx, state, _, found, same) = accepts pkt.port peer_port g absent in
    let read = (frames_read_back c [] 0 c.send_ack ep (omega arith) ep.widths.send_ack_fits).1 in
    let (bare, well) = ack_header read.got c c.send_ack read.fields in
    let whole : handle_packet h pkt g' ≡ on_control pkt.port read.got (ctx, g') =
      handled h pkt read.got [] ctx g' (ap h.must_drop same ∙ stays) found
        (ap parse sent ∙ read.parsed) well
      ∙ bare_ack h pkt.port read.got (ctx, g') bare.1 in
    let (gone, event) = closes pkt.port read.got ctx g' state bare in
    (
      ap (λ (k : Gateway). Maps.find k.conn_ctx pkt.port) whole ∙ gone,
      ap (λ (k : Gateway). k.events) whole
          ∙ event
          ∙ ap (λ (l : List Event). l ++ removed pkt.port ∷ []) same,
    )
