-- ===== src/Apps/Gateway/Inv.antt =====
-- What every packet keeps.
use usn_hft_sim.Base.{
  ℕ, ◌<◌, ◌^◌, ◌≡◌, refl, arith, not, ◌&&◌, ◌||◌, inl, inr, Bool-cases, Option-cases, Option, none,
  some, List, length, ltb, ◌==◌,
}
use usn_hft_sim.Base.Maps
use mathlib.Core.Path.{subst}
use usn_hft_sim.Base.Maps.{
  AreDistinct, Every, add-AreDistinct, remove-AreDistinct, find-Every, erase-Every, update-Every,
}
use usn_hft_sim.Core.Packet.{Packet}
use usn_hft_sim.Core.Ring.{PacketRing}
use usn_hft_sim.Tcp.Types.{TcpState, is, TcpHeader, has_ack, has_fin, TcpConnection}
use usn_hft_sim.Tcp.Wire.{parse, is_malformed_header, to_host_order}
use usn_hft_sim.Tcp.StateMachine.{handle_incoming, initiate_close}
use usn_hft_sim.Apps.Gateway.{ConnectionContext, Gateway, Host, Working}
use usn_hft_sim.Apps.Gateway.Frames.{
  on_next, on_other, answer_fin, on_control, answer, close_if_closed, count_keepalive, store,
  close_connection, on_frame, on_parsed, handle_packet,
}
use usn_hft_sim.Apps.Gateway.Sound.{HasBuffer, IsSound, Keeps, Carries, next-Carries, other-Carries}

store-Keeps : (fd : ℕ) (ring : PacketRing) (w : Working) → Carries ring w → Keeps ring (store fd w)
store-Keeps fd ring (ctx, g) (buffer, (all, orders, same)) =
    (update-Every HasBuffer g.conn_ctx fd ctx all buffer, orders, same)

close-Keeps :
    (fd : ℕ) (ring : PacketRing) (g : Gateway) → Keeps ring g → Keeps ring (close_connection fd g)
close-Keeps fd ring g (all, orders, same) = (erase-Every HasBuffer g.conn_ctx fd all, orders, same)

answer-Keeps :
    (fd : ℕ) (conn : TcpConnection) (ring : PacketRing) (g : Gateway)
    → Keeps ring g
    → Keeps ring (answer_fin fd conn g).1
unfolding answer_fin
answer-Keeps fd conn ring g kept =
    elim (Bool-cases (is conn.state TcpState.close_wait && (initiate_close conn).0)) [
      | inl closing ↦ rw closing kept
      | inr stays ↦ rw stays kept
    ]

count-Keeps :
    (header : TcpHeader) (ring : PacketRing) (g : Gateway)
    → Keeps ring g
    → Keeps ring (count_keepalive header g)
unfolding count_keepalive
count-Keeps header ring g kept = elim (Bool-cases (has_ack header && not (has_fin header))) [
  | inl bare ↦ rw bare kept
  | inr other ↦ rw other kept
]

control-Keeps :
    (fd : ℕ) (header : TcpHeader) (ring : PacketRing) (w : Working)
    → Carries ring w
    → Keeps ring (on_control fd header w)
unfolding on_control answer close_if_closed
control-Keeps fd header ring (ctx, g) (buffer, kept) =
    let conn : TcpConnection = (handle_incoming ctx.tcp header 0).1 in
    let counted : Gateway = count_keepalive header g in
    let answered : TcpConnection × Gateway = answer fd header conn counted in
    let kept' : Keeps ring answered.1 = elim (Bool-cases (has_fin header)) [
      | inl fin ↦ rw fin (answer-Keeps fd conn ring counted (count-Keeps header ring g kept))
      | inr none_sent ↦ rw none_sent (count-Keeps header ring g kept)
    ] in
    let stored : Gateway = store fd (record ctx { tcp = answered.0 }, answered.1) in
    let kept'' : Keeps ring stored =
      store-Keeps fd ring (record ctx { tcp = answered.0 }, answered.1) (buffer, kept') in
    elim (Bool-cases (is answered.0.state TcpState.closed)) [
      | inl ends ↦ rw ends (close-Keeps fd ring stored kept'')
      | inr stays ↦ rw stays kept''
    ]

frame-Keeps :
    (fd : ℕ) (h : Host) (header : TcpHeader) (payload : List ℕ) (ring : PacketRing) (w : Working)
    → header.seq_num < 2 ^ 32
    → Carries ring w
    → Keeps ring (on_frame fd h header payload w)
unfolding on_frame
frame-Keeps fd h header payload ring w fits v =
    elim (Bool-cases (length payload == 0 && (has_fin header || has_ack header))) [
      | inl control ↦ rw control (control-Keeps fd header ring w v)
      | inr data_ ↦
          elim (Bool-cases (ltb 0 (length payload) && not (header.seq_num == w.0.tcp.recv_seq))) [
            | inl ahead ↦
                rw (data_, ahead)
                  (store-Keeps fd ring (on_other header payload w)
                    (other-Carries header payload ring w fits v))
            | inr next ↦
                rw (data_, next)
                  (store-Keeps fd ring (on_next h fd payload w)
                    (next-Carries h fd payload ring w v))
          ]
    ]

abbrev Fits : Option (TcpHeader × List ℕ) → Type 0
Fits parsed = elim parsed [ none ↦ Unit | some (header, payload) ↦ header.seq_num < 2 ^ 32 ]

parse-Fits : (packet : List ℕ) → Fits (parse packet)
unfolding parse to_host_order
parse-Fits packet = ground arith

taken-Keeps :
    (h : Host) (fd : ℕ) (packet : List ℕ) (ctx : ConnectionContext) (ring : PacketRing)
    (g : Gateway)
    → Carries ring (ctx, g)
    → Keeps ring (on_parsed h fd ctx (parse packet) g)
unfolding on_parsed
taken-Keeps h fd packet ctx ring g v = elim (Option-cases (parse packet)) [
  | inl refused ↦ rw refused v.1
  | inr ((header, payload), parsed) ↦ elim (Bool-cases (is_malformed_header header)) [
    | inl bad ↦ rw (parsed, bad) v.1
    | inr well ↦
        rw (parsed, well)
          (frame-Keeps fd h header payload ring (ctx, g) (subst Fits parsed (parse-Fits packet)) v)
  ]
]

packet-Keeps :
    (h : Host) (pkt : Packet) (ring : PacketRing) (g : Gateway)
    → Keeps ring g
    → Keeps ring (handle_packet h pkt g)
unfolding handle_packet
packet-Keeps h pkt ring g v = elim (Bool-cases (h.must_drop g.events)) [
  | inl drops ↦ rw drops (close-Keeps pkt.port ring g v)
  | inr stays ↦ elim (Option-cases (Maps.find g.conn_ctx pkt.port)) [
    | inl absent ↦ rw (stays, absent) v
    | inr (ctx, found) ↦
        rw (stays, found)
          (taken-Keeps h pkt.port (h.memory pkt) ctx ring g
            (find-Every HasBuffer g.conn_ctx pkt.port ctx v.0 found, v))
  ]
]

-- Whatever packet comes, and whatever the memory behind it and the system's answers are: afterwards
-- every reassembly buffer is well formed and no order is live twice, if it was so before. The ring is
-- not touched.
pub handle_packet-IsSound :
    (h : Host) (pkt : Packet) (g : Gateway)
    → IsSound g
    → IsSound (handle_packet h pkt g) × ((handle_packet h pkt g).req_ring ≡ g.req_ring)
handle_packet-IsSound h pkt g (all, orders) =
    let (all', orders', same) = packet-Keeps h pkt g.req_ring g (all, orders, refl) in
    ((all', orders'), same)
