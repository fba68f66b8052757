-- ===== src/Apps/Gateway/Sound.antt =====
-- When a gateway is sound, and that the handling of a payload keeps it so.
use usn_hft_sim.Base.{
  ℕ, ◌+◌, ◌<◌, ◌^◌, ◌≡◌, sym, arith, inl, inr, Bool-cases, Option, some, List, [], ◌∷◌, length, ltb,
  u64,
}
use mathlib.Core.Path.{subst}
use usn_hft_sim.Base.Maps.{AreDistinct, Every, add-AreDistinct, remove-AreDistinct}
use usn_hft_sim.Core.Ring.{PacketRing}
use usn_hft_sim.Tcp.Types.{TcpHeader}
use usn_hft_sim.Tcp.Reassembly.{Buffer, Segment, insert, byte_count}
use usn_hft_sim.Tcp.Reassembly.Inv.{IsValid, insert_lem}
use usn_hft_sim.Tcp.Reassembly.Pop.{pop_contiguous_lem}
use usn_hft_sim.Apps.Messages.{OrderRequest, order_request_of, order_request_size}
use usn_hft_sim.Apps.Gateway.{
  ConnectionContext, Gateway, Host, Working, wrote_all, apply_order, send_order_ack,
  process_order_payload,
}
use usn_hft_sim.Apps.Gateway.Frames.{replay, pop_and_replay, on_next, on_other}

abbrev pub HasBuffer : ConnectionContext → Type 0
HasBuffer ctx = IsValid ctx.reassembly

-- Every reassembly buffer is well formed, no order is live twice.
abbrev pub IsSound : Gateway → Type 0
IsSound g = Every HasBuffer g.conn_ctx × AreDistinct g.live_orders

-- That, and the ring as it was.
abbrev pub Keeps : PacketRing → Gateway → Type 0
Keeps ring g = Every HasBuffer g.conn_ctx × AreDistinct g.live_orders × (g.req_ring ≡ ring)

-- The same with a context in hand.
abbrev pub Carries : PacketRing → Working → Type 0
Carries ring w = HasBuffer w.0 × Keeps ring w.1

apply_order-AreDistinct :
    (req : OrderRequest) (live : List ℕ) → AreDistinct live → AreDistinct (apply_order req live).1
unfolding apply_order
apply_order-AreDistinct req live v = ground (
  arith,
  add-AreDistinct req.client_order_id live v,
  remove-AreDistinct req.target_order_id live v,
)

send-Keeps :
    (h : Host) (fd : ℕ) (frame : List ℕ) (ring : PacketRing) (g : Gateway)
    → Keeps ring g
    → Keeps ring (send_order_ack h fd frame g)
unfolding send_order_ack
send-Keeps h fd frame ring g v =
    elim (Bool-cases (wrote_all (h.write_to g.events fd frame) (length frame))) [
      | inl all ↦ rw all v
      | inr part ↦ rw part v
    ]

process-Carries :
    (h : Host) (fd : ℕ) (payload : List ℕ) (ring : PacketRing) (w : Working)
    → Carries ring w
    → Carries ring (process_order_payload h fd payload w)
unfolding process_order_payload
process-Carries h fd payload ring (ctx, g) (buffer, (all, orders, same)) =
    elim (Bool-cases (ltb (length payload) order_request_size)) [
      | inl short ↦ rw short (buffer, (all, orders, same))
      | inr long ↦ rw long (
        buffer,
        send-Keeps h fd _ ring _
            (all, apply_order-AreDistinct (order_request_of payload) g.live_orders orders, same),
      )
    ]

replay-Carries :
    (h : Host) (fd : ℕ) (segments : List Segment) (ring : PacketRing) (w : Working)
    → Carries ring w
    → Carries ring (replay h fd segments w)
unfolding replay
replay-Carries h fd [] ring w v = v
replay-Carries h fd (s ∷ segments) ring w v =
    replay-Carries h fd segments ring (process_order_payload h fd s.bytes w)
      (process-Carries h fd s.bytes ring w v)

pop-Carries :
    (h : Host) (fd replayed : ℕ) (segments : List Segment) (buffer : Buffer) (ring : PacketRing)
    (w : Working)
    → Keeps ring w.1
    → IsValid buffer
    → Carries ring (pop_and_replay h fd w (some (replayed, segments, buffer)))
unfolding pop_and_replay
pop-Carries h fd replayed segments buffer ring (ctx, g) v valid =
    let counted : Gateway = record g {
      metrics = record g.metrics {
        reorder_replayed_total = u64 (g.metrics.reorder_replayed_total + replayed);
      };
    } in
    elim (Bool-cases (ltb 0 replayed)) [
      | inl more ↦ rw more (
          replay-Carries h fd segments ring (record ctx { reassembly = buffer }, counted)
            (valid, v))
      | inr done ↦ rw done (valid, v)
    ]

pub next-Carries :
    (h : Host) (fd : ℕ) (payload : List ℕ) (ring : PacketRing) (w : Working)
    → Carries ring w
    → Carries ring (on_next h fd payload w)
unfolding on_next
next-Carries h fd payload ring w v =
    let done : Working = process_order_payload h fd payload w in
    let (buffer, kept) = process-Carries h fd payload ring w v in
    let (out, b', popped, valid, _, _) = pop_contiguous_lem done.0.tcp.recv_seq buffer in
    subst (λ (r : Option (ℕ × List Segment × Buffer)). Carries ring (pop_and_replay h fd done r))
      (sym popped) (pop-Carries h fd (byte_count out) out b' ring done kept valid)

pub other-Carries :
    (header : TcpHeader) (payload : List ℕ) (ring : PacketRing) (w : Working)
    → header.seq_num < 2 ^ 32
    → Carries ring w
    → Carries ring (on_other header payload w)
unfolding on_other
other-Carries header payload ring (ctx, g) fits (buffer, kept) =
    let inserted = insert ctx.reassembly header.seq_num (some payload) in
    let valid = (insert_lem header.seq_num (some payload) buffer fits).0 in
    elim (Bool-cases inserted.0) [
      | inl stored ↦ rw stored (valid, kept)
      | inr refused ↦ rw refused (buffer, kept)
    ]
