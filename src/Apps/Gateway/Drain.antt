-- ===== src/Apps/Gateway/Drain.antt =====
-- The loop over the ring.
use usn_hft_sim.Base.{ℕ, zero, suc, ◌≤◌, ◌≡◌, sym, arith, Bool, true, inl, inr, Bool-cases}
use mathlib.Core.Path.{subst}
use usn_hft_sim.Core.Ring.Refine.{try_pop-size, empty-size}
use usn_hft_sim.Core.Packet.{Packet, blank}
use usn_hft_sim.Core.Ring.{PacketRing, try_pop, size, empty}
use usn_hft_sim.Core.Ring.Inv.{IsValid, try_pop-IsValid}
use usn_hft_sim.Apps.Gateway.{Gateway, Host}
use usn_hft_sim.Apps.Gateway.Frames.{handle_packet}
use usn_hft_sim.Apps.Gateway.Rounds.{drain}
use usn_hft_sim.Apps.Gateway.Sound.{IsSound}
use usn_hft_sim.Apps.Gateway.Inv.{handle_packet-IsSound}

-- With fuel for the packets in the ring the loop empties it, and keeps the gateway sound.
drain_lem :
    (fuel : ℕ) (h : Host) (g : Gateway)
    → IsSound g
    → IsValid g.req_ring
    → size g.req_ring ≤ fuel
    → let g' = drain fuel h g in IsSound g' × IsValid g'.req_ring × (empty g'.req_ring ≡ true)
unfolding drain
drain_lem zero h g s v small = (s, v, empty-size v small)
drain_lem (suc fuel) h g s v small =
    let next : Bool × Packet × PacketRing = try_pop g.req_ring blank in
    let popped : Gateway = record g { req_ring = next.2 } in
    let (more, less) = try_pop-size blank v in
    let (s', same) = handle_packet-IsSound h next.1 popped s in
    elim (Bool-cases next.0) [
      | inl found ↦
          let v' : IsValid (handle_packet h next.1 popped).req_ring =
            subst IsValid (sym same) (try_pop-IsValid blank v) in
          let room : size (handle_packet h next.1 popped).req_ring ≤ fuel =
            subst (λ (r : PacketRing). size r ≤ fuel) (sym same) (omega (arith, more found)) in
          rw found (drain_lem fuel h (handle_packet h next.1 popped) s' v' room)
      | inr over ↦ rw over (s, v, less over)
    ]

-- The loop over the ring ends after as many rounds as there are packets: then the ring is empty, and
-- the gateway is sound and its ring valid if they were so before.
pub drain_empties :
    (h : Host) (g : Gateway)
    → IsSound g
    → IsValid g.req_ring
    → let g' = drain (size g.req_ring) h g in
      IsSound g' × IsValid g'.req_ring × (empty g'.req_ring ≡ true)
drain_empties h g s v = drain_lem (size g.req_ring) h g s v (omega arith)
