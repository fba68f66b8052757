-- ===== src/Core/Ring/Positions.antt =====
-- How far the write position of the ring moves.
use usn_hft_sim.Base.{ℕ, ◌+◌, ◌≤◌, ◌≡◌, refl, arith, true}
use usn_hft_sim.Core.Packet.{Packet}
use usn_hft_sim.Core.Ring.{PacketRing, make, try_push, try_pop, empty}

pub try_push-write_pos :
    (r : PacketRing) (x : Packet) → (try_push r x).1.write_pos ≤ r.write_pos + 1
unfolding try_push
try_push-write_pos r x = ground arith

pub try_pop-write_pos : (r : PacketRing) (out : Packet) → (try_pop r out).2.write_pos ≡ r.write_pos
unfolding try_pop
try_pop-write_pos r out = ground arith

-- A new ring has nothing in it.
pub make_positions : (n : ℕ) → ((make n).write_pos ≡ 0) × (empty (make n) ≡ true)
unfolding make empty
make_positions n = (refl, refl)
