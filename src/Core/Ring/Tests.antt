-- ===== src/Core/Ring/Tests.antt =====
-- `PacketRing` on small inputs.
use usn_hft_sim.Base.{◌≡◌, refl, arith, List, ◌∷◌, []}
use usn_hft_sim.Core.Capacity.{round_up_power_of_two, smear, or_shift}
use usn_hft_sim.Core.Packet.{Packet, of_buffer, blank}
use usn_hft_sim.Core.Ring.{PacketRing, try_push_batch}
use usn_hft_sim.Core.Ring.Inv.{IsValid}
use usn_hft_sim.Core.Ring.Trace.{Op, push, push_batch, pop, pop_batch, run, run_queue, run_refines}

abbrev one : Packet
one = of_buffer 100 10 0

abbrev two : Packet
two = of_buffer 200 20 0

-- Two packets, one on each side of the end of the storage.
abbrev wrapped : PacketRing
wrapped = record {
  capacity = 4;
  mask = 3;
  write_pos = 5;
  read_pos = 3;
  packets = two ∷ blank ∷ blank ∷ one ∷ [];
}

wrapped-IsValid : IsValid wrapped
wrapped-IsValid = record {
  exponent = 2;
  power = refl;
  small = omega arith;
  masked = refl;
  storage = refl;
  ordered = omega arith;
  bounded = omega arith;
  fits = omega arith;
}

abbrev script : List Op
script =
    push two
    ∷ push_batch (one ∷ two ∷ [])
    ∷ pop blank
    ∷ pop_batch (blank ∷ blank ∷ [])
    ∷ pop one
    ∷ []

rounds_to_a_power :
    (round_up_power_of_two 0 ≡ 1) × (round_up_power_of_two 5 ≡ 8) × (round_up_power_of_two 64 ≡ 64)
unfolding round_up_power_of_two smear or_shift
rounds_to_a_power = (refl, refl, refl)

pushes_one_of_two : (try_push_batch wrapped (one ∷ two ∷ two ∷ [])).0 ≡ 2
unfolding try_push_batch
pushes_one_of_two = refl

run_refines_example : run wrapped script ≡ run_queue 4 (one ∷ two ∷ []) script
run_refines_example = run_refines script wrapped-IsValid (omega arith)
