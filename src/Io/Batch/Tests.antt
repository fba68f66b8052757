-- ===== src/Io/Batch/Tests.antt =====
-- Calls on a few attempts.
use usn_hft_sim.Base.{
  ℕ, ◌+◌, ◌≡◌, ◌≤◌, ◌≢◌, ◌↔◌, refl, arith, true, false, none, some, List, [], ◌∷◌,
}
use usn_hft_sim.Base.Ints.{pos, eagain}
use usn_hft_sim.Core.Packet.{blank}
use usn_hft_sim.Core.Queue
use usn_hft_sim.Core.Ring.{PacketRing}
use usn_hft_sim.Core.Ring.Inv.{IsValid, contents}
use usn_hft_sim.Io.Batch.{
  BatchIoOptions, BatchIoResult, ok, transferred, failed, Attempt, World, recv_batch,
  recvmmsg_with_policy, sendmmsg_with_policy, attempt_loop, on_failure, after_poll, next_wait,
  interval,
}
use usn_hft_sim.Io.Batch.Policy.{policy_ends, has_ended, sum}
use usn_hft_sim.Io.Batch.Receive.{batch, lengths, recv_batch_refines}

abbrev options : BatchIoOptions
options = record { timeout_ms = pos 2; poll_interval_ms = pos 1 }

abbrev empty_handed : Attempt
empty_handed = record { reply = failed eagain; is_cancelled = false; poll_errno = none }

abbrev two_messages : Attempt
two_messages = record {
  reply = transferred (10 ∷ 20 ∷ []);
  is_cancelled = false;
  poll_errno = none;
}

abbrev attempts : List Attempt
attempts = empty_handed ∷ two_messages ∷ empty_handed ∷ []

abbrev world : World
world = record { cancelled_before = false; attempts = attempts; cancelled_after = false }

abbrev ring : PacketRing
ring = record {
  capacity = 4;
  mask = 3;
  write_pos = 1;
  read_pos = 1;
  packets = blank ∷ blank ∷ blank ∷ blank ∷ [];
}

ring-IsValid : IsValid ring
ring-IsValid = record {
  exponent = 2;
  power = refl;
  small = omega arith;
  masked = refl;
  storage = refl;
  ordered = omega arith;
  bounded = omega arith;
  fits = omega arith;
}

abbrev address : ℕ → ℕ
address i = 1000 + i

receives : (recvmmsg_with_policy options false attempts).outcome ≡ some (transferred (10 ∷ 20 ∷ []))
unfolding recvmmsg_with_policy attempt_loop on_failure after_poll next_wait interval
receives = refl

policy_ends_example :
    (has_ended (recvmmsg_with_policy options false attempts) ≡ true)
    × (sum (recvmmsg_with_policy options false attempts).waits ≤ 2)
    × (has_ended (sendmmsg_with_policy options false attempts) ≡ true)
    × (sum (sendmmsg_with_policy options false attempts).waits ≤ 2)
policy_ends_example = policy_ends options false attempts refl (omega arith)

recv_batch_refines_example :
    (result : BatchIoResult) × (r' : PacketRing) × (recv_batch address options 32 world ring
      ≡ some (result, r'))
    × ((result.count, contents r')
        ≡ Queue.push_batch 4 (contents ring) (batch address 0 (10 ∷ 20 ∷ [])))
    × ((result.status ≡ ok) ↔ (lengths (transferred (10 ∷ 20 ∷ [])) ≢ []))
recv_batch_refines_example =
    recv_batch_refines address options 32 world (transferred (10 ∷ 20 ∷ [])) ring-IsValid
      (omega arith) receives (omega arith)
