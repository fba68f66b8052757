-- ===== src/Core/Ring/Trace.antt =====
-- Whole runs of one client of a `PacketRing`.
use usn_hft_sim.Base.{
  ℕ, ◌+◌, ◌-◌, ◌^◌, ◌≤◌, ◌<◌, ◌≡◌, refl, arith, List, ◌∷◌, [], length, Bool, true, false,
}
use usn_hft_sim.Core.Packet.{Packet}
use usn_hft_sim.Core.Queue
use usn_hft_sim.Core.Ring.{
  PacketRing, try_push, try_push_batch, try_pop, try_pop_batch, empty, size,
}
use usn_hft_sim.Core.Ring.Inv.{
  IsValid, contents, try_push-IsValid, try_push_batch-IsValid, try_pop-IsValid,
  try_pop_batch-IsValid,
}
use usn_hft_sim.Core.Ring.Refine.{try_push_refines, try_pop_refines}
use usn_hft_sim.Core.Ring.Batch.{try_push_batch_refines, try_pop_batch_refines}

-- A call, with the caller's variable or array where the ring writes into it.
pub data Op : Type 0 where
  push : Packet → Op
  push_batch : List Packet → Op
  pop : Packet → Op
  pop_batch : List Packet → Op

pub data Reply : Type 0 where
  pushed : Bool → Reply
  pushed_batch : ℕ → Reply
  popped : Bool → Packet → Reply
  popped_batch : ℕ → List Packet → Reply

unfoldable pub run : PacketRing → List Op → List Reply
run r [] = []
run r (push x ∷ ops) = let (b, r') = try_push r x in pushed b ∷ run r' ops
run r (push_batch xs ∷ ops) = let (n, r') = try_push_batch r xs in pushed_batch n ∷ run r' ops
run r (pop out ∷ ops) = let (b, x, r') = try_pop r out in popped b x ∷ run r' ops
run r (pop_batch out ∷ ops) =
    let (n, xs, r') = try_pop_batch r out in popped_batch n xs ∷ run r' ops

unfoldable pub run_queue : ℕ → List Packet → List Op → List Reply
run_queue cap q [] = []
run_queue cap q (push x ∷ ops) = let (b, q') = Queue.push cap q x in pushed b ∷ run_queue cap q' ops
run_queue cap q (push_batch xs ∷ ops) =
    let (n, q') = Queue.push_batch cap q xs in pushed_batch n ∷ run_queue cap q' ops
run_queue cap q (pop out ∷ ops) =
    let (b, x, q') = Queue.pop q out in popped b x ∷ run_queue cap q' ops
run_queue cap q (pop_batch out ∷ ops) =
    let (n, xs, q') = Queue.pop_batch q out in popped_batch n xs ∷ run_queue cap q' ops

-- How far a run can move the write position.
abbrev pub demand : List Op → ℕ
demand [] = 0
demand (push x ∷ ops) = 1 + demand ops
demand (push_batch xs ∷ ops) = length xs + demand ops
demand (pop out ∷ ops) = demand ops
demand (pop_batch out ∷ ops) = demand ops

pub push_moves :
    (r : PacketRing) (x : Packet)
    → ((try_push r x).1.capacity ≡ r.capacity) × ((try_push r x).1.write_pos ≤ r.write_pos + 1)
unfolding try_push
push_moves r x = ground arith

push_batch_moves :
    (r : PacketRing) (xs : List Packet)
    → ((try_push_batch r xs).1.capacity ≡ r.capacity)
      × ((try_push_batch r xs).1.write_pos ≤ r.write_pos + length xs)
unfolding try_push_batch
push_batch_moves r xs = ground arith

pop_moves :
    (r : PacketRing) (out : Packet)
    → ((try_pop r out).2.capacity ≡ r.capacity) × ((try_pop r out).2.write_pos ≡ r.write_pos)
unfolding try_pop
pop_moves r out = ground arith

pop_batch_moves :
    (r : PacketRing) (out : List Packet)
    → ((try_pop_batch r out).2.capacity ≡ r.capacity)
      × ((try_pop_batch r out).2.write_pos ≡ r.write_pos)
unfolding try_pop_batch
pop_batch_moves r out = ground arith

-- No sequence of calls, single or in batches, tells a valid ring from the bounded queue of its
-- contents, as long as the packets offered cannot bring the write position to 2 ^ 64.
pub run_refines :
    (ops : List Op) {r : PacketRing}
    → IsValid r
    → r.write_pos + demand ops < 2 ^ 64
    → run r ops ≡ run_queue r.capacity (contents r) ops
unfolding run run_queue
run_refines [] v h = refl
run_refines (push x ∷ ops) {r} v h = rw (
  run_refines ops (try_push-IsValid x v (omega arith)) (omega (arith, push_moves r x)),
  ← try_push_refines x v (omega arith),
  (push_moves r x).0,
)
run_refines (push_batch xs ∷ ops) {r} v h = rw (
  run_refines ops (try_push_batch-IsValid xs v (omega arith))
      (omega (arith, push_batch_moves r xs)),
  ← try_push_batch_refines xs v (omega arith),
  (push_batch_moves r xs).0,
)
run_refines (pop out ∷ ops) {r} v h = rw (
  run_refines ops (try_pop-IsValid out v) (omega (arith, pop_moves r out)),
  ← try_pop_refines out v,
  (pop_moves r out).0,
)
run_refines (pop_batch out ∷ ops) {r} v h = rw (
  run_refines ops (try_pop_batch-IsValid out v) (omega (arith, pop_batch_moves r out)),
  ← try_pop_batch_refines out v,
  (pop_batch_moves r out).0,
)

-- Where the write position does reach 2 ^ 64 it wraps to 0 and the ring loses its contents: the push
-- succeeds, and the ring then reports itself empty, has size 0, and pops nothing.
pub push_at_wrap :
    {r : PacketRing} (x out : Packet)
    → IsValid r
    → r.write_pos ≡ 2 ^ 64 - 1
    → r.write_pos - r.read_pos < r.capacity
    → let (b, r') = try_push r x in
      (b ≡ true) × (empty r' ≡ true) × (size r' ≡ 0) × (try_pop r' out ≡ (false, out, r'))
unfolding try_push try_pop empty size
push_at_wrap {r} x out v last room = ground arith
