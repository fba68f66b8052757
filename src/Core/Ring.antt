-- ===== src/Core/Ring.antt =====
-- `PacketRing` of include/usn/core/packet_ring.hpp, run by one thread at a time. A method that
-- changes the ring returns the new ring last. `std::size_t` has 64 bits.
pub mod Index
pub mod Inv
pub mod Refine
pub mod Positions
pub mod Batch
pub mod Trace
mod Tests
use usn_hft_sim.Base.{
  ℕ, zero, suc, ◌+◌, ◌-◌, min, Bool, true, false, List, length, get_or, set, replicate, map, leb,
  ◌==◌, if◌then◌else◌, u64, sub_u64, bit_and,
}
use usn_hft_sim.Core.Capacity.{round_up_power_of_two}
use usn_hft_sim.Core.Packet.{Packet, blank, reset}

pub record PacketRing : Type 0 where
  pub capacity : ℕ
  pub mask : ℕ
  pub write_pos : ℕ
  pub read_pos : ℕ
  pub packets : List Packet

-- The constructor: `capacity_` blank packets, each of them reset once more.
pub make : ℕ → PacketRing
make requested =
    let capacity = round_up_power_of_two requested in
    record {
      capacity = capacity;
      mask = sub_u64 capacity 1;
      write_pos = 0;
      read_pos = 0;
      packets = map reset (replicate capacity blank);
    }

-- `packets_[pos & mask_]`
pub slot : PacketRing → ℕ → ℕ
slot r pos = bit_and pos r.mask

pub try_push : PacketRing → Packet → Bool × PacketRing
try_push r packet = if leb r.capacity (sub_u64 r.write_pos r.read_pos) then (false, r) else (
  true,
  record r {
    packets = set r.packets (slot r r.write_pos) packet;
    write_pos = u64 (r.write_pos + 1);
  },
)

-- The loop of `try_push_batch`, with `n` rounds left, at index `i`.
pub copy_in : (mask write n i : ℕ) → List Packet → List Packet → List Packet
copy_in mask write zero i source slots = slots
copy_in mask write (suc n) i source slots =
    copy_in mask write n (i + 1) source
      (set slots (bit_and (u64 (write + i)) mask) (get_or source i blank))

pub try_push_batch : PacketRing → List Packet → ℕ × PacketRing
try_push_batch r source =
    let available = sub_u64 r.capacity (sub_u64 r.write_pos r.read_pos) in
    let to_push = min (length source) available in
    if to_push == 0 then (0, r) else (
      to_push,
      record r {
        packets = copy_in r.mask r.write_pos to_push 0 source r.packets;
        write_pos = u64 (r.write_pos + to_push);
      },
    )

-- `packet` is the caller's variable: it keeps its value if the ring is empty.
pub try_pop : PacketRing → Packet → Bool × Packet × PacketRing
try_pop r packet =
    if leb r.write_pos r.read_pos
    then (false, packet, r)
    else let i = slot r r.read_pos in
      let found = get_or r.packets i blank in
      (
        true,
        found,
        record r { packets = set r.packets i (reset found); read_pos = u64 (r.read_pos + 1) },
      )

-- The loop of `try_pop_batch`: the caller's array and the slots.
pub copy_out : (mask read n i : ℕ) → List Packet → List Packet → List Packet × List Packet
copy_out mask read zero i out slots = (out, slots)
copy_out mask read (suc n) i out slots =
    let k = bit_and (u64 (read + i)) mask in
    let found = get_or slots k blank in
    copy_out mask read n (i + 1) (set out i found) (set slots k (reset found))

pub try_pop_batch : PacketRing → List Packet → ℕ × List Packet × PacketRing
try_pop_batch r out =
    let available = sub_u64 r.write_pos r.read_pos in
    let to_pop = min (length out) available in
    if to_pop == 0
    then (0, out, r)
    else let moved = copy_out r.mask r.read_pos to_pop 0 out r.packets in
      (to_pop, moved.0, record r { packets = moved.1; read_pos = u64 (r.read_pos + to_pop) })

pub empty : PacketRing → Bool
empty r = leb r.write_pos r.read_pos

pub size : PacketRing → ℕ
size r = if leb r.read_pos r.write_pos then sub_u64 r.write_pos r.read_pos else 0

pub available : PacketRing → ℕ
available r = sub_u64 r.capacity (size r)
