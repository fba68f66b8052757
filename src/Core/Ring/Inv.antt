-- ===== src/Core/Ring/Inv.antt =====
-- The representation invariant of `PacketRing`.
use native.Mathlib.Nat.{one-le-pow}
use usn_hft_sim.Base.{
  ℕ, zero, suc, ◌+◌, ◌-◌, ◌%◌, ◌^◌, ◌≤◌, ◌<◌, min, ◌≡◌, refl, ap, ◌∙◌, arith, List, length, set,
  length-set, length-replicate, replicate, map, bit_and, u64, sub_u64, get_or, sym, [], ◌∷◌,
}
use usn_hft_sim.Base.Bits.{bit_and-mask}
use usn_hft_sim.Core.Capacity.{round_up_power_of_two, round_up_power_of_two-IsCapacity}
use usn_hft_sim.Core.Packet.{Packet, blank, reset}
use usn_hft_sim.Core.Ring.{
  PacketRing, make, slot, try_push, try_push_batch, try_pop, try_pop_batch, copy_in, copy_out,
}
use usn_hft_sim.Core.Ring.Index.{window}

pub record IsValid (r : PacketRing) : Type 0 where
  pub exponent : ℕ
  pub power : r.capacity ≡ 2 ^ exponent
  pub small : r.capacity ≤ 2 ^ 63
  pub masked : r.mask ≡ r.capacity - 1
  pub storage : length r.packets ≡ r.capacity
  pub ordered : r.read_pos ≤ r.write_pos
  pub bounded : r.write_pos ≤ r.read_pos + r.capacity
  pub fits : r.write_pos < 2 ^ 64

-- The packets between the two positions, oldest first.
abbrev pub contents : PacketRing → List Packet
contents r = window r.packets r.capacity r.read_pos (r.write_pos - r.read_pos)

pub capacity_pos : {r : PacketRing} → IsValid r → 0 < r.capacity
capacity_pos v = omega (arith, v.power, one-le-pow v.exponent 2)

-- Masking is the remainder by the capacity.
pub bit_and-eq-mod : {r : PacketRing} → IsValid r → (p : ℕ) → bit_and p r.mask ≡ p % r.capacity
bit_and-eq-mod {r} v p =
    ap (λ m. bit_and p m) (v.masked ∙ ap (λ (c : ℕ). c - 1) v.power)
    ∙ bit_and-mask v.exponent p
    ∙ ap (λ (c : ℕ). p % c) (sym v.power)

pub length-copy_in :
    (mask write n i : ℕ) (source slots : List Packet)
    → length (copy_in mask write n i source slots) ≡ length slots
unfolding copy_in
length-copy_in mask write zero i source slots = refl
length-copy_in mask write (suc n) i source slots =
    length-copy_in mask write n (i + 1) source
      (set slots (bit_and (u64 (write + i)) mask) (get_or source i blank))
    ∙ length-set slots (bit_and (u64 (write + i)) mask) (get_or source i blank)

pub length-copy_out :
    (mask read n i : ℕ) (out slots : List Packet)
    → length (copy_out mask read n i out slots).1 ≡ length slots
unfolding copy_out
length-copy_out mask read zero i out slots = refl
length-copy_out mask read (suc n) i out slots =
    let k = bit_and (u64 (read + i)) mask in
    let found = get_or slots k blank in
    length-copy_out mask read n (i + 1) (set out i found) (set slots k (reset found))
    ∙ length-set slots k (reset found)

length-map-reset : (l : List Packet) → length (map reset l) ≡ length l
length-map-reset [] = refl
length-map-reset (p ∷ l) = ap suc (length-map-reset l)

-- The constructor gives a valid and empty ring that holds at least what was asked for.
pub make-IsValid : (n : ℕ) → n ≤ 2 ^ 63 → IsValid (make n)
unfolding make
make-IsValid n h =
    let cap = round_up_power_of_two-IsCapacity n h in
    record {
      exponent = cap.exponent;
      power = cap.power;
      small = cap.small;
      masked = omega (arith, cap.small, cap.power, one-le-pow cap.exponent 2);
      storage =
          length-map-reset (replicate (round_up_power_of_two n) blank)
          ∙ length-replicate (round_up_power_of_two n) blank;
      ordered = omega arith;
      bounded = omega arith;
      fits = omega arith;
    }

-- The next three say that pushing and popping, also in batches, keep the invariant as long as the
-- write position does not pass 2 ^ 64.
pub try_push-IsValid :
    {r : PacketRing} (x : Packet) → IsValid r → r.write_pos + 1 < 2 ^ 64 → IsValid (try_push r x).1
unfolding try_push
try_push-IsValid {r} x v h = ground (arith, length-set r.packets (slot r r.write_pos) x)

pub try_push_batch-IsValid :
    {r : PacketRing} (xs : List Packet)
    → IsValid r
    → r.write_pos + length xs < 2 ^ 64
    → IsValid (try_push_batch r xs).1
unfolding try_push_batch
try_push_batch-IsValid {r} xs v h = ground (
  arith,
  length-copy_in r.mask r.write_pos
      (min (length xs) (sub_u64 r.capacity (sub_u64 r.write_pos r.read_pos))) 0 xs r.packets,
)

pub try_pop-IsValid : {r : PacketRing} (out : Packet) → IsValid r → IsValid (try_pop r out).2
unfolding try_pop
try_pop-IsValid {r} out v =
    let k = slot r r.read_pos in
    ground (arith, length-set r.packets k (reset (get_or r.packets k blank)))

pub try_pop_batch-IsValid :
    {r : PacketRing} (out : List Packet) → IsValid r → IsValid (try_pop_batch r out).2
unfolding try_pop_batch
try_pop_batch-IsValid {r} out v = ground (
  arith,
  length-copy_out r.mask r.read_pos (min (length out) (sub_u64 r.write_pos r.read_pos)) 0 out
      r.packets,
)
