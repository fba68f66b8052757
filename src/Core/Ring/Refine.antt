-- ===== src/Core/Ring/Refine.antt =====
-- A valid ring behaves as the bounded queue of the packets between its positions.
use usn_hft_sim.Base.{
  sym, ℕ, suc, ◌+◌, ◌-◌, ◌%◌, ◌^◌, ◌<◌, ◌≡◌, ap, ◌∙◌, arith, ◌∷◌, [], ◌++◌, length, get_or, set,
  leb, ◌≤◌, true, false,
}
use usn_hft_sim.Core.Packet.{Packet, blank, reset}
use usn_hft_sim.Core.Queue
use usn_hft_sim.Core.Ring.{PacketRing, slot, try_push, try_pop, empty, size, available}
use usn_hft_sim.Core.Ring.Index.{window, length-window, window-push, window-set_below}
use usn_hft_sim.Core.Ring.Inv.{IsValid, contents, bit_and-eq-mod}

pub length-contents : (r : PacketRing) → length (contents r) ≡ r.write_pos - r.read_pos
length-contents r = length-window r.packets r.capacity r.read_pos (r.write_pos - r.read_pos)

-- The window just past the contents, with the positions as the code computes them.
window-push_valid :
    {r : PacketRing} (x : Packet)
    → IsValid r
    → r.write_pos - r.read_pos < r.capacity
    → window
        (set r.packets (slot r r.write_pos) x)
        r.capacity
        r.read_pos
        (suc (r.write_pos - r.read_pos))
      ≡ contents r ++ x ∷ []
unfolding slot
window-push_valid {r} x v room =
    let there : r.write_pos ≡ r.read_pos + (r.write_pos - r.read_pos) = omega arith in
    let n : ℕ = suc (r.write_pos - r.read_pos) in
    ap (λ k. window (set r.packets k x) r.capacity r.read_pos n)
      (bit_and-eq-mod v r.write_pos ∙ ap (λ (p : ℕ). p % r.capacity) there)
    ∙ window-push r.packets r.capacity r.read_pos (r.write_pos - r.read_pos) x room v.storage

-- The oldest packet and the others, which a reset of its slot leaves alone.
contents_nonempty :
    {r : PacketRing}
    → IsValid r
    → r.read_pos < r.write_pos
    → contents r
      ≡ get_or r.packets (slot r r.read_pos) blank
        ∷ window r.packets r.capacity (r.read_pos + 1) (r.write_pos - (r.read_pos + 1))
unfolding slot
contents_nonempty {r} v h =
    let one_more : r.write_pos - r.read_pos ≡ suc (r.write_pos - (r.read_pos + 1)) = omega arith in
    let rest = window r.packets r.capacity (r.read_pos + 1) (r.write_pos - (r.read_pos + 1)) in
    ap (λ n. window r.packets r.capacity r.read_pos n) one_more
    ∙ ap (λ k. get_or r.packets k blank ∷ rest) (sym (bit_and-eq-mod v r.read_pos))

window-pop_valid :
    {r : PacketRing} (x : Packet)
    → IsValid r
    → r.read_pos < r.write_pos
    → window
        (set r.packets (slot r r.read_pos) x)
        r.capacity
        (r.read_pos + 1)
        (r.write_pos - (r.read_pos + 1))
      ≡ window r.packets r.capacity (r.read_pos + 1) (r.write_pos - (r.read_pos + 1))
unfolding slot
window-pop_valid {r} x v h =
    ap
      (λ k. window (set r.packets k x) r.capacity (r.read_pos + 1) (r.write_pos - (r.read_pos + 1)))
      (bit_and-eq-mod v r.read_pos)
    ∙ window-set_below r.packets r.capacity (r.read_pos + 1) (r.write_pos - (r.read_pos + 1))
        r.read_pos x (omega arith) (omega arith)

-- `try_push` answers as the queue of the contents does, and leaves the ring holding its result, while
-- the write position stays below 2 ^ 64.
pub try_push_refines :
    {r : PacketRing} (x : Packet)
    → IsValid r
    → r.write_pos + 1 < 2 ^ 64
    → let (pushed, r') = try_push r x in
      (pushed, contents r') ≡ Queue.push r.capacity (contents r) x
unfolding try_push Queue.push
try_push_refines {r} x v h = ground (arith, length-contents r, window-push_valid x v)

-- `try_pop` answers as the queue of the contents does, hands out its oldest packet and leaves the ring
-- holding the rest; on an empty ring the caller's packet is left alone.
pub try_pop_refines :
    {r : PacketRing} (out : Packet)
    → IsValid r
    → let (popped, x, r') = try_pop r out in (popped, x, contents r') ≡ Queue.pop (contents r) out
unfolding try_pop Queue.pop
try_pop_refines {r} out v = ground (
  arith,
  contents_nonempty v,
  window-pop_valid (reset (get_or r.packets (slot r r.read_pos) blank)) v,
)

-- `size`, `available` and `empty` agree with the contents.
pub observers_agree :
    {r : PacketRing}
    → IsValid r
    → (size r ≡ length (contents r))
      × (available r + length (contents r) ≡ r.capacity)
      × (empty r ≡ leb (length (contents r)) 0)
unfolding size available empty
observers_agree {r} v = ground (arith, length-contents r)

-- A pop takes one packet, or finds the ring empty.
pub try_pop-size :
    {r : PacketRing} (out : Packet)
    → IsValid r
    → let (popped, x, r') = try_pop r out in
      (popped ≡ true → size r' + 1 ≡ size r) × (popped ≡ false → empty r ≡ true)
unfolding try_pop size empty
try_pop-size {r} out v = ground (arith, v.ordered, v.bounded, v.fits)

pub empty-size : {r : PacketRing} → IsValid r → size r ≤ 0 → empty r ≡ true
unfolding size empty
empty-size {r} v h = ground (arith, v.ordered, v.bounded, v.fits)
