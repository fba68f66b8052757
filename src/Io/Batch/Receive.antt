-- ===== src/Io/Batch/Receive.antt =====
-- What a batch leaves in the ring.
use mathlib.Core.Option
use usn_hft_sim.Base.{
  ℕ, suc, ◌+◌, ◌-◌, ◌≤◌, ◌<◌, ◌^◌, ◌≡◌, ◌≢◌, ◌↔◌, min, refl, sym, ap, ◌∙◌, arith, Bool, true, false,
  some, List, [], ◌∷◌, ◌++◌, length, take, take-all, ltb→lt, Bool-cases, inl, inr, ap₂,
  length-append, ltb, ◌==◌,
}
use usn_hft_sim.Core.Packet.{Packet, of_buffer}
use usn_hft_sim.Core.Queue
use usn_hft_sim.Core.Ring.{PacketRing, try_push}
use usn_hft_sim.Core.Ring.Inv.{IsValid, contents, try_push-IsValid}
use usn_hft_sim.Core.Ring.Refine.{try_push_refines}
use usn_hft_sim.Core.Ring.Trace.{push_moves}
use mathlib.Core.List.{append_assoc, append-nil}
use usn_hft_sim.Io.Batch.{
  BatchIoOptions, BatchIoResult, ok, Reply, transferred, failed, World, classify, push_received,
  store_in_ring, finish_ring, recv_batch, recvmmsg_with_policy,
}

-- The packets of a batch: the `i`-th message lies in the `i`-th buffer.
unfoldable pub batch : (address : ℕ → ℕ) → (i : ℕ) → List ℕ → List Packet
batch address i [] = []
batch address i (len ∷ lens) = of_buffer (address i) len 0 ∷ batch address (i + 1) lens

abbrev pub lengths : Reply → List ℕ
lengths (transferred lens) = lens
lengths (failed errno) = []

length-batch :
    (address : ℕ → ℕ) (i : ℕ) (lens : List ℕ) → length (batch address i lens) ≡ length lens
unfolding batch
length-batch address i [] = refl
length-batch address i (len ∷ lens) = ap suc (length-batch address (i + 1) lens)

-- Packet by packet is the same as the whole batch at once.
push_step :
    {A : Type 0} (cap : ℕ) (q : List A) (x : A) (xs : List A)
    → ltb (length q) cap ≡ true
    → Queue.push_batch cap q (x ∷ xs)
      ≡ ((Queue.push_batch cap (q ++ x ∷ []) xs).0 + 1, (Queue.push_batch cap (q ++ x ∷ []) xs).1)
unfolding Queue.push_batch
push_step {A} cap q x xs h =
    let long : length (q ++ x ∷ []) ≡ length q + 1 = length-append q (x ∷ []) in
    let count : min (suc (length xs)) (cap - length q)
        ≡ suc (min (length xs) (cap - length (q ++ x ∷ []))) =
      omega (arith, long, ltb→lt (length q) cap h) in
    let n : ℕ = min (length xs) (cap - length (q ++ x ∷ [])) in
    rw count (
      ap₂ (λ (m : ℕ) (l : List A). (m, l)) (omega arith)
        (sym (append_assoc q (x ∷ []) (take n xs))))

push_full :
    {A : Type 0} (cap : ℕ) (q : List A) (x : A) (xs : List A)
    → ltb (length q) cap ≡ false
    → Queue.push_batch cap q (x ∷ xs) ≡ (0, q)
unfolding Queue.push_batch
push_full {A} cap q x xs h =
    let none_left : min (suc (length xs)) (cap - length q) ≡ 0 = ground arith in
    rw none_left (ap (λ (l : List A). (0, l)) (append-nil q))

push_none : {A : Type 0} (cap : ℕ) (q : List A) → Queue.push_batch cap q [] ≡ (0, q)
unfolding Queue.push_batch
push_none {A} cap q =
    let none_left : min 0 (cap - length q) ≡ 0 = omega arith in
    rw none_left (ap (λ (l : List A). (0, l)) (append-nil q))

push-room :
    {A : Type 0} {b : Bool} {l : List A} (cap : ℕ) (q : List A) (x : A)
    → ltb (length q) cap ≡ true
    → (b, l) ≡ Queue.push cap q x
    → (b ≡ true) × (l ≡ q ++ x ∷ [])
unfolding Queue.push
push-room cap q x h e = ground (arith, e)

push-no_room :
    {A : Type 0} {b : Bool} {l : List A} (cap : ℕ) (q : List A) (x : A)
    → ltb (length q) cap ≡ false
    → (b, l) ≡ Queue.push cap q x
    → (b ≡ false) × (l ≡ q)
unfolding Queue.push
push-no_room cap q x h e = ground (arith, e)

pub push_received_refines :
    (address : ℕ → ℕ) (i : ℕ) (lens : List ℕ) {r : PacketRing}
    → IsValid r
    → r.write_pos + length lens < 2 ^ 64
    → let (added, r') = push_received address i lens r in
      (added, contents r') ≡ Queue.push_batch r.capacity (contents r) (batch address i lens)
unfolding push_received batch Queue.push_batch
push_received_refines address i [] {r} v h = sym (push_none r.capacity (contents r))
push_received_refines address i (len ∷ lens) {r} v h =
    let x : Packet = of_buffer (address i) len 0 in
    let rest : List Packet = batch address (i + 1) lens in
    let q : List Packet = contents r in
    let one = try_push_refines x v (omega arith) in
    let moves = push_moves r x in
    let ih =
      push_received_refines address (i + 1) lens (try_push-IsValid x v (omega arith))
        (omega (arith, moves.1)) in
    elim (Bool-cases (ltb (length q) r.capacity)) [
      | inl room ↦
          let (pushed, held) = push-room r.capacity q x room one in
          let ih' : (
            (push_received address (i + 1) lens (try_push r x).1).0,
            contents (push_received address (i + 1) lens (try_push r x).1).1,
          )
              ≡ Queue.push_batch r.capacity (q ++ x ∷ []) rest =
            ih ∙ ap₂ (λ (cap : ℕ) (l : List Packet). Queue.push_batch cap l rest) moves.0 held in
          rw pushed (
            ap (λ (p : ℕ × List Packet). (p.0 + 1, p.1)) ih'
            ∙ sym (push_step r.capacity q x rest room))
      | inr full ↦
          let (refused, held) = push-no_room r.capacity q x full one in
          rw refused
            (ap (λ (l : List Packet). (0, l)) held ∙ sym (push_full r.capacity q x rest full))
    ]

received_refines :
    (address : ℕ → ℕ) (o : BatchIoOptions) (is_cancelled : Bool) (reply : Reply) {r : PacketRing}
    → IsValid r
    → r.write_pos + length (lengths reply) < 2 ^ 64
    → let (result, r') = finish_ring address o is_cancelled r reply in
      ((result.count, contents r')
        ≡ Queue.push_batch r.capacity (contents r) (batch address 0 (lengths reply)))
      × ((result.status ≡ ok) ↔ (lengths reply ≢ []))
unfolding finish_ring classify store_in_ring batch
received_refines address o is_cancelled (failed errno) {r} v h =
    ground (arith, push_none r.capacity (contents r))
received_refines address o is_cancelled (transferred []) {r} v h =
    ground (arith, push_none r.capacity (contents r))
received_refines address o is_cancelled (transferred (len ∷ lens)) {r} v h =
    (push_received_refines address 0 (len ∷ lens) v h, (λ e. cc, λ e. refl))

-- What `recv_batch` does to a ring: where the loop ends with some messages, or with none or an error,
-- the result and the ring are those of pushing the messages, as a batch, to the bounded queue of the
-- ring's contents: `count` is the number that fits, the rest is lost, and the status is `ok` exactly if
-- there were messages.
pub recv_batch_refines :
    (address : ℕ → ℕ) (o : BatchIoOptions) (max_packets : ℕ) (w : World) (reply : Reply)
    {r : PacketRing}
    → IsValid r
    → 0 < max_packets
    → (recvmmsg_with_policy o w.cancelled_before w.attempts).outcome ≡ some reply
    → r.write_pos + length (lengths reply) < 2 ^ 64
    → (result : BatchIoResult) × (r' : PacketRing) × (recv_batch address o max_packets w r
        ≡ some (result, r'))
      × ((result.count, contents r')
          ≡ Queue.push_batch r.capacity (contents r) (batch address 0 (lengths reply)))
      × ((result.status ≡ ok) ↔ (lengths reply ≢ []))
unfolding recv_batch
recv_batch_refines address o max_packets w reply {r} v pos e h =
    let some_packets : (max_packets == 0) ≡ false = ground arith in
    let (refines, status) = received_refines address o w.cancelled_after reply v h in
    let (result, r') = finish_ring address o w.cancelled_after r reply in
    (
      result,
      r',
      rw some_packets (ap (Option.map (finish_ring address o w.cancelled_after r)) e),
      refines,
      status,
    )

push_received_keeps :
    (address : ℕ → ℕ) (i : ℕ) (lens : List ℕ) {r : PacketRing}
    → IsValid r
    → r.write_pos + length lens < 2 ^ 64
    → let r' = (push_received address i lens r).1 in
      IsValid r' × (r'.capacity ≡ r.capacity) × (r'.write_pos ≤ r.write_pos + length lens)
unfolding push_received
push_received_keeps address i [] {r} v h = (v, refl, omega arith)
push_received_keeps address i (len ∷ lens) {r} v h =
    let x : Packet = of_buffer (address i) len 0 in
    let valid = try_push-IsValid x v (omega arith) in
    let (same, moved) = push_moves r x in
    let (valid', same', moved') =
      push_received_keeps address (i + 1) lens valid (omega (arith, moved)) in
    elim (Bool-cases (try_push r x).0) [
      | inl pushed ↦ rw pushed (valid', same' ∙ same, omega (arith, moved, moved'))
      | inr full ↦ rw full (valid, same, omega (arith, moved))
    ]

push_batch-fits :
    {A : Type 0} (cap : ℕ) (q xs : List A)
    → length q + length xs ≤ cap
    → (Queue.push_batch cap q xs).1 ≡ q ++ xs
unfolding Queue.push_batch
push_batch-fits {A} cap q xs h =
    let all : min (length xs) (cap - length q) ≡ length xs = omega arith in
    ap (λ (n : ℕ). q ++ take n xs) all
    ∙ ap (λ (l : List A). q ++ l) (take-all (length xs) xs (omega arith))

-- Two batches with room for both lie in the ring one after the other, and the `i`-th packets of both
-- point to the same buffer: the second `recvmmsg` has overwritten what the first received.
pub batches_share_buffers :
    (address : ℕ → ℕ) (first second : List ℕ) {r : PacketRing}
    → IsValid r
    → r.write_pos + length first + length second < 2 ^ 64
    → length (contents r) + length first + length second ≤ r.capacity
    → let r' = (push_received address 0 first r).1 in
      contents (push_received address 0 second r').1
      ≡ contents r ++ (batch address 0 first ++ batch address 0 second)
batches_share_buffers address first second {r} v h room =
    let (valid, same, moved) = push_received_keeps address 0 first v (omega arith) in
    let one = batch address 0 first in
    let two = batch address 0 second in
    let n_one : length one ≡ length first = length-batch address 0 first in
    let n_two : length two ≡ length second = length-batch address 0 second in
    let r' : PacketRing = (push_received address 0 first r).1 in
    let held : contents r' ≡ contents r ++ one =
      ap (λ (p : ℕ × List Packet). p.1) (push_received_refines address 0 first v (omega arith))
      ∙ push_batch-fits r.capacity (contents r) one (omega (arith, n_one)) in
    let n_held : length (contents r ++ one) ≡ length (contents r) + length one =
      length-append (contents r) one in
    ap (λ (p : ℕ × List Packet). p.1)
      (push_received_refines address 0 second valid (omega (arith, moved)))
    ∙ ap₂ (λ (cap : ℕ) (l : List Packet). (Queue.push_batch cap l two).1) same held
    ∙ push_batch-fits r.capacity (contents r ++ one) two (omega (arith, n_one, n_two, n_held))
    ∙ append_assoc (contents r) one two
