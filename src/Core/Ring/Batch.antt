-- ===== src/Core/Ring/Batch.antt =====
-- The batch operations of `PacketRing` against those of the queue.
use usn_hft_sim.Base.{
  ℕ, zero, suc, ◌+◌, ◌-◌, ◌%◌, ◌^◌, ◌≤◌, ◌<◌, ◌≡◌, refl, sym, ap, ap₂, ◌∙◌, arith, List, ◌∷◌, [],
  ◌++◌, length, get_or, set, take, take-append-drop, drop, length-set, u64, sub_u64, min, bit_and,
}
use mathlib.Core.List.{append-nil, append_assoc}
use native.Mathlib.Nat.{add-zero, zero-add}
use usn_hft_sim.Core.Packet.{Packet, blank, reset}
use usn_hft_sim.Core.Queue
use usn_hft_sim.Core.Ring.{PacketRing, copy_in, copy_out, try_push_batch, try_pop_batch}
use usn_hft_sim.Core.Ring.Index.{window, window-push, window-set_below}
use usn_hft_sim.Core.Ring.Inv.{IsValid, contents, bit_and-eq-mod}
use usn_hft_sim.Core.Ring.Refine.{length-contents}

module _ {ℓ} {A : Type ℓ} where
  take-suc-drop :
      (xs : List A) (i n : ℕ) (d : A)
      → i < length xs
      → take (suc n) (drop i xs) ≡ get_or xs i d ∷ take n (drop (suc i) xs)
  take-suc-drop [] i n d h = absurd (omega arith)
  take-suc-drop (x ∷ xs) zero n d h = refl
  take-suc-drop (x ∷ xs) (suc i) n d h = take-suc-drop xs i n d (omega arith)

  take-set :
      (xs : List A) (i : ℕ) (x : A)
      → i < length xs
      → take (suc i) (set xs i x) ≡ take i xs ++ x ∷ []
  take-set [] i x h = absurd (omega arith)
  take-set (y ∷ xs) zero x h = refl
  take-set (y ∷ xs) (suc i) x h = ap (λ l. y ∷ l) (take-set xs i x (omega arith))

  drop-set : (xs : List A) (i k : ℕ) (x : A) → i < k → drop k (set xs i x) ≡ drop k xs
  drop-set xs i zero x h = absurd (omega arith)
  drop-set [] i (suc k) x h = refl
  drop-set (y ∷ xs) zero (suc k) x h = refl
  drop-set (y ∷ xs) (suc i) (suc k) x h = drop-set xs i k x (omega arith)

-- `masks` is the law of a mask for a capacity, and holds of every valid ring.
module _ (mask c : ℕ) (masks : (p : ℕ) → bit_and p mask ≡ p % c) where
  slot_of : (p q : ℕ) → p ≡ q → p < 2 ^ 64 → bit_and (u64 p) mask ≡ q % c
  slot_of p q e h = let kept : u64 p ≡ q = omega arith in masks (u64 p) ∙ ap (λ (t : ℕ). t % c) kept

  -- The copied packets extend a window of `m` packets.
  copy_in-window :
      (n i w q m : ℕ) (source slots : List Packet)
      → q + m ≡ w + i
      → m + n ≤ c
      → i + n ≤ length source
      → w + i + n < 2 ^ 64
      → length slots ≡ c
      → window (copy_in mask w n i source slots) c q (m + n)
        ≡ window slots c q m ++ take n (drop i source)
  unfolding copy_in
  copy_in-window zero i w q m source slots at room enough fits len = rw (add-zero, append-nil)
  copy_in-window (suc n) i w q m source slots at room enough fits len =
      let x = get_or source i blank in
      let k = bit_and (u64 (w + i)) mask in
      let shift : m + suc n ≡ suc m + n = omega arith in
      let one_more : i + 1 ≡ suc i = omega arith in
      let here : k ≡ (q + m) % c = slot_of (w + i) (q + m) (sym at) (omega arith) in
      let pushed : window (set slots k x) c q (suc m) ≡ window slots c q m ++ x ∷ [] =
        ap (λ j. window (set slots j x) c q (suc m)) here
        ∙ window-push slots c q m x (omega arith) len in
      ap (λ j. window (copy_in mask w n (i + 1) source (set slots k x)) c q j) shift
      ∙ copy_in-window n (i + 1) w q (suc m) source (set slots k x) (omega arith) (omega arith)
          (omega arith) (omega arith) (length-set slots k x ∙ len)
      ∙ ap₂ (λ l j. l ++ take n (drop j source)) pushed one_more
      ∙ append_assoc (window slots c q m) (x ∷ []) (take n (drop (suc i) source))
      ∙ ap (λ l. window slots c q m ++ l) (sym (take-suc-drop source i n blank (omega arith)))

  -- The packets taken out stand in the caller's array, and those behind them are left alone.
  copy_out-window :
      (n i p m : ℕ) (out slots : List Packet)
      → n + m ≤ c
      → i + n ≤ length out
      → p + i + n < 2 ^ 64
      → ((copy_out mask p n i out slots).0
          ≡ take i out ++ (window slots c (p + i) n ++ drop (i + n) out))
        × (window (copy_out mask p n i out slots).1 c (p + i + n) m ≡ window slots c (p + i + n) m)
  unfolding copy_out
  copy_out-window zero i p m out slots room enough fits =
      (rw add-zero (sym (take-append-drop i out)), refl)
  copy_out-window (suc n) i p m out slots room enough fits =
      let k = bit_and (u64 (p + i)) mask in
      let x = get_or slots k blank in
      let slots' = set slots k (reset x) in
      let here : k ≡ (p + i) % c = slot_of (p + i) (p + i) refl (omega arith) in
      let next : p + (i + 1) ≡ p + i + 1 = omega arith in
      let end : p + (i + 1) + n ≡ p + i + suc n = omega arith in
      let gone : i + 1 + n ≡ i + suc n = omega arith in
      let one_more : i + 1 ≡ suc i = omega arith in
      let kept : (j len : ℕ)
          → p + i < j
          → j + len ≤ p + i + c
          → window slots' c j len ≡ window slots c j len =
        λ j len h t.
          ap (λ a. window (set slots a (reset x)) c j len) here
          ∙ window-set_below slots c j len (p + i) (reset x) h t in
      let ih =
        copy_out-window n (i + 1) p m (set out i x) slots' (omega arith)
          (rw length-set (omega arith)) (omega arith) in
      let front : take (i + 1) (set out i x) ≡ take i out ++ x ∷ [] =
        ap (λ j. take j (set out i x)) one_more ∙ take-set out i x (omega arith) in
      let middle : window slots' c (p + (i + 1)) n ≡ window slots c (p + i + 1) n =
        kept (p + (i + 1)) n (omega arith) (omega arith) ∙ ap (λ j. window slots c j n) next in
      let back : drop (i + 1 + n) (set out i x) ≡ drop (i + suc n) out =
        drop-set out i (i + 1 + n) x (omega arith) ∙ ap (λ j. drop j out) gone in
      let head : x ≡ get_or slots ((p + i) % c) blank = ap (λ j. get_or slots j blank) here in
      let later : window slots' c (p + (i + 1) + n) m ≡ window slots c (p + i + suc n) m =
        kept (p + (i + 1) + n) m (omega arith) (omega arith) ∙ ap (λ j. window slots c j m) end in
      (
        cc (
            append_assoc (take i out) (x ∷ [])
              (window slots c (p + i + 1) n ++ drop (i + suc n) out)),
        cc,
      )

window-split :
    (slots : List Packet) (c p n m : ℕ)
    → (take n (window slots c p (n + m)) ≡ window slots c p n)
      × (drop n (window slots c p (n + m)) ≡ window slots c (p + n) m)
window-split slots c p zero m = (refl, rw (zero-add, add-zero))
window-split slots c p (suc n) m =
    let ih = window-split slots c (p + 1) n m in
    let grown : suc n + m ≡ suc (n + m) = omega arith in
    let shift : p + 1 + n ≡ p + suc n = omega arith in
    (
      ap (λ k. take (suc n) (window slots c p k)) grown
          ∙ ap (λ l. get_or slots (p % c) blank ∷ l) ih.0,
      ap (λ k. drop (suc n) (window slots c p k)) grown ∙ ih.1 ∙ ap (λ k. window slots c k m) shift,
    )

-- `try_push_batch` pushes as many packets as fit, in order, and returns their number.
pub try_push_batch_refines :
    {r : PacketRing} (xs : List Packet)
    → IsValid r
    → r.write_pos + length xs < 2 ^ 64
    → let (n, r') = try_push_batch r xs in
      (n, contents r') ≡ Queue.push_batch r.capacity (contents r) xs
unfolding try_push_batch Queue.push_batch
try_push_batch_refines {r} xs v h =
    let n : ℕ = min (length xs) (sub_u64 r.capacity (sub_u64 r.write_pos r.read_pos)) in
    ground (
      arith,
      length-contents r,
      append-nil (contents r),
      copy_in-window r.mask r.capacity (bit_and-eq-mod v) n 0 r.write_pos r.read_pos
          (r.write_pos - r.read_pos) xs r.packets,
    )

-- `try_pop_batch` pops as many packets as the ring holds and the array takes.
pub try_pop_batch_refines :
    {r : PacketRing} (out : List Packet)
    → IsValid r
    → let (n, out', r') = try_pop_batch r out in
      (n, out', contents r') ≡ Queue.pop_batch (contents r) out
unfolding try_pop_batch Queue.pop_batch
try_pop_batch_refines {r} out v =
    let n : ℕ = min (length out) (sub_u64 r.write_pos r.read_pos) in
    ground (
      arith,
      length-contents r,
      window-split r.packets r.capacity r.read_pos n (r.write_pos - r.read_pos - n),
      copy_out-window r.mask r.capacity (bit_and-eq-mod v) n 0 r.read_pos
          (r.write_pos - r.read_pos - n) out r.packets,
    )
