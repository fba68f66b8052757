-- ===== src/Udp/Wire/Valid.antt =====
-- Datagrams that `encapsulate` makes are accepted, and a changed byte is noticed.
use usn_hft_sim.Base.{
  ℕ, suc, zero, ◌+◌, ◌-◌, ◌*◌, ◌%◌, ◌^◌, ◌≤◌, ◌<◌, ◌≡◌, ◌≢◌, ◌⊎◌, inl, inr, sym, ap, ap₂, ◌∙◌,
  arith, true, false, List, [], ◌∷◌, length, get_or, set, ◌==◌, length-set,
}
use usn_hft_sim.Wire.Order.{byte, AreBytes}
use usn_hft_sim.Wire.Sum.{
  checksum, folded, pseudo_sum, word_total, pseudo_sum_bounds, checksum-eq-folded,
}
use usn_hft_sim.Udp.Wire.{calculate_checksum, encapsulate, verify_checksum}
use usn_hft_sim.Udp.Wire.Frame.{frame, encapsulate-eq-seal, seal_on}

-- The sum of the whole packet is zero exactly when its words and the pseudo header add up to a
-- multiple of 2 ^ 16 - 1.
verify_iff :
    (packet : List ℕ) (s d : ℕ)
    → AreBytes packet
    → 8 ≤ length packet
    → length packet < 2 ^ 16
    → verify_checksum packet s d
      ≡ ((pseudo_sum 17 (length packet) s d + word_total packet) % (2 ^ 16 - 1) == 0)
unfolding verify_checksum calculate_checksum
verify_iff packet s d bs long short =
    let pos = (pseudo_sum_bounds 17 (length packet) s d (omega arith)).0 in
    ground (arith, checksum-eq-folded 17 packet s d (omega arith) bs short)

set-AreBytes : (p : List ℕ) (i b : ℕ) → AreBytes p → b < 2 ^ 8 → AreBytes (set p i b)
set-AreBytes [] i b v h = v
set-AreBytes (x ∷ p) zero b v h = (h, v.1)
set-AreBytes (x ∷ p) (suc i) b v h = (v.0, set-AreBytes p i b v.1 h)

get-AreBytes : (p : List ℕ) (i : ℕ) → AreBytes p → get_or p i 0 < 2 ^ 8
get-AreBytes [] i v = omega arith
get-AreBytes (x ∷ p) zero v = v.0
get-AreBytes (x ∷ p) (suc i) v = get-AreBytes p i v.1

-- A byte counts once or 2 ^ 8 times in the words.
word_total-set :
    (p : List ℕ) (i b : ℕ)
    → i < length p
    → (word_total (set p i b) + get_or p i 0 ≡ word_total p + b)
      ⊎ (word_total (set p i b) + get_or p i 0 * 2 ^ 8 ≡ word_total p + b * 2 ^ 8)
word_total-set [] i b h = absurd (omega arith)
word_total-set (x ∷ []) zero b h = inl (omega arith)
word_total-set (x ∷ []) (suc i) b h = absurd (omega arith)
word_total-set (x ∷ y ∷ p) zero b h = inr (omega arith)
word_total-set (x ∷ y ∷ p) (suc zero) b h = inl (omega arith)
word_total-set (x ∷ y ∷ p) (suc (suc i)) b h = ground (arith, word_total-set p i b)

changed_total :
    (q w w' x b : ℕ)
    → x < 2 ^ 8
    → b < 2 ^ 8
    → x ≢ b
    → ((q + w) % (2 ^ 16 - 1) == 0) ≡ true
    → (w' + x ≡ w + b) ⊎ (w' + x * 2 ^ 8 ≡ w + b * 2 ^ 8)
    → ((q + w') % (2 ^ 16 - 1) == 0) ≡ false
changed_total q w w' x b hx hb new ok e = ground arith

verified_is_long :
    (packet : List ℕ) (s d : ℕ) → verify_checksum packet s d ≡ true → 8 ≤ length packet
unfolding verify_checksum
verified_is_long packet s d ok = ground arith

-- A datagram of fewer than 2 ^ 16 bytes that is accepted is not accepted any more after one of its bytes has changed.
pub changed_byte_is_noticed :
    (packet : List ℕ) (s d i b : ℕ)
    → AreBytes packet
    → length packet < 2 ^ 16
    → verify_checksum packet s d ≡ true
    → i < length packet
    → b < 2 ^ 8
    → get_or packet i 0 ≢ b
    → verify_checksum (set packet i b) s d ≡ false
changed_byte_is_noticed packet s d i b bs short ok inside hb new =
    let old : get_or packet i 0 < 2 ^ 8 = get-AreBytes packet i bs in
    let same : length (set packet i b) ≡ length packet = length-set packet i b in
    let long : 8 ≤ length packet = verified_is_long packet s d ok in
    let q : ℕ = pseudo_sum 17 (length packet) s d in
    let zero_sum : ((q + word_total packet) % (2 ^ 16 - 1) == 0) ≡ true =
      sym (verify_iff packet s d bs long short) ∙ ok in
    verify_iff (set packet i b) s d (set-AreBytes packet i b bs hb) (omega arith) (omega arith)
    ∙ ap (λ (n : ℕ). (pseudo_sum 17 n s d + word_total (set packet i b)) % (2 ^ 16 - 1) == 0) same
    ∙ changed_total q (word_total packet) (word_total (set packet i b)) (get_or packet i 0) b old hb
        new zero_sum (word_total-set packet i b inside)

calculate_checksum-lt : (bytes : List ℕ) (s d : ℕ) → calculate_checksum bytes s d < 2 ^ 16
unfolding calculate_checksum checksum
calculate_checksum-lt bytes s d = omega arith

frame-AreBytes :
    (source dest len b6 b7 : ℕ) (payload : List ℕ)
    → b6 < 2 ^ 8
    → b7 < 2 ^ 8
    → AreBytes payload
    → AreBytes (frame source dest len b6 b7 payload)
frame-AreBytes source dest len b6 b7 payload h6 h7 v = ground arith

closed_sum :
    (payload : List ℕ) (source dest s d : ℕ)
    → AreBytes payload
    → length payload + 8 < 2 ^ 16
    → let f = frame source dest (length payload + 8) 0 0 payload in
      calculate_checksum f s d
      ≡ 2 ^ 16 - 1 - folded (pseudo_sum 17 (8 + length payload) s d + word_total f)
unfolding calculate_checksum
closed_sum payload source dest s d bs short =
    let f : List ℕ = frame source dest (length payload + 8) 0 0 payload in
    let count : length f ≡ 8 + length payload = omega arith in
    checksum-eq-folded 17 f s d (omega arith)
      (frame-AreBytes source dest _ 0 0 payload (omega arith) (omega arith) bs) (omega arith)
    ∙ ap (λ (n : ℕ). 2 ^ 16 - 1 - folded (pseudo_sum 17 n s d + word_total f)) count

sealed_total :
    (p w sum : ℕ)
    → 0 < p
    → sum ≡ 2 ^ 16 - 1 - folded (p + w)
    → ((p + (w + (byte 1 sum * 2 ^ 8 + byte 0 sum))) % (2 ^ 16 - 1) == 0) ≡ true
sealed_total p w sum pos e = ground arith

-- A datagram of fewer than 2 ^ 16 bytes that is made with a checksum, between addresses that are not
-- zero, is accepted.
pub encapsulate_verifies :
    (payload : List ℕ) (source dest s d : ℕ)
    → AreBytes payload
    → length payload + 8 < 2 ^ 16
    → 0 < s
    → 0 < d
    → verify_checksum (encapsulate payload source dest s d true) s d ≡ true
encapsulate_verifies payload source dest s d bs short hs hd =
    let sum : ℕ = calculate_checksum (frame source dest (length payload + 8) 0 0 payload) s d in
    let small : sum < 2 ^ 16 = calculate_checksum-lt _ s d in
    let sealed : List ℕ =
      frame source dest (length payload + 8) (byte 1 sum) (byte 0 sum) payload in
    let p : ℕ = pseudo_sum 17 (8 + length payload) s d in
    let w : ℕ = word_total (frame source dest (length payload + 8) 0 0 payload) in
    let count : length sealed ≡ 8 + length payload = omega arith in
    let total : word_total sealed ≡ w + (byte 1 sum * 2 ^ 8 + byte 0 sum) = omega arith in
    ap (λ (t : List ℕ). verify_checksum t s d)
      (encapsulate-eq-seal payload source dest s d true ∙ seal_on s d _ hs hd)
    ∙ verify_iff sealed s d
        (frame-AreBytes source dest _ (byte 1 sum) (byte 0 sum) payload (omega arith) (omega arith)
          bs)
        (omega arith) (omega arith)
    ∙ ap₂ (λ (n t : ℕ). (pseudo_sum 17 n s d + t) % (2 ^ 16 - 1) == 0) count total
    ∙ sealed_total p w sum (pseudo_sum_bounds 17 (8 + length payload) s d (omega arith)).0
        (closed_sum payload source dest s d bs short)
