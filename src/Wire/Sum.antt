-- ===== src/Wire/Sum.antt =====
-- The sum of `calculate_checksum`, which tcp_protocol.hpp and udp_protocol.hpp spell the same way but
-- for the protocol number. Sums are `uint32_t`.
use usn_hft_sim.Base.{
  ℕ, zero, suc, ◌+◌, ◌-◌, ◌*◌, ◌/◌, ◌%◌, ◌^◌, ◌≤◌, ◌<◌, ◌≡◌, ap, ◌∙◌, arith, List, [], ◌∷◌, length,
  u16, u32, if◌then◌else◌, ◌==◌,
}
use usn_hft_sim.Wire.Order.{swap16, AreBytes}

-- The 16-bit words of the data, and the last byte if the length is odd.
unfoldable pub add_words : ℕ → List ℕ → ℕ
add_words sum [] = sum
add_words sum (b ∷ []) = u32 (sum + swap16 (u16 (b * 2 ^ 8)))
add_words sum (b ∷ b' ∷ bytes) = add_words (u32 (sum + swap16 (b + 2 ^ 8 * b'))) bytes

-- `while (sum >> 16)`, for at most so many rounds; `fold_lem` below says that three end it.
unfoldable pub fold : ℕ → ℕ → ℕ
fold zero sum = sum
fold (suc fuel) sum =
    let rest = fold fuel (sum % 2 ^ 16 + sum / 2 ^ 16) in if sum / 2 ^ 16 == 0 then sum else rest

-- The addresses, the protocol number and the length, in the order of the source.
unfoldable pub pseudo_sum : (protocol len src_ip dst_ip : ℕ) → ℕ
pseudo_sum protocol len src_ip dst_ip =
    let a = u32 (swap16 (src_ip / 2 ^ 16) + swap16 (src_ip % 2 ^ 16)) in
    let b = u32 (u32 (a + swap16 (dst_ip / 2 ^ 16)) + swap16 (dst_ip % 2 ^ 16)) in
    u32 (u32 (b + swap16 protocol) + swap16 (swap16 (u16 len)))

unfoldable pub checksum : (protocol : ℕ) → List ℕ → (src_ip dst_ip : ℕ) → ℕ
unfolding add_words fold pseudo_sum
checksum protocol bytes src_ip dst_ip =
    2 ^ 16 - 1 - fold 3 (add_words (pseudo_sum protocol (length bytes) src_ip dst_ip) bytes)

-- The number from 1 to 2 ^ 16 - 1 that is congruent to a sum modulo 2 ^ 16 - 1, and 0 for 0.
abbrev pub folded : ℕ → ℕ
folded sum = if sum == 0 then 0 else (sum - 1) % (2 ^ 16 - 1) + 1

folded_step : (sum : ℕ) → 2 ^ 16 ≤ sum → folded (sum % 2 ^ 16 + sum / 2 ^ 16) ≡ folded sum
folded_step sum h = ground arith

-- Three rounds end the loop for every 32-bit sum.
pub fold_lem : (sum : ℕ) → sum < 2 ^ 32 → (fold 3 sum ≡ folded sum) × (fold 3 sum < 2 ^ 16)
unfolding fold
fold_lem sum h =
    let s1 : ℕ = sum % 2 ^ 16 + sum / 2 ^ 16 in
    let s2 : ℕ = s1 % 2 ^ 16 + s1 / 2 ^ 16 in
    ground (arith, folded_step sum, folded_step s1, folded_step s2)

-- The same sum with no wrap.
abbrev pub word_total : List ℕ → ℕ
word_total [] = 0
word_total (b ∷ []) = b
word_total (b ∷ b' ∷ bytes) = b * 2 ^ 8 + b' + word_total bytes

pub word_total-le : (bytes : List ℕ) → AreBytes bytes → word_total bytes ≤ 2 ^ 15 * length bytes
word_total-le [] h = omega arith
word_total-le (b ∷ []) h = omega arith
word_total-le (b ∷ b' ∷ bytes) h = omega (arith, word_total-le bytes h.1.1)

-- Within the bound no addition wraps.
pub add_words-eq-word_total :
    (sum : ℕ) (bytes : List ℕ)
    → AreBytes bytes
    → sum + 2 ^ 15 * (length bytes + 1) < 2 ^ 32
    → add_words sum bytes ≡ sum + word_total bytes
unfolding add_words
add_words-eq-word_total sum [] v h = omega arith
add_words-eq-word_total sum (b ∷ []) v h = omega arith
add_words-eq-word_total sum (b ∷ b' ∷ bytes) v h =
    let word : u32 (sum + swap16 (b + 2 ^ 8 * b')) ≡ sum + (b * 2 ^ 8 + b') = omega arith in
    rw word
      (add_words-eq-word_total (sum + (b * 2 ^ 8 + b')) bytes v.1.1 (omega arith) ∙ (omega arith))

swap16-lt : (x : ℕ) → swap16 x < 2 ^ 16
swap16-lt x = omega arith

six_words :
    (a b c d p l : ℕ)
    → a < 2 ^ 16
    → b < 2 ^ 16
    → c < 2 ^ 16
    → d < 2 ^ 16
    → p < 2 ^ 16
    → l < 2 ^ 16
    → 0 < p
    → let sum = u32 (u32 (u32 (u32 (u32 (a + b) + c) + d) + p) + l) in (0 < sum) × (sum < 2 ^ 19)
six_words a b c d p l ha hb hc hd hp hl pos = omega arith

pub pseudo_sum_bounds :
    (protocol len src_ip dst_ip : ℕ)
    → 0 < swap16 protocol
    → (0 < pseudo_sum protocol len src_ip dst_ip) × (pseudo_sum protocol len src_ip dst_ip < 2 ^ 19)
unfolding pseudo_sum
pseudo_sum_bounds protocol len src_ip dst_ip h =
    six_words (swap16 (src_ip / 2 ^ 16)) (swap16 (src_ip % 2 ^ 16)) (swap16 (dst_ip / 2 ^ 16))
      (swap16 (dst_ip % 2 ^ 16)) (swap16 protocol) (swap16 (swap16 (u16 len))) (swap16-lt _)
      (swap16-lt _) (swap16-lt _) (swap16-lt _) (swap16-lt _) (swap16-lt _) h

-- The checksum of fewer than 2 ^ 16 bytes, for a protocol number whose low 16 bits are not zero, in
-- closed form: the complement of the sum of the pseudo header and the words, modulo 2 ^ 16 - 1.
pub checksum-eq-folded :
    (protocol : ℕ) (bytes : List ℕ) (src_ip dst_ip : ℕ)
    → 0 < swap16 protocol
    → AreBytes bytes
    → length bytes < 2 ^ 16
    → checksum protocol bytes src_ip dst_ip
      ≡ 2 ^ 16 - 1 - folded (pseudo_sum protocol (length bytes) src_ip dst_ip + word_total bytes)
unfolding checksum
checksum-eq-folded protocol bytes src_ip dst_ip p v h =
    let pseudo : ℕ = pseudo_sum protocol (length bytes) src_ip dst_ip in
    let small : pseudo < 2 ^ 19 = (pseudo_sum_bounds protocol (length bytes) src_ip dst_ip p).1 in
    let exact : add_words pseudo bytes ≡ pseudo + word_total bytes =
      add_words-eq-word_total pseudo bytes v (omega arith) in
    ap (λ (t : ℕ). 2 ^ 16 - 1 - fold 3 t) exact
    ∙ ap (λ (t : ℕ). 2 ^ 16 - 1 - t)
        (fold_lem (pseudo + word_total bytes) (omega (arith, word_total-le bytes v))).0
