-- ===== src/Udp/Wire/Tests.antt =====
-- Datagrams on small inputs.
use usn_hft_sim.Base.{◌≡◌, List, ℕ, length, get_or, set, true, false, some, [], ◌∷◌, refl, arith}
use usn_hft_sim.Wire.Order.{AreBytes}
use usn_hft_sim.Wire.Sum.{checksum, add_words, fold, pseudo_sum}
use usn_hft_sim.Udp.Wire.{
  UdpHeader, encapsulate, to_network_order, calculate_checksum, parse, verify_checksum,
}
use usn_hft_sim.Udp.Wire.Frame.{encapsulate_parses}
use usn_hft_sim.Udp.Wire.Valid.{changed_byte_is_noticed, encapsulate_verifies}

abbrev sample : List ℕ
sample = encapsulate (1 ∷ 2 ∷ 3 ∷ []) 4000 80 100 200 true

encapsulate_verifies_example :
    verify_checksum (encapsulate (1 ∷ 2 ∷ 3 ∷ []) 4000 80 100 200 true) 100 200 ≡ true
encapsulate_verifies_example =
    encapsulate_verifies (1 ∷ 2 ∷ 3 ∷ []) 4000 80 100 200 (ground arith) (omega arith) (omega arith)
      (omega arith)

encapsulate_parses_example :
    (h : UdpHeader) × (parse (encapsulate (1 ∷ 2 ∷ 3 ∷ []) 4000 80 100 200 true)
      ≡ some (h, 1 ∷ 2 ∷ 3 ∷ []))
    × (h.source_port ≡ 4000)
    × (h.dest_port ≡ 80)
    × (h.length_field ≡ 11)
encapsulate_parses_example =
    encapsulate_parses (1 ∷ 2 ∷ 3 ∷ []) 4000 80 100 200 true (omega arith) (omega arith)
      (omega arith)

sample-AreBytes : AreBytes sample
unfolding encapsulate to_network_order calculate_checksum checksum add_words fold pseudo_sum
sample-AreBytes = ground arith

sample-length : length sample ≡ 11
unfolding encapsulate to_network_order calculate_checksum checksum add_words fold pseudo_sum
sample-length = refl

sample-get_or : get_or sample 9 0 ≡ 2
unfolding encapsulate to_network_order calculate_checksum checksum add_words fold pseudo_sum
sample-get_or = refl

changed_byte_is_noticed_example : verify_checksum (set sample 9 7) 100 200 ≡ false
changed_byte_is_noticed_example =
    changed_byte_is_noticed sample 100 200 9 7 sample-AreBytes (omega (arith, sample-length))
      (encapsulate_verifies (1 ∷ 2 ∷ 3 ∷ []) 4000 80 100 200 (ground arith) (omega arith)
        (omega arith) (omega arith))
      (omega (arith, sample-length)) (omega arith) (λ e. absurd (omega (arith, e, sample-get_or)))
