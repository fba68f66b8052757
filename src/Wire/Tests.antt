-- ===== src/Wire/Tests.antt =====
-- The checksum on a small input.
use usn_hft_sim.Base.{◌≡◌, ◌^◌, ◌+◌, ◌-◌, [], ◌∷◌, arith}
use usn_hft_sim.Wire.Sum.{checksum, folded, pseudo_sum, word_total, checksum-eq-folded}

checksum-eq-folded_example :
    checksum 17 (1 ∷ 2 ∷ 3 ∷ []) 100 200
    ≡ 2 ^ 16 - 1 - folded (pseudo_sum 17 3 100 200 + word_total (1 ∷ 2 ∷ 3 ∷ []))
checksum-eq-folded_example =
    checksum-eq-folded 17 (1 ∷ 2 ∷ 3 ∷ []) 100 200 (omega arith) (ground arith) (omega arith)
