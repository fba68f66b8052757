-- ===== src/Tcp/Rto/Tests.antt =====
-- The estimator on small inputs.
use usn_hft_sim.Base.{◌≡◌, ◌≤◌, refl, [], ◌∷◌}
use usn_hft_sim.Tcp.Rto.{fresh, sample_rtt, smooth, clamp}
use usn_hft_sim.Tcp.Rto.Bounds.{sample_all, rto_bounds}

smooths : (sample_rtt (sample_rtt fresh 80) 160).srtt_ms ≡ 90
unfolding sample_rtt smooth clamp
smooths = refl

rto_bounds_example :
    (50 ≤ (sample_all fresh (80 ∷ 100000 ∷ [])).rto_ms)
    × ((sample_all fresh (80 ∷ 100000 ∷ [])).rto_ms ≤ 5000)
rto_bounds_example = rto_bounds (80 ∷ 100000 ∷ [])
