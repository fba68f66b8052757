-- ===== src/Tcp/Rto/Bounds.antt =====
-- The timeout and the smoothed values stay in range, whatever is sampled.
use usn_hft_sim.Base.{ℕ, ◌≤◌, ◌<◌, ◌^◌, ◌≡◌, arith, true, List, [], ◌∷◌}
use usn_hft_sim.Tcp.Rto.{Estimator, fresh, min_rto_ms, max_rto_ms, sample_rtt}

unfoldable pub sample_all : Estimator → List ℕ → Estimator
sample_all s [] = s
sample_all s (rtt ∷ rtts) = sample_all (sample_rtt s rtt) rtts

sample_rtt-clamped :
    (s : Estimator) (rtt : ℕ)
    → (min_rto_ms ≤ (sample_rtt s rtt).rto_ms) × ((sample_rtt s rtt).rto_ms ≤ max_rto_ms)
unfolding sample_rtt
sample_rtt-clamped s rtt = ground arith

sample_all-clamped :
    (s : Estimator) (rtts : List ℕ)
    → (min_rto_ms ≤ s.rto_ms) × (s.rto_ms ≤ max_rto_ms)
    → (min_rto_ms ≤ (sample_all s rtts).rto_ms) × ((sample_all s rtts).rto_ms ≤ max_rto_ms)
unfolding sample_all
sample_all-clamped s [] h = h
sample_all-clamped s (rtt ∷ rtts) h =
    sample_all-clamped (sample_rtt s rtt) rtts (sample_rtt-clamped s rtt)

-- The timeout of an estimator is from 50 to 5000 ms after any samples, overflow included.
pub rto_bounds :
    (rtts : List ℕ)
    → (min_rto_ms ≤ (sample_all fresh rtts).rto_ms) × ((sample_all fresh rtts).rto_ms ≤ max_rto_ms)
rto_bounds rtts = sample_all-clamped fresh rtts (omega arith)

-- Samples between `lo` and `hi`.
abbrev pub Within : ℕ → ℕ → List ℕ → Type 0
Within lo hi [] = Unit
Within lo hi (rtt ∷ rtts) = (lo ≤ rtt) × (rtt ≤ hi) × Within lo hi rtts

pub record IsSmooth (lo hi : ℕ) (s : Estimator) : Type 0 where
  pub started : s.initialized ≡ true
  pub above : lo ≤ s.srtt_ms
  pub below : s.srtt_ms ≤ hi
  pub spread : s.rttvar_ms ≤ hi

sample_rtt-IsSmooth :
    (lo hi rtt : ℕ) (s : Estimator)
    → 0 < lo
    → hi < 2 ^ 60
    → lo ≤ rtt
    → rtt ≤ hi
    → IsSmooth lo hi s
    → IsSmooth lo hi (sample_rtt s rtt)
unfolding sample_rtt
sample_rtt-IsSmooth lo hi rtt s pos fits l h v = ground arith

sample_all-IsSmooth :
    (lo hi : ℕ) (s : Estimator) (rtts : List ℕ)
    → 0 < lo
    → hi < 2 ^ 60
    → Within lo hi rtts
    → IsSmooth lo hi s
    → IsSmooth lo hi (sample_all s rtts)
unfolding sample_all
sample_all-IsSmooth lo hi s [] pos fits w v = v
sample_all-IsSmooth lo hi s (rtt ∷ rtts) pos fits w v =
    sample_all-IsSmooth lo hi (sample_rtt s rtt) rtts pos fits w.2
      (sample_rtt-IsSmooth lo hi rtt s pos fits w.0 w.1 v)

first-IsSmooth :
    (lo hi rtt : ℕ) → 0 < lo → lo ≤ rtt → rtt ≤ hi → IsSmooth lo hi (sample_rtt fresh rtt)
unfolding sample_rtt
first-IsSmooth lo hi rtt pos l h = ground arith

-- If all samples lie between `lo` and `hi`, at least 1 and below 2 ^ 60, so does the smoothed
-- round-trip time after them, and the variation is at most `hi`: rounding never drifts out.
pub samples_bound_srtt :
    (lo hi rtt : ℕ) (rtts : List ℕ)
    → 0 < lo
    → hi < 2 ^ 60
    → Within lo hi (rtt ∷ rtts)
    → IsSmooth lo hi (sample_all fresh (rtt ∷ rtts))
unfolding sample_all
samples_bound_srtt lo hi rtt rtts pos fits w =
    sample_all-IsSmooth lo hi (sample_rtt fresh rtt) rtts pos fits w.2
      (first-IsSmooth lo hi rtt pos w.0 w.1)
