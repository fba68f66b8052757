-- ===== src/Apps/Subscriber/Report.antt =====
-- The final report of apps/market_udp/feed_subscriber.cpp, with the percentiles. The index, which the
-- code computes in floating point from the last index, is a parameter.
use usn_hft_sim.Base.{ℕ, ◌-◌, List, [], ◌∷◌, ◌++◌, length, get_or, leb, if◌then◌else◌}
use usn_hft_sim.Base.Text.{codes, to_string}
use usn_hft_sim.Udp.Feedback.{Feedback}

-- `std::sort`
unfoldable pub insert_sorted : ℕ → List ℕ → List ℕ
insert_sorted x [] = x ∷ []
insert_sorted x (y ∷ ys) = let rest = insert_sorted x ys in if leb x y then x ∷ y ∷ ys else y ∷ rest

unfoldable pub sort : List ℕ → List ℕ
unfolding insert_sorted
sort [] = []
sort (x ∷ xs) = insert_sorted x (sort xs)

-- `index` is the rounding down of `q` times the last index.
unfoldable pub percentile_us : (index : ℕ → ℕ) → List ℕ → ℕ
unfolding sort
percentile_us index [] = 0
percentile_us index (x ∷ xs) = get_or (sort (x ∷ xs)) (index (length (x ∷ xs) - 1)) 0

pub record Report : Type 0 where
  pub id : ℕ
  pub recv_total : ℕ
  pub gaps : ℕ
  pub reorder_events : ℕ
  pub max_reorder_depth : ℕ
  pub latency_p50_us : ℕ
  pub latency_p99_us : ℕ
  pub latency_p999_us : ℕ
  pub latency_max_us : ℕ

-- The indices of the percentiles 50, 99 and 99.9; that of 100 is the last.
pub record Indices : Type 0 where
  pub p50 : ℕ → ℕ
  pub p99 : ℕ → ℕ
  pub p999 : ℕ → ℕ

unfoldable pub report_of : Indices → (subscriber_id : ℕ) → Feedback → List ℕ → Report
unfolding percentile_us
report_of i subscriber_id feedback latency_us_samples = record {
  id = subscriber_id;
  recv_total = feedback.total;
  gaps = feedback.gaps;
  reorder_events = feedback.reorder_events;
  max_reorder_depth = feedback.max_reorder_depth;
  latency_p50_us = percentile_us i.p50 latency_us_samples;
  latency_p99_us = percentile_us i.p99 latency_us_samples;
  latency_p999_us = percentile_us i.p999 latency_us_samples;
  latency_max_us = percentile_us (λ last. last) latency_us_samples;
}

-- A name with its `=`, and the number.
abbrev pub field : List ℕ → ℕ → List ℕ → List ℕ
field name n rest = name ++ (to_string n ++ rest)

-- The line in the summary file.
unfoldable pub summary_line : Report → List ℕ
summary_line r = field (codes "id=") r.id (
    field (codes " recv_total=") r.recv_total (
      field (codes " gaps=") r.gaps (
        field (codes " reorder_events=") r.reorder_events (
          field (codes " max_reorder_depth=") r.max_reorder_depth (
            field (codes " latency_p50_us=") r.latency_p50_us (
              field (codes " latency_p99_us=") r.latency_p99_us (
                field (codes " latency_p999_us=") r.latency_p999_us
                  (field (codes " latency_max_us=") r.latency_max_us (10 ∷ [])))))))))
