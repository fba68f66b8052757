-- ===== src/Udp/Feedback.antt =====
-- `UdpDeliveryFeedback` of include/usn/protocol/udp_feedback.hpp; the counters are `uint64_t`.
pub mod Account
mod Tests
use usn_hft_sim.Base.{ℕ, ◌+◌, ◌-◌, max, ltb, ◌==◌, if◌then◌else◌, u64}

pub record Feedback : Type 0 where
  pub expected_seq : ℕ
  pub total : ℕ
  pub gaps : ℕ
  pub reorder_events : ℕ
  pub max_reorder_depth : ℕ

abbrev pub fresh : Feedback
fresh = record { expected_seq = 1; total = 0; gaps = 0; reorder_events = 0; max_reorder_depth = 0 }

unfoldable pub observe : Feedback → ℕ → Feedback
observe s seq =
    let total = u64 (s.total + 1) in
    if seq == s.expected_seq
    then record s { total = total; expected_seq = u64 (s.expected_seq + 1) }
    else (if ltb s.expected_seq seq
        then record s {
          total = total;
          gaps = u64 (s.gaps + (seq - s.expected_seq));
          expected_seq = u64 (seq + 1);
        }
        else record s {
          total = total;
          reorder_events = u64 (s.reorder_events + 1);
          max_reorder_depth = max s.max_reorder_depth (s.expected_seq - seq);
        })
