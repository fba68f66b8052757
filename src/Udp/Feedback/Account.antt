-- ===== src/Udp/Feedback/Account.antt =====
-- What the counters say of the datagrams that came.
use usn_hft_sim.Base.{
  ℕ, ◌+◌, ◌-◌, ◌≤◌, ◌<◌, ◌^◌, max, ◌≡◌, arith, List, [], ◌∷◌, length, ltb, if◌then◌else◌,
}
use usn_hft_sim.Udp.Feedback.{Feedback, fresh, observe}

unfoldable pub observe_all : Feedback → List ℕ → Feedback
observe_all s [] = s
observe_all s (seq ∷ seqs) = observe_all (observe s seq) seqs

-- The first number beyond all that came, counting from `next`.
abbrev pub beyond : ℕ → List ℕ → ℕ
beyond next [] = next
beyond next (seq ∷ seqs) = beyond (max next (seq + 1)) seqs

-- How many came below the highest that had come before, and how far below at most.
abbrev pub late : ℕ → List ℕ → ℕ
late next [] = 0
late next (seq ∷ seqs) =
    let rest = late (max next (seq + 1)) seqs in if ltb seq next then rest + 1 else rest

abbrev pub lateness : ℕ → List ℕ → ℕ
lateness next [] = 0
lateness next (seq ∷ seqs) = max (next - seq) (lateness (max next (seq + 1)) seqs)

abbrev pub AreBelow : ℕ → List ℕ → Type 0
AreBelow limit [] = Unit
AreBelow limit (seq ∷ seqs) = (seq < limit) × AreBelow limit seqs

-- The counters after all datagrams, from any state.
observe_all_from :
    (s : Feedback) (seqs : List ℕ)
    → AreBelow (2 ^ 64 - 1) seqs
    → s.expected_seq < 2 ^ 64
    → s.gaps < s.expected_seq
    → s.total + length seqs < 2 ^ 64
    → s.reorder_events ≤ s.total
    → let r = observe_all s seqs in
      (r.expected_seq ≡ beyond s.expected_seq seqs)
      × (r.total ≡ s.total + length seqs)
      × (r.reorder_events ≡ s.reorder_events + late s.expected_seq seqs)
      × (r.max_reorder_depth ≡ max s.max_reorder_depth (lateness s.expected_seq seqs))
      × (r.gaps + (s.expected_seq + (r.total + s.reorder_events))
          ≡ s.gaps + (r.expected_seq + (s.total + r.reorder_events)))
unfolding observe_all observe
observe_all_from s [] v h1 h2 h3 h4 = ground arith
observe_all_from s (seq ∷ seqs) v h1 h2 h3 h4 =
    ground (arith, observe_all_from (observe s seq) seqs)

pub feedback_accounts :
    (seqs : List ℕ)
    → AreBelow (2 ^ 64 - 1) seqs
    → length seqs < 2 ^ 64
    → let r = observe_all fresh seqs in
      (r.expected_seq ≡ beyond 1 seqs)
      × (r.total ≡ length seqs)
      × (r.reorder_events ≡ late 1 seqs)
      × (r.max_reorder_depth ≡ lateness 1 seqs)
      × (r.gaps + 1 + r.total ≡ r.expected_seq + r.reorder_events)
feedback_accounts seqs v h = omega (arith, observe_all_from fresh seqs v)
