-- ===== src/Tcp/Retransmission/Tests.antt =====
-- The retransmission queue on small inputs.
use usn_hft_sim.Base.{◌≡◌, ℕ, List, [], ◌∷◌, refl, ◌+◌, map, not, length, arith}
use usn_hft_sim.Tcp.Retransmission.{Entry, ack_up_to, collect_due}
use usn_hft_sim.Tcp.Retransmission.Due.{
  select, is_sent, is_spent, after_call, tries_left, collect_due_lem,
}

abbrev entry : (seq_start seq_end deadline_ms retries : ℕ) → Entry
entry seq_start seq_end deadline_ms retries = record {
  seq_start = seq_start;
  seq_end = seq_end;
  deadline_ms = deadline_ms;
  retries = retries;
}

abbrev waiting : List Entry
waiting = entry 100 200 50 0 ∷ entry 200 300 90 5 ∷ entry 300 400 40 5 ∷ []

acks_two : (ack_up_to waiting 300).0 ≡ 2
unfolding ack_up_to
acks_two = refl

collect_due_lem_example :
    let (due, kept) = collect_due waiting 60 10 5 in
    (due ≡ select (is_sent 60 5) waiting)
    × (kept ≡ map (after_call 60 10 5) (select (λ (e : Entry). not (is_spent 60 5 e)) waiting))
    × (tries_left 5 kept + length due ≡ tries_left 5 waiting)
    × (collect_due kept 60 10 5 ≡ ([], kept))
collect_due_lem_example = collect_due_lem waiting 60 10 5 (omega arith) (omega arith) (omega arith)
