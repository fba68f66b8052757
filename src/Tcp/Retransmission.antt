-- ===== src/Tcp/Retransmission.antt =====
-- `TcpRetransmissionQueue` of include/usn/protocol/tcp_retransmission.hpp: the deque as a list, front
-- first.
pub mod Acked
pub mod Due
mod Tests
use usn_hft_sim.Base.{
  ℕ, zero, suc, ◌+◌, min, Bool, true, false, List, [], ◌∷◌, ◌++◌, length, ltb, leb, ◌==◌, ◌||◌,
  if◌then◌else◌, u32, u64, ◌<<<◌,
}

pub record Entry : Type 0 where
  pub seq_start : ℕ
  pub seq_end : ℕ
  pub deadline_ms : ℕ
  pub retries : ℕ

unfoldable pub track_segment : List Entry → (seq_start payload_len now_ms rto_ms : ℕ) → List Entry
track_segment entries seq_start payload_len now_ms rto_ms =
    entries
    ++ record {
      seq_start = seq_start;
      seq_end = u32 (seq_start + u32 payload_len);
      deadline_ms = u64 (now_ms + rto_ms);
      retries = 0;
    }
      ∷ []

-- The number of entries removed, and the queue afterwards. `removed` counts up from the argument.
pub ack_loop : ℕ → List Entry → ℕ → ℕ × List Entry
ack_loop removed [] ack_num = (removed, [])
ack_loop removed (e ∷ es) ack_num =
    let rest = ack_loop (removed + 1) es ack_num in
    if leb e.seq_end ack_num then rest else (removed, e ∷ es)

unfoldable pub ack_up_to : List Entry → ℕ → ℕ × List Entry
unfolding ack_loop
ack_up_to entries ack_num = ack_loop 0 entries ack_num

-- `++entry.retries` and the new deadline, for an entry that is due and kept.
unfoldable pub back_off : (now_ms base_rto_ms : ℕ) → Entry → Entry
back_off now_ms base_rto_ms e =
    let retries = u32 (e.retries + 1) in
    let backoff = u64 (base_rto_ms <<< (if ltb 8 retries then 8 else retries)) in
    record e { retries = retries; deadline_ms = u64 (now_ms + backoff) }

-- The entries to send again, as they stood, and the queue afterwards.
unfoldable pub collect_due :
    List Entry → (now_ms base_rto_ms max_retries : ℕ) → List Entry × List Entry
collect_due [] now_ms base_rto_ms max_retries = ([], [])
collect_due (e ∷ es) now_ms base_rto_ms max_retries =
    let (due, kept) = collect_due es now_ms base_rto_ms max_retries in
    if leb e.deadline_ms now_ms
    then (if leb max_retries e.retries
        then (due, kept)
        else (e ∷ due, back_off now_ms base_rto_ms e ∷ kept))
    else (due, e ∷ kept)

unfoldable pub contains : List Entry → ℕ → Bool
contains [] seq_start = false
contains (e ∷ es) seq_start = e.seq_start == seq_start || contains es seq_start
