-- ===== src/Tcp/Retransmission/Acked.antt =====
-- `ack_up_to` against a filter.
use usn_hft_sim.Base.{
  ℕ, ◌+◌, ◌≤◌, ◌<◌, ◌^◌, ◌≡◌, refl, arith, List, [], ◌∷◌, length, leb, if◌then◌else◌,
}
use usn_hft_sim.Tcp.Retransmission.{Entry, track_segment, ack_loop, ack_up_to}

-- The entries that an acknowledgement does not cover.
unfoldable pub unacked : List Entry → ℕ → List Entry
unacked [] ack_num = []
unacked (e ∷ es) ack_num =
    if leb e.seq_end ack_num then unacked es ack_num else e ∷ unacked es ack_num

-- Every end in the list is at least `low`, and they do not fall.
abbrev pub IsAscending : ℕ → List Entry → Type 0
IsAscending low [] = Unit
IsAscending low (e ∷ es) = (low ≤ e.seq_end) × IsAscending e.seq_end es

unacked-all : (low : ℕ) (es : List Entry) (a : ℕ) → IsAscending low es → a < low → unacked es a ≡ es
unfolding unacked
unacked-all low [] a v h = refl
unacked-all low (e ∷ es) a v h = ground (arith, unacked-all e.seq_end es a)

ack_loop-eq-unacked :
    (removed low : ℕ) (es : List Entry) (a : ℕ)
    → IsAscending low es
    → ((ack_loop removed es a).1 ≡ unacked es a)
      × ((ack_loop removed es a).0 + length (unacked es a) ≡ removed + length es)
unfolding ack_loop unacked
ack_loop-eq-unacked removed low [] a v = (refl, refl)
ack_loop-eq-unacked removed low (e ∷ es) a v =
    ground (arith, ack_loop-eq-unacked (removed + 1) e.seq_end es a, unacked-all e.seq_end es a)

-- On a queue whose ends do not fall, `ack_up_to` removes exactly the entries that the acknowledgement
-- covers, keeps the others in order, and returns how many it removed.
pub ack_up_to-eq-unacked :
    (low : ℕ) (es : List Entry) (a : ℕ)
    → IsAscending low es
    → let (removed, rest) = ack_up_to es a in
      (rest ≡ unacked es a) × (removed + length rest ≡ length es)
unfolding ack_up_to
ack_up_to-eq-unacked low es a v = ground (arith, ack_loop-eq-unacked 0 low es a v)

-- Where the sequence numbers wrap, a segment that has just been sent is taken for acknowledged by
-- the acknowledgement of everything before it: the queue forgets it, and it is never sent again.
pub ack_before_wrap :
    (seq_start payload_len now_ms rto_ms : ℕ)
    → payload_len < 2 ^ 31
    → seq_start < 2 ^ 32
    → 2 ^ 32 ≤ seq_start + payload_len
    → ack_up_to (track_segment [] seq_start payload_len now_ms rto_ms) seq_start ≡ (1, [])
unfolding ack_up_to track_segment
ack_before_wrap seq_start payload_len now_ms rto_ms short fits wraps = ground arith
