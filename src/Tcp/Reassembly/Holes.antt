-- ===== src/Tcp/Reassembly/Holes.antt =====
-- The observers of the holes agree with one another, and the holes are free of data.
use usn_hft_sim.Base.{
  ℕ, ◌+◌, ◌-◌, ◌≤◌, ◌<◌, ◌^◌, ◌≡◌, ◌⊎◌, ◌∙◌, arith, false, List, [], ◌∷◌, length, ltb, leb, u32,
  sub_u32, Bool-cases, inl, inr, leb-eq-false, ltb→lt,
}
use usn_hft_sim.Tcp.Reassembly.{
  Segment, HoleRange, Buffer, advance, holes_from, hole_ranges, hole_count_from, hole_count,
  hole_bytes_from, total_hole_bytes,
}
use usn_hft_sim.Tcp.Reassembly.Inv.{IsAbove, IsValid}

abbrev pub width_sum : List HoleRange → ℕ
width_sum [] = 0
width_sum (r ∷ rs) = r.end_seq - r.start_seq + width_sum rs

advance-lt : (cursor : ℕ) (s : Segment) → cursor < 2 ^ 32 → advance cursor s < 2 ^ 32
unfolding advance
advance-lt cursor s h = ground arith

holes_agree :
    (limit found total cursor low : ℕ) (ss : List Segment)
    → IsAbove low ss
    → cursor < 2 ^ 32
    → found + length ss ≤ limit
    → (hole_count_from found cursor ss ≡ found + length (holes_from limit found cursor ss))
      × (hole_bytes_from (u32 total) cursor ss
          ≡ u32 (total + width_sum (holes_from limit found cursor ss)))
unfolding hole_count_from holes_from hole_bytes_from
holes_agree limit found total cursor low [] v c h = (omega arith, omega arith)
holes_agree limit found total cursor low (s ∷ ss) v c h =
    let room : leb limit found ≡ false = leb-eq-false _ _ (omega arith) in
    elim (Bool-cases (ltb cursor s.seq)) [
      | inl hit ↦
          let lt : cursor < s.seq = ltb→lt _ _ hit in
          let wide : u32 (u32 total + sub_u32 s.seq cursor) ≡ u32 (total + (s.seq - cursor)) =
            omega arith in
          let (count, width) =
            holes_agree limit (found + 1) (total + (s.seq - cursor)) (advance cursor s) (s.seq + 1)
              ss v.3 (advance-lt cursor s c) (omega arith) in
          rw (room, hit, wide) (omega (arith, count), width ∙ (omega arith))
      | inr none_here ↦
          let rest =
            holes_agree limit found total (advance cursor s) (s.seq + 1) ss v.3
              (advance-lt cursor s c) (omega arith) in
          rw (room, none_here) rest
    ]

-- If the limit is at least the number of segments, `hole_count` is the number of ranges that
-- `hole_ranges` returns, and `total_hole_bytes` is their total width modulo 2 ^ 32.
pub hole_observers_agree :
    {b : Buffer} (expected_seq max_ranges : ℕ)
    → IsValid b
    → expected_seq < 2 ^ 32
    → length b.segments ≤ max_ranges
    → (hole_count b expected_seq ≡ length (hole_ranges b expected_seq max_ranges))
      × (total_hole_bytes b expected_seq ≡ u32 (width_sum (hole_ranges b expected_seq max_ranges)))
unfolding hole_count hole_ranges total_hole_bytes
hole_observers_agree {b} expected_seq max_ranges v c h =
    ground (arith, holes_agree max_ranges 0 0 expected_seq 0 b.segments v.sorted c)

-- No byte of the segment lies in the range.
abbrev pub Misses : HoleRange → Segment → Type 0
Misses r s = (s.seq + length s.bytes ≤ r.start_seq) ⊎ (r.end_seq ≤ s.seq)

abbrev pub IsFree : List Segment → HoleRange → Type 0
IsFree [] r = Unit
IsFree (s ∷ ss) r = Misses r s × IsFree ss r

-- The ranges are not empty, start no earlier than `low`, and hold no byte of the segments.
abbrev pub AreHoles : ℕ → List Segment → List HoleRange → Type 0
AreHoles low ss [] = Unit
AreHoles low ss (r ∷ rs) =
    (low ≤ r.start_seq) × (r.start_seq < r.end_seq) × IsFree ss r × AreHoles low ss rs

-- No segment runs past the last sequence number.
abbrev pub NoneWraps : List Segment → Type 0
NoneWraps [] = Unit
NoneWraps (s ∷ ss) = (s.seq + length s.bytes < 2 ^ 32) × NoneWraps ss

IsFree-above :
    (low : ℕ) (ss : List Segment) (r : HoleRange) → IsAbove low ss → r.end_seq ≤ low → IsFree ss r
IsFree-above low [] r v h = tt
IsFree-above low (s ∷ ss) r v h =
    (inr (omega arith), IsFree-above (s.seq + 1) ss r v.3 (omega arith))

AreHoles-cons :
    (low low' : ℕ) (s : Segment) (ss : List Segment) (rs : List HoleRange)
    → low' ≤ low
    → s.seq + length s.bytes ≤ low
    → AreHoles low ss rs
    → AreHoles low' (s ∷ ss) rs
AreHoles-cons low low' s ss [] h k v = tt
AreHoles-cons low low' s ss (r ∷ rs) h k v =
    (omega arith, v.1, (inl (omega arith), v.2), AreHoles-cons low low' s ss rs h k v.3)

advance_past :
    (cursor : ℕ) (s : Segment)
    → s.seq + length s.bytes < 2 ^ 32
    → (cursor ≤ advance cursor s) × (s.seq + length s.bytes ≤ advance cursor s)
unfolding advance
advance_past cursor s h = ground arith

holes_from-AreHoles :
    (limit found cursor low : ℕ) (ss : List Segment)
    → IsAbove low ss
    → NoneWraps ss
    → AreHoles cursor ss (holes_from limit found cursor ss)
unfolding holes_from
holes_from-AreHoles limit found cursor low [] v w = tt
holes_from-AreHoles limit found cursor low (s ∷ ss) v w =
    let (past, over) = advance_past cursor s w.0 in
    elim (Bool-cases (leb limit found)) [
      | inl full ↦ rw full tt
      | inr room ↦ elim (Bool-cases (ltb cursor s.seq)) [
        | inl hit ↦
            let lt : cursor < s.seq = ltb→lt _ _ hit in
            rw (room, hit)
              (
                omega arith,
                lt,
                (inr (omega arith), IsFree-above (s.seq + 1) ss _ v.3 (omega arith)),
                AreHoles-cons (advance cursor s) cursor s ss
                    (holes_from limit (found + 1) (advance cursor s) ss) past over
                    (holes_from-AreHoles limit (found + 1) (advance cursor s) (s.seq + 1) ss v.3
                      w.1),
              )
        | inr none_here ↦
            rw (room, none_here)
              (AreHoles-cons (advance cursor s) cursor s ss
                (holes_from limit found (advance cursor s) ss) past over
                (holes_from-AreHoles limit found (advance cursor s) (s.seq + 1) ss v.3 w.1))
      ]
    ]

-- Where no segment runs past the last sequence number, each range that `hole_ranges` returns is not
-- empty, starts at the expected number or later, and holds no byte of any buffered segment.
pub hole_ranges-AreHoles :
    {b : Buffer} (expected_seq max_ranges : ℕ)
    → IsValid b
    → NoneWraps b.segments
    → AreHoles expected_seq b.segments (hole_ranges b expected_seq max_ranges)
unfolding hole_ranges
hole_ranges-AreHoles {b} expected_seq max_ranges v w =
    holes_from-AreHoles max_ranges 0 expected_seq 0 b.segments v.sorted w
