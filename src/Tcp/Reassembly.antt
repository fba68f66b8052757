-- ===== src/Tcp/Reassembly.antt =====
-- `TcpReassemblyBuffer` of include/usn/protocol/tcp_reassembly.hpp. The `std::map` is the list of its
-- entries in ascending order of the key. A byte is a number; `data == nullptr` is `none`.
pub mod Inv
pub mod Pop
pub mod Stream
pub mod Holes
mod Tests
use usn_hft_sim.Base.{
  ℕ, zero, suc, ◌+◌, ◌-◌, Bool, true, false, Option, none, some, List, [], ◌∷◌, ◌++◌, length, ltb,
  leb, ◌==◌, if◌then◌else◌, u32, sub_u32,
}

pub record Segment : Type 0 where
  pub seq : ℕ
  pub bytes : List ℕ

pub record HoleRange : Type 0 where
  pub start_seq : ℕ
  pub end_seq : ℕ

pub record Buffer : Type 0 where
  pub segments : List Segment
  pub total_bytes : ℕ

abbrev pub fresh : Buffer
fresh = record { segments = []; total_bytes = 0 }

-- `std::map::emplace`: `none` if the key is there.
unfoldable pub emplace : List Segment → Segment → Option (List Segment)
emplace [] new = some (new ∷ [])
emplace (s ∷ ss) new =
    let rest = emplace ss new in
    if ltb new.seq s.seq
    then some (new ∷ s ∷ ss)
    else (if s.seq == new.seq then none else elim rest [ none ↦ none | some ss' ↦ some (s ∷ ss') ])

unfoldable pub insert : Buffer → ℕ → Option (List ℕ) → Bool × Buffer
unfolding emplace
insert b seq none = (false, b)
insert b seq (some []) = (false, b)
insert b seq (some (x ∷ xs)) = elim (emplace b.segments (record { seq = seq; bytes = x ∷ xs })) [
  | none ↦ (false, b)
  | some ss ↦ (true, record { segments = ss; total_bytes = b.total_bytes + length (x ∷ xs) })
]

-- `std::map::find` and `erase` of what it finds.
unfoldable pub take_at : List Segment → ℕ → Option (Segment × List Segment)
take_at [] seq = none
take_at (s ∷ ss) seq =
    let rest = take_at ss seq in
    if s.seq == seq
    then some (s, ss)
    else elim rest [ none ↦ none | some (found, ss') ↦ some (found, s ∷ ss') ]

-- The loop of `pop_contiguous`: what is popped, and the segments left. Each round erases one, so
-- the number of segments is enough fuel; `none` where fuel runs out.
unfoldable pub pop_loop : ℕ → List Segment → ℕ → Option (List Segment × List Segment)
pop_loop zero ss cursor = elim (take_at ss cursor) [ none ↦ some ([], ss) | some _ ↦ none ]
pop_loop (suc fuel) ss cursor = elim (take_at ss cursor) [
  | none ↦ some ([], ss)
  | some (found, ss') ↦ elim (pop_loop fuel ss' (u32 (cursor + u32 (length found.bytes)))) [
    | none ↦ none
    | some (out, left) ↦ some (found ∷ out, left)
  ]
]

abbrev pub byte_count : List Segment → ℕ
byte_count [] = 0
byte_count (s ∷ ss) = length s.bytes + byte_count ss

-- The number of bytes consumed, the segments popped, and the buffer.
unfoldable pub pop_contiguous : Buffer → ℕ → Option (ℕ × List Segment × Buffer)
unfolding pop_loop take_at
pop_contiguous b expected_seq = elim (pop_loop (length b.segments) b.segments expected_seq) [
  | none ↦ none
  | some (out, left) ↦ some (
    byte_count out,
    out,
    record {
      segments = left;
      total_bytes =
          if ltb b.total_bytes (byte_count out) then 0 else b.total_bytes - byte_count out;
    },
  )
]

-- The cursor after a segment.
unfoldable pub advance : ℕ → Segment → ℕ
advance cursor s =
    let seg_end = u32 (s.seq + u32 (length s.bytes)) in
    if ltb cursor seg_end then seg_end else cursor

-- `found` counts the holes found before.
unfoldable pub holes_from : (max_ranges found cursor : ℕ) → List Segment → List HoleRange
unfolding advance
holes_from max_ranges found cursor [] = []
holes_from max_ranges found cursor (s ∷ ss) =
    let hit = ltb cursor s.seq in
    let rest = holes_from max_ranges (if hit then found + 1 else found) (advance cursor s) ss in
    if leb max_ranges found
    then []
    else (if hit then record { start_seq = cursor; end_seq = s.seq } ∷ rest else rest)

unfoldable pub hole_ranges : Buffer → (expected_seq max_ranges : ℕ) → List HoleRange
unfolding holes_from
hole_ranges b expected_seq max_ranges = holes_from max_ranges 0 expected_seq b.segments

unfoldable pub hole_count_from : (holes cursor : ℕ) → List Segment → ℕ
unfolding advance
hole_count_from holes cursor [] = holes
hole_count_from holes cursor (s ∷ ss) =
    hole_count_from (if ltb cursor s.seq then holes + 1 else holes) (advance cursor s) ss

unfoldable pub hole_count : Buffer → ℕ → ℕ
unfolding hole_count_from
hole_count b expected_seq = hole_count_from 0 expected_seq b.segments

unfoldable pub hole_bytes_from : (total cursor : ℕ) → List Segment → ℕ
unfolding advance
hole_bytes_from total cursor [] = total
hole_bytes_from total cursor (s ∷ ss) =
    hole_bytes_from (if ltb cursor s.seq then u32 (total + sub_u32 s.seq cursor) else total)
      (advance cursor s) ss

unfoldable pub total_hole_bytes : Buffer → ℕ → ℕ
unfolding hole_bytes_from
total_hole_bytes b expected_seq = hole_bytes_from 0 expected_seq b.segments
