-- ===== src/Tcp/Reassembly/Inv.antt =====
-- The invariant of the reassembly buffer, and what insertion and popping do to it.
use usn_hft_sim.Base.{
  ℕ, ◌+◌, ◌≤◌, ◌<◌, ◌^◌, ◌≡◌, inl, inr, refl, ◌∙◌, arith, Bool, true, false, not, ◌||◌, ◌&&◌,
  Option, none, some, List, [], ◌∷◌, length, ltb, ◌==◌, if◌then◌else◌, Bool-cases,
}
use usn_hft_sim.Tcp.Reassembly.{Segment, Buffer, emplace, insert, byte_count}

-- Keys in ascending order above `low`, below 2 ^ 32, with data in every segment.
abbrev pub IsAbove : ℕ → List Segment → Type 0
IsAbove low [] = Unit
IsAbove low (s ∷ ss) =
    (low ≤ s.seq) × (s.seq < 2 ^ 32) × (0 < length s.bytes) × IsAbove (s.seq + 1) ss

pub record IsValid (b : Buffer) : Type 0 where
  pub sorted : IsAbove 0 b.segments
  pub counted : b.total_bytes ≡ byte_count b.segments

unfoldable pub has : List Segment → ℕ → Bool
has [] seq = false
has (s ∷ ss) seq = s.seq == seq || has ss seq

-- The data stored under a key.
unfoldable pub find : List Segment → ℕ → Option (List ℕ)
find [] seq = none
find (s ∷ ss) seq = if s.seq == seq then some s.bytes else find ss seq

-- Insertion by key.
placed : List Segment → Segment → List Segment
placed [] new = new ∷ []
placed (s ∷ ss) new = if ltb new.seq s.seq then new ∷ s ∷ ss else s ∷ placed ss new

pub has-below : (low : ℕ) (ss : List Segment) (q : ℕ) → IsAbove low ss → q < low → has ss q ≡ false
unfolding has
has-below low [] q v h = refl
has-below low (s ∷ ss) q v h = ground (arith, has-below (s.seq + 1) ss q)

pub find-has_not : (ss : List Segment) (q : ℕ) → has ss q ≡ false → find ss q ≡ none
unfolding has find
find-has_not [] q h = refl
find-has_not (s ∷ ss) q h = ground (arith, find-has_not ss q)

emplace-eq-placed :
    (low : ℕ) (ss : List Segment) (new : Segment)
    → IsAbove low ss
    → emplace ss new ≡ (if has ss new.seq then none else some (placed ss new))
unfolding emplace placed has
emplace-eq-placed low [] new v = refl
emplace-eq-placed low (s ∷ ss) new v =
    ground (arith, emplace-eq-placed (s.seq + 1) ss new, has-below (s.seq + 1) ss new.seq)

placed-IsAbove :
    (low : ℕ) (ss : List Segment) (new : Segment)
    → IsAbove low ss
    → low ≤ new.seq
    → new.seq < 2 ^ 32
    → 0 < length new.bytes
    → has ss new.seq ≡ false
    → IsAbove low (placed ss new)
unfolding placed has
placed-IsAbove low [] new v l h d e = (l, h, d, tt)
placed-IsAbove low (s ∷ ss) new v l h d e = ground (arith, placed-IsAbove (s.seq + 1) ss new)

byte_count-placed :
    (ss : List Segment) (new : Segment)
    → byte_count (placed ss new) ≡ byte_count ss + length new.bytes
unfolding placed
byte_count-placed [] new = omega arith
byte_count-placed (s ∷ ss) new = ground (arith, byte_count-placed ss new)

find-placed :
    (low : ℕ) (ss : List Segment) (new : Segment) (q : ℕ)
    → IsAbove low ss
    → has ss new.seq ≡ false
    → find (placed ss new) q ≡ (if new.seq == q then some new.bytes else find ss q)
unfolding placed has find
find-placed low [] new q v h = refl
find-placed low (s ∷ ss) new q v h = ground (arith, find-placed (s.seq + 1) ss new q)

insert-some :
    (b : Buffer) (seq x : ℕ) (xs : List ℕ)
    → IsValid b
    → insert b seq (some (x ∷ xs)) ≡ (
        if has b.segments seq then (false, b) else (
          true,
          record {
            segments = placed b.segments (record { seq = seq; bytes = x ∷ xs });
            total_bytes = b.total_bytes + length (x ∷ xs);
          },
        ))
unfolding insert
insert-some b seq x xs v =
    ground (arith, emplace-eq-placed 0 b.segments (record { seq = seq; bytes = x ∷ xs }) v.sorted)

-- `insert` refuses no data, empty data and a sequence number that is buffered already, and then
-- changes nothing. Otherwise it stores the data under its number, leaves every other entry as it was,
-- and keeps the invariant.
pub insert_lem :
    {b : Buffer} (seq : ℕ) (d : Option (List ℕ))
    → IsValid b
    → seq < 2 ^ 32
    → let (stored, b') = insert b seq d in
      IsValid b'
      × (stored
          ≡ elim d [ none ↦ false | some [] ↦ false | some (x ∷ xs) ↦ not (has b.segments seq) ])
      × ((q : ℕ) → find b'.segments q ≡ (if stored && seq == q then d else find b.segments q))
unfolding insert
insert_lem seq none v h = (v, refl, λ q. refl)
insert_lem seq (some []) v h = (v, refl, λ q. refl)
insert_lem {b} seq (some (x ∷ xs)) v h =
    let new : Segment = record { seq = seq; bytes = x ∷ xs } in
    elim (Bool-cases (has b.segments seq)) [
      | inl there ↦
          let same : insert b seq (some (x ∷ xs)) ≡ (false, b) =
            insert-some b seq x xs v ∙ (rw there) in
          rw (same, there) (v, refl, λ q. refl)
      | inr absent ↦
          let b' : Buffer = record {
            segments = placed b.segments new;
            total_bytes = b.total_bytes + length (x ∷ xs);
          } in
          let grown : insert b seq (some (x ∷ xs)) ≡ (true, b') =
            insert-some b seq x xs v ∙ (rw absent) in
          rw (grown, absent)
            (
              record {
                sorted =
                    placed-IsAbove 0 b.segments new v.sorted (omega arith) h (omega arith) absent;
                counted = omega (arith, v.counted, byte_count-placed b.segments new);
              },
              refl,
              λ q. find-placed 0 b.segments new q v.sorted absent,
            )
    ]
