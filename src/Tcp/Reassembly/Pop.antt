-- ===== src/Tcp/Reassembly/Pop.antt =====
-- `pop_contiguous`: what is popped, what stays, and the byte stream that it delivers.
use usn_hft_sim.Base.{
  ℕ, zero, suc, ◌+◌, ◌-◌, ◌≤◌, ◌<◌, ◌≡◌, ◌≢◌, ◌⊎◌, inl, inr, refl, ap, ◌∙◌, arith, false, none,
  some, List, [], ◌∷◌, length, ◌==◌, if◌then◌else◌, u32, Bool-cases,
}
use usn_hft_sim.Tcp.Reassembly.{Segment, Buffer, take_at, pop_loop, pop_contiguous, byte_count}
use usn_hft_sim.Tcp.Reassembly.Inv.{IsAbove, IsValid, has, find, has-below, find-has_not}

-- What `find` and `erase` give for a key that is there.
record Taken (low q : ℕ) (ss : List Segment) (s : Segment) (rest : List Segment) : Type 0 where
  key : s.seq ≡ q
  some_data : 0 < length s.bytes
  sorted : IsAbove low rest
  fewer : length ss ≡ suc (length rest)
  counted : byte_count ss ≡ length s.bytes + byte_count rest
  stored : find ss q ≡ some s.bytes
  others : (r : ℕ) → find rest r ≡ (if q == r then none else find ss r)

IsAbove-weaken : (low low' : ℕ) (ss : List Segment) → low' ≤ low → IsAbove low ss → IsAbove low' ss
IsAbove-weaken low low' [] h v = v
IsAbove-weaken low low' (s ∷ ss) h v = (omega arith, v.1, v.2, v.3)

Taken-here :
    (low q : ℕ) (s : Segment) (ss : List Segment)
    → IsAbove low (s ∷ ss)
    → s.seq ≡ q
    → Taken low q (s ∷ ss) s ss
unfolding find
Taken-here low q s ss v e = record {
  key = e;
  some_data = v.2;
  sorted = IsAbove-weaken (s.seq + 1) low ss (omega arith) v.3;
  fewer = refl;
  counted = refl;
  stored = ground arith;
  others = λ r. ground (arith, find-has_not ss q, has-below (s.seq + 1) ss q);
}

Taken-later :
    (low q : ℕ) (s : Segment) (ss : List Segment) (found : Segment) (rest : List Segment)
    → IsAbove low (s ∷ ss)
    → s.seq ≢ q
    → Taken (s.seq + 1) q ss found rest
    → Taken low q (s ∷ ss) found (s ∷ rest)
unfolding find
Taken-later low q s ss found rest v ne t = record {
  key = t.key;
  some_data = t.some_data;
  sorted = (v.0, v.1, v.2, t.sorted);
  fewer = ap suc t.fewer;
  counted = omega (arith, t.counted);
  stored = ground (arith, t.stored);
  others = λ r. ground (arith, t.others r);
}

take_at_lem :
    (low q : ℕ) (ss : List Segment)
    → IsAbove low ss
    → ((take_at ss q ≡ none) × (has ss q ≡ false))
      ⊎ ((s : Segment) × (rest : List Segment) × (take_at ss q ≡ some (s, rest))
          × Taken low q ss s rest)
unfolding take_at has
take_at_lem low q [] v = inl (refl, refl)
take_at_lem low q (s ∷ ss) v = elim (Bool-cases (s.seq == q)) [
  | inl here ↦ inr (s, ss, rw here, Taken-here low q s ss v (ground arith))
  | inr other ↦ elim (take_at_lem (s.seq + 1) q ss v.3) [
    | inl (e, gone) ↦ inl (rw (other, e), rw other gone)
    | inr (found, rest, e, t) ↦
        inr (found, s ∷ rest, rw (other, e), Taken-later low q s ss found rest v (ground arith) t)
  ]
]

-- Segments that follow one another, from a sequence number to the one after the last.
unfoldable pub end_of : ℕ → List Segment → ℕ
end_of cursor [] = cursor
end_of cursor (s ∷ out) = end_of (u32 (cursor + u32 (length s.bytes))) out

abbrev pub IsChain : ℕ → List Segment → Type 0
IsChain cursor [] = Unit
IsChain cursor (s ∷ out) = (s.seq ≡ cursor) × IsChain (u32 (cursor + u32 (length s.bytes))) out

-- Each of the segments stands in the map with its data.
abbrev pub AreFrom : List Segment → List Segment → Type 0
AreFrom ss [] = Unit
AreFrom ss (s ∷ out) = (find ss s.seq ≡ some s.bytes) × AreFrom ss out

pub record Popped (cursor : ℕ) (ss out left : List Segment) : Type 0 where
  pub sorted : IsAbove 0 left
  pub counted : byte_count ss ≡ byte_count out + byte_count left
  pub chain : IsChain cursor out
  pub from : AreFrom ss out
  pub stops : has left (end_of cursor out) ≡ false
  pub kept : (r : ℕ) → (find left r ≡ none) ⊎ (find left r ≡ find ss r)

AreFrom-step :
    (low q : ℕ) (ss rest out : List Segment) (s : Segment)
    → Taken low q ss s rest
    → AreFrom rest out
    → AreFrom ss out
AreFrom-step low q ss rest [] s t f = tt
AreFrom-step low q ss rest (o ∷ out) s t f =
    (ground (arith, t.others o.seq), AreFrom-step low q ss rest out s t f.1)

Popped-none :
    (ss : List Segment) (cursor : ℕ) → IsAbove 0 ss → has ss cursor ≡ false → Popped cursor ss [] ss
unfolding end_of
Popped-none ss cursor v gone = record {
  sorted = v;
  counted = omega arith;
  chain = tt;
  from = tt;
  stops = gone;
  kept = λ r. inr refl;
}

Popped-more :
    (ss rest out left : List Segment) (cursor : ℕ) (s : Segment)
    → Taken 0 cursor ss s rest
    → Popped (u32 (cursor + u32 (length s.bytes))) rest out left
    → Popped cursor ss (s ∷ out) left
unfolding end_of
Popped-more ss rest out left cursor s t p = record {
  sorted = p.sorted;
  counted = omega (arith, t.counted, p.counted);
  chain = (t.key, p.chain);
  from = (ap (find ss) t.key ∙ t.stored, AreFrom-step 0 cursor ss rest out s t p.from);
  stops = p.stops;
  kept = λ r. ground (arith, p.kept r, t.others r);
}

pop_loop-none :
    (fuel : ℕ) (ss : List Segment) (cursor : ℕ)
    → take_at ss cursor ≡ none
    → pop_loop fuel ss cursor ≡ some ([], ss)
unfolding pop_loop
pop_loop-none zero ss cursor e = ground arith
pop_loop-none (suc fuel) ss cursor e = ground arith

pop_loop-more :
    (fuel : ℕ) (ss rest out left : List Segment) (cursor : ℕ) (s : Segment)
    → take_at ss cursor ≡ some (s, rest)
    → pop_loop fuel rest (u32 (cursor + u32 (length s.bytes))) ≡ some (out, left)
    → pop_loop (suc fuel) ss cursor ≡ some (s ∷ out, left)
unfolding pop_loop
pop_loop-more fuel ss rest out left cursor s e e' = ground arith

pop_loop_lem :
    (fuel : ℕ) (ss : List Segment) (cursor : ℕ)
    → length ss ≤ fuel
    → IsAbove 0 ss
    → (out left : List Segment) × (pop_loop fuel ss cursor ≡ some (out, left))
      × Popped cursor ss out left
pop_loop_lem zero ss cursor enough v = elim (take_at_lem 0 cursor ss v) [
  | inl (e, gone) ↦ ([], ss, pop_loop-none zero ss cursor e, Popped-none ss cursor v gone)
  | inr (s, rest, e, t) ↦ absurd (omega (arith, t.fewer))
]
pop_loop_lem (suc fuel) ss cursor enough v = elim (take_at_lem 0 cursor ss v) [
  | inl (e, gone) ↦ ([], ss, pop_loop-none (suc fuel) ss cursor e, Popped-none ss cursor v gone)
  | inr (s, rest, e, t) ↦
      let (out, left, e', p) =
        pop_loop_lem fuel rest (u32 (cursor + u32 (length s.bytes))) (omega (arith, t.fewer))
          t.sorted in
      (
        s ∷ out,
        left,
        pop_loop-more fuel ss rest out left cursor s e e',
        Popped-more ss rest out left cursor s t p,
      )
]

pop_contiguous-some :
    (b : Buffer) (expected_seq : ℕ) (out left : List Segment)
    → pop_loop (length b.segments) b.segments expected_seq ≡ some (out, left)
    → byte_count out ≤ b.total_bytes
    → pop_contiguous b expected_seq
      ≡ some (
        byte_count out,
        out,
        record { segments = left; total_bytes = b.total_bytes - byte_count out },
      )
unfolding pop_contiguous
pop_contiguous-some b expected_seq out left e h = ground arith

-- `pop_contiguous` always returns. What it pops was buffered, follows on from the expected sequence
-- number without a gap, and stops only where no segment starts; the number returned counts the bytes
-- popped; every other segment stays, the running total is exact, and its clamping at 0 is never used.
pub pop_contiguous_lem :
    {b : Buffer} (expected_seq : ℕ)
    → IsValid b
    → (out : List Segment) × (b' : Buffer) × (pop_contiguous b expected_seq
        ≡ some (byte_count out, out, b'))
      × IsValid b'
      × Popped expected_seq b.segments out b'.segments
      × (b'.total_bytes + byte_count out ≡ b.total_bytes)
pop_contiguous_lem {b} expected_seq v =
    let (out, left, e, p) =
      pop_loop_lem (length b.segments) b.segments expected_seq (omega arith) v.sorted in
    let b' : Buffer = record { segments = left; total_bytes = b.total_bytes - byte_count out } in
    (
      out,
      b',
      pop_contiguous-some b expected_seq out left e (omega (arith, v.counted, p.counted)),
      record { sorted = p.sorted; counted = omega (arith, v.counted, p.counted) },
      p,
      omega (arith, v.counted, p.counted),
    )
