-- ===== src/Tcp/Reassembly/Stream.antt =====
-- Segments of one byte stream, buffered in any order, come out as that stream.
use usn_hft_sim.Base.{
  ℕ, zero, suc, ◌+◌, ◌<◌, ◌^◌, ◌≡◌, refl, sym, ap, ap₂, ◌∙◌, arith, false, some, List, [], ◌∷◌,
  ◌++◌, length, u32,
}
use usn_hft_sim.Tcp.Reassembly.{Segment, Buffer, fresh, insert, pop_contiguous, byte_count}
use usn_hft_sim.Tcp.Reassembly.Inv.{IsValid, has, find, insert_lem}
use usn_hft_sim.Tcp.Reassembly.Pop.{IsChain, AreFrom, end_of, pop_contiguous_lem}

-- The `n` bytes of a stream from a sequence number on; numbers wrap at 2 ^ 32.
abbrev pub slice : (ℕ → ℕ) → ℕ → ℕ → List ℕ
slice stream p zero = []
slice stream p (suc n) = stream p ∷ slice stream (u32 (p + 1)) n

slice-append :
    (stream : ℕ → ℕ) (p m n : ℕ)
    → p < 2 ^ 32
    → slice stream p (m + n) ≡ slice stream p m ++ slice stream (u32 (p + m)) n
slice-append stream p zero n h =
    let none_more : 0 + n ≡ n = omega arith in
    let here : u32 (p + 0) ≡ p = omega arith in
    ap (slice stream p) none_more ∙ ap (λ q. slice stream q n) (sym here)
slice-append stream p (suc m) n h =
    let more : suc m + n ≡ suc (m + n) = omega arith in
    let shift : u32 (u32 (p + 1) + m) ≡ u32 (p + suc m) = omega arith in
    ap (slice stream p) more
    ∙ ap (λ l. stream p ∷ l)
        (slice-append stream (u32 (p + 1)) m n (omega arith)
          ∙ ap (λ q. slice stream (u32 (p + 1)) m ++ slice stream q n) shift)

-- The bytes of the popped segments.
abbrev pub payload : List Segment → List ℕ
payload [] = []
payload (s ∷ out) = s.bytes ++ payload out

-- Every buffered segment holds the bytes of the stream at its number.
Agrees : (ℕ → ℕ) → List Segment → Type 0
Agrees stream ss = (q : ℕ) (d : List ℕ) → find ss q ≡ some d → d ≡ slice stream q (length d)

chain-payload :
    (stream : ℕ → ℕ) (ss out : List Segment) (cursor : ℕ)
    → Agrees stream ss
    → cursor < 2 ^ 32
    → IsChain cursor out
    → AreFrom ss out
    → payload out ≡ slice stream cursor (byte_count out)
unfolding Agrees
chain-payload stream ss [] cursor a h c f = refl
chain-payload stream ss (s ∷ out) cursor a h c f =
    let next : u32 (cursor + u32 (length s.bytes)) ≡ u32 (cursor + length s.bytes) = omega arith in
    let first : s.bytes ≡ slice stream cursor (length s.bytes) =
      a s.seq s.bytes f.0 ∙ ap (λ q. slice stream q (length s.bytes)) c.0 in
    let rest =
      chain-payload stream ss out (u32 (cursor + u32 (length s.bytes))) a (omega arith) c.1 f.1 in
    ap₂ ◌++◌ first (rest ∙ ap (λ q. slice stream q (byte_count out)) next)
    ∙ sym (slice-append stream cursor (length s.bytes) (byte_count out) h)

-- An arriving segment: its sequence number and its data.
abbrev pub Arrival : Type 0
Arrival = Segment

unfoldable pub insert_all : Buffer → List Arrival → Buffer
insert_all b [] = b
insert_all b (s ∷ arrivals) = insert_all (insert b s.seq (some s.bytes)).1 arrivals

-- The arrivals carry the bytes of the stream at their numbers.
abbrev pub AreGenuine : (ℕ → ℕ) → List Arrival → Type 0
AreGenuine stream [] = Unit
AreGenuine stream (s ∷ arrivals) =
    (s.seq < 2 ^ 32) × (s.bytes ≡ slice stream s.seq (length s.bytes)) × AreGenuine stream arrivals

insert-Agrees :
    (stream : ℕ → ℕ) {b : Buffer} (s : Segment)
    → IsValid b
    → Agrees stream b.segments
    → s.seq < 2 ^ 32
    → s.bytes ≡ slice stream s.seq (length s.bytes)
    → Agrees stream (insert b s.seq (some s.bytes)).1.segments
unfolding Agrees
insert-Agrees stream {b} s v a h g q d e =
    ground (arith, (insert_lem s.seq (some s.bytes) v h).2 q, a q d)

insert_all-lem :
    (stream : ℕ → ℕ) (b : Buffer) (arrivals : List Arrival)
    → IsValid b
    → Agrees stream b.segments
    → AreGenuine stream arrivals
    → IsValid (insert_all b arrivals) × Agrees stream (insert_all b arrivals).segments
unfolding insert_all
insert_all-lem stream b [] v a g = (v, a)
insert_all-lem stream b (s ∷ arrivals) v a g =
    insert_all-lem stream (insert b s.seq (some s.bytes)).1 arrivals
      (insert_lem s.seq (some s.bytes) v g.0).0 (insert-Agrees stream s v a g.0 g.1) g.2

fresh-Agrees : (stream : ℕ → ℕ) → Agrees stream fresh.segments
unfolding Agrees find
fresh-Agrees stream q d e = cc

-- Whatever segments of one stream arrive, in any order and as often as they like, popping returns
-- and delivers exactly the bytes of the stream from the expected number on, up to the first number at
-- which no segment is buffered.
pub stream_delivered :
    (stream : ℕ → ℕ) (arrivals : List Arrival) (expected_seq : ℕ)
    → AreGenuine stream arrivals
    → expected_seq < 2 ^ 32
    → (out : List Segment) × (b' : Buffer) × (pop_contiguous
          (insert_all fresh arrivals)
          expected_seq
        ≡ some (byte_count out, out, b'))
      × (payload out ≡ slice stream expected_seq (byte_count out))
      × (has b'.segments (end_of expected_seq out) ≡ false)
stream_delivered stream arrivals expected_seq g h =
    let empty : IsValid fresh = record { sorted = tt; counted = refl } in
    let (v, a) = insert_all-lem stream fresh arrivals empty (fresh-Agrees stream) g in
    let (out, b', e, v', p, t) = pop_contiguous_lem expected_seq v in
    (
      out,
      b',
      e,
      chain-payload stream (insert_all fresh arrivals).segments out expected_seq a h p.chain p.from,
      p.stops,
    )
