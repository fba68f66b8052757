-- ===== src/Tcp/Reassembly/Tests.antt =====
-- The reassembly buffer on small inputs.
use usn_hft_sim.Base.{◌≡◌, false, some, List, [], ◌∷◌, refl, arith}
use usn_hft_sim.Tcp.Reassembly.{Segment, Buffer, fresh, pop_contiguous, byte_count}
use usn_hft_sim.Tcp.Reassembly.Inv.{IsValid, has}
use usn_hft_sim.Tcp.Reassembly.Pop.{end_of}
use usn_hft_sim.Tcp.Reassembly.Stream.{slice, payload, insert_all, stream_delivered}

-- Bytes 10, 11, 20 and 21.
abbrev two : Buffer
two = record {
  segments = record { seq = 10; bytes = 1 ∷ 2 ∷ [] } ∷ record { seq = 20; bytes = 3 ∷ 4 ∷ [] } ∷ [];
  total_bytes = 4;
}

two-IsValid : IsValid two
two-IsValid = ground arith

-- Every byte is its own number.
abbrev late_and_twice : List Segment
late_and_twice =
    record { seq = 12; bytes = 12 ∷ 13 ∷ [] }
    ∷ record { seq = 10; bytes = 10 ∷ 11 ∷ [] }
    ∷ record { seq = 12; bytes = 12 ∷ [] }
    ∷ []

stream_delivered_example :
    (out : List Segment) × (b' : Buffer) × (pop_contiguous (insert_all fresh late_and_twice) 10
      ≡ some (byte_count out, out, b'))
    × (payload out ≡ slice (λ n. n) 10 (byte_count out))
    × (has b'.segments (end_of 10 out) ≡ false)
stream_delivered_example =
    stream_delivered (λ n. n) late_and_twice 10
      ((omega arith, refl, (omega arith, refl, (omega arith, refl, tt)))) (omega arith)
