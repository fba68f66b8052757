-- ===== src/Tcp/Wire/Frame.antt =====
-- The bytes of an emitted frame, and what `parse` reads back.
use usn_hft_sim.Base.{
  ℕ, ◌+◌, ◌*◌, ◌/◌, ◌^◌, ◌<◌, ◌≡◌, ap, ◌∙◌, arith, false, some, List, ◌∷◌, ◌++◌, length, set, take,
  drop, ltb, u8, bit_and, bit_or, ◌<<<◌, ◌>>>◌, ltb-eq-false,
}
use usn_hft_sim.Base.Bits.{bit_and-mask, zero-bit_or}
use usn_hft_sim.Wire.Order.{byte, swap16, swap32}
use usn_hft_sim.Tcp.Types.{TcpHeader}
use usn_hft_sim.Tcp.Wire.{header_of, to_network_order, image, calculate_checksum, emit, parse}

-- The fields fit their widths, and only the low eight flags are used.
pub record Fits (source dest seq ack flags window : ℕ) : Type 0 where
  pub source_fits : source < 2 ^ 16
  pub dest_fits : dest < 2 ^ 16
  pub seq_fits : seq < 2 ^ 32
  pub ack_fits : ack < 2 ^ 32
  pub flags_low : flags < 2 ^ 8
  pub window_fits : window < 2 ^ 16

-- A frame with the bytes 16 and 17 as given.
abbrev pub frame : (source dest seq ack flags window b16 b17 : ℕ) → List ℕ → List ℕ
frame source dest seq ack flags window b16 b17 payload =
    byte 1 source
    ∷ byte 0 source
    ∷ byte 1 dest
    ∷ byte 0 dest
    ∷ byte 3 seq
    ∷ byte 2 seq
    ∷ byte 1 seq
    ∷ byte 0 seq
    ∷ byte 3 ack
    ∷ byte 2 ack
    ∷ byte 1 ack
    ∷ byte 0 ack
    ∷ 0x50
    ∷ flags
    ∷ 0
    ∷ byte 1 window
    ∷ b16
    ∷ b17
    ∷ 0
    ∷ 0
    ∷ payload

byte-swap16 : (x : ℕ) → (byte 0 (swap16 x) ≡ byte 1 x) × (byte 1 (swap16 x) ≡ byte 0 x)
byte-swap16 x = omega arith

byte-swap32 :
    (x : ℕ)
    → (byte 0 (swap32 x) ≡ byte 3 x)
      × (byte 1 (swap32 x) ≡ byte 2 x)
      × (byte 2 (swap32 x) ≡ byte 1 x)
      × (byte 3 (swap32 x) ≡ byte 0 x)
byte-swap32 x = omega arith

flag_bytes :
    (flags : ℕ)
    → flags < 2 ^ 8
    → (bit_or (u8 (5 <<< 4)) (bit_and (flags >>> 8) 0xf) ≡ 0x50)
      × (bit_and flags 0xff ≡ flags)
      × (byte 1 flags ≡ 0)
flag_bytes flags h =
    let none_high : flags / 2 ^ 8 ≡ 0 = omega arith in
    (
      ap (λ (t : ℕ). bit_or 80 (bit_and t 15)) none_high,
      bit_and-mask 8 flags ∙ (omega arith),
      omega arith,
    )

-- The buffer before the checksum is written.
unsealed : TcpHeader → List ℕ → List ℕ
unfolding to_network_order
unsealed header payload =
    let h = to_network_order header in
    take 12 (image h)
    ++ (bit_or (u8 (h.data_offset <<< 4)) (bit_and (h.flags >>> 8) 0xf)
        ∷ bit_and h.flags 0xff
        ∷ (take 6 (drop 14 (image h)) ++ payload))

seal : (src_ip dst_ip : ℕ) → List ℕ → List ℕ
seal src_ip dst_ip buffer =
    let sum = calculate_checksum buffer src_ip dst_ip in
    set (set buffer 16 (byte 1 sum)) 17 (byte 0 sum)

unsealed-eq-frame :
    (source dest seq ack flags window : ℕ) (payload : List ℕ)
    → Fits source dest seq ack flags window
    → unsealed (header_of source dest seq ack flags window) payload
      ≡ frame source dest seq ack flags window (byte 0 window) 0 payload
unfolding unsealed
unsealed-eq-frame source dest seq ack flags window payload v =
    let (s0, s1) = byte-swap16 source in
    let (d0, d1) = byte-swap16 dest in
    let (w0, w1) = byte-swap16 window in
    let (q0, q1, q2, q3) = byte-swap32 seq in
    let (a0, a1, a2, a3) = byte-swap32 ack in let (f0, f1, f2) = flag_bytes flags v.flags_low in cc

pub emit-eq-frame :
    (source dest seq ack flags window : ℕ) (payload : List ℕ) (src_ip dst_ip : ℕ)
    → Fits source dest seq ack flags window
    → let sum =
        calculate_checksum
          (frame source dest seq ack flags window (byte 0 window) 0 payload)
          src_ip
          dst_ip in
      emit (header_of source dest seq ack flags window) payload src_ip dst_ip
      ≡ frame source dest seq ack flags window (byte 1 sum) (byte 0 sum) payload
unfolding emit unsealed seal
emit-eq-frame source dest seq ack flags window payload src_ip dst_ip v =
    ap (seal src_ip dst_ip) (unsealed-eq-frame source dest seq ack flags window payload v)

-- What `parse` reads from a frame.
abbrev pub read_back : (source dest seq ack flags window b16 b17 : ℕ) → TcpHeader
read_back source dest seq ack flags window b16 b17 = record {
  source_port = source;
  dest_port = dest;
  seq_num = seq;
  ack_num = ack;
  data_offset = 5;
  reserved = 0;
  flags = flags;
  window = byte 1 window * 2 ^ 8 + b16;
  checksum = b17 * 2 ^ 8;
  urgent_ptr = 0;
}

-- Sixteen and thirty-two bits come back from their bytes.
load_swap16 : (x : ℕ) → x < 2 ^ 16 → swap16 (byte 1 x + 2 ^ 8 * byte 0 x) ≡ x
load_swap16 x h = omega arith

load_swap32 :
    (x : ℕ)
    → x < 2 ^ 32
    → swap32 (byte 3 x + 2 ^ 8 * byte 2 x + 2 ^ 16 * byte 1 x + 2 ^ 24 * byte 0 x) ≡ x
load_swap32 x h = omega arith

pub parse-frame :
    (source dest seq ack flags window b16 b17 : ℕ) (payload : List ℕ)
    → Fits source dest seq ack flags window
    → b16 < 2 ^ 8
    → b17 < 2 ^ 8
    → parse (frame source dest seq ack flags window b16 b17 payload)
      ≡ some (read_back source dest seq ack flags window b16 b17, payload)
unfolding parse
parse-frame source dest seq ack flags window b16 b17 payload v h16 h17 =
    let short : ltb (length (frame source dest seq ack flags window b16 b17 payload)) 20 ≡ false =
      ltb-eq-false _ _ (omega arith) in
    let s = load_swap16 source v.source_fits in
    let d = load_swap16 dest v.dest_fits in
    let q = load_swap32 seq v.seq_fits in
    let a = load_swap32 ack v.ack_fits in
    let f : bit_or 0 flags ≡ flags = zero-bit_or flags in
    let w : swap16 (byte 1 window + 2 ^ 8 * b16) ≡ byte 1 window * 2 ^ 8 + b16 = omega arith in
    let c : swap16 (b17 + 2 ^ 8 * 0) ≡ b17 * 2 ^ 8 = omega arith in rw short (cc)
