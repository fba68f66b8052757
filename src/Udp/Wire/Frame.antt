-- ===== src/Udp/Wire/Frame.antt =====
-- Datagrams byte by byte, and what `parse` reads back.
use usn_hft_sim.Base.{
  ℕ, ◌+◌, ◌-◌, ◌*◌, ◌^◌, ◌<◌, ◌≡◌, refl, ap, ◌∙◌, arith, Bool, true, false, not, some, List, ◌∷◌,
  ◌++◌, length, set, take, take-all, ltb, ◌==◌, if◌then◌else◌, ltb-eq-false, u16, ◌&&◌,
}
use usn_hft_sim.Wire.Order.{byte, swap16}
use usn_hft_sim.Udp.Wire.{
  UdpHeader, header_len, image, to_network_order, calculate_checksum, encapsulate, parse,
}

-- A datagram with the bytes 6 and 7 as given.
abbrev pub frame : (source dest len b6 b7 : ℕ) → List ℕ → List ℕ
frame source dest len b6 b7 payload =
    byte 1 source
    ∷ byte 0 source
    ∷ byte 1 dest
    ∷ byte 0 dest
    ∷ byte 1 len
    ∷ byte 0 len
    ∷ b6
    ∷ b7
    ∷ payload

byte-swap16 : (x : ℕ) → (byte 0 (swap16 x) ≡ byte 1 x) × (byte 1 (swap16 x) ≡ byte 0 x)
byte-swap16 x = omega arith

unsealed : (payload : List ℕ) (source dest : ℕ) → List ℕ
unfolding to_network_order
unsealed payload source dest =
    image (
      to_network_order (record {
        source_port = source;
        dest_port = dest;
        length_field = u16 (header_len + length payload);
        checksum = 0;
      }))
    ++ payload

unsealed-eq-frame :
    (payload : List ℕ) (source dest : ℕ)
    → unsealed payload source dest ≡ frame source dest (length payload + 8) 0 0 payload
unfolding unsealed
unsealed-eq-frame payload source dest =
    let (s0, s1) = byte-swap16 source in
    let (d0, d1) = byte-swap16 dest in
    let (l0, l1) = byte-swap16 (u16 (8 + length payload)) in
    let k1 : byte 1 (u16 (8 + length payload)) ≡ byte 1 (length payload + 8) = omega arith in
    let k0 : byte 0 (u16 (8 + length payload)) ≡ byte 0 (length payload + 8) = omega arith in cc

unfoldable pub seal : (s d : ℕ) (flag : Bool) → List ℕ → List ℕ
seal s d flag buffer =
    let sum = calculate_checksum buffer s d in
    if flag && (not (s == 0) && not (d == 0))
    then set (set buffer 6 (byte 1 sum)) 7 (byte 0 sum)
    else buffer

pub encapsulate-eq-seal :
    (payload : List ℕ) (source dest s d : ℕ) (flag : Bool)
    → encapsulate payload source dest s d flag
      ≡ seal s d flag (frame source dest (length payload + 8) 0 0 payload)
unfolding encapsulate seal unsealed
encapsulate-eq-seal payload source dest s d flag =
    ap (seal s d flag) (unsealed-eq-frame payload source dest)

pub seal_on :
    (s d : ℕ) (buffer : List ℕ)
    → 0 < s
    → 0 < d
    → let sum = calculate_checksum buffer s d in
      seal s d true buffer ≡ set (set buffer 6 (byte 1 sum)) 7 (byte 0 sum)
unfolding seal
seal_on s d buffer hs hd = ground arith

sealed_bytes :
    (payload : List ℕ) (source dest len s d : ℕ) (flag : Bool)
    → (b6 b7 : ℕ) × (seal s d flag (frame source dest len 0 0 payload)
        ≡ frame source dest len b6 b7 payload)
unfolding seal
sealed_bytes payload source dest len s d flag = by_guard (flag && (not (s == 0) && not (d == 0)))
  where
    by_guard :
        (g : Bool)
        → (b6 b7 : ℕ) × ((if g
              then set
                  (set
                    (frame source dest len 0 0 payload)
                    6
                    (byte 1 (calculate_checksum (frame source dest len 0 0 payload) s d)))
                  7
                  (byte 0 (calculate_checksum (frame source dest len 0 0 payload) s d))
              else frame source dest len 0 0 payload)
            ≡ frame source dest len b6 b7 payload)
    by_guard true = (_, _, refl)
    by_guard false = (0, 0, refl)

sealed_is_frame :
    (payload : List ℕ) (source dest s d : ℕ) (flag : Bool)
    → (b6 b7 : ℕ) × (encapsulate payload source dest s d flag
        ≡ frame source dest (length payload + 8) b6 b7 payload)
sealed_is_frame payload source dest s d flag =
    let (b6, b7, same) = sealed_bytes payload source dest (length payload + 8) s d flag in
    (b6, b7, encapsulate-eq-seal payload source dest s d flag ∙ same)

load_swap16 : (x : ℕ) → x < 2 ^ 16 → swap16 (byte 1 x + 2 ^ 8 * byte 0 x) ≡ x
load_swap16 x h = omega arith

parse-frame :
    (source dest len b6 b7 : ℕ) (payload : List ℕ)
    → source < 2 ^ 16
    → dest < 2 ^ 16
    → len < 2 ^ 16
    → len ≡ length payload + 8
    → (h : UdpHeader) × (parse (frame source dest len b6 b7 payload) ≡ some (h, payload))
      × (h.source_port ≡ source)
      × (h.dest_port ≡ dest)
      × (h.length_field ≡ len)
unfolding parse
parse-frame source dest len b6 b7 payload ps pd pl e =
    let sp : swap16 (byte 1 source + 2 ^ 8 * byte 0 source) ≡ source = load_swap16 source ps in
    let dp : swap16 (byte 1 dest + 2 ^ 8 * byte 0 dest) ≡ dest = load_swap16 dest pd in
    let lp : swap16 (byte 1 len + 2 ^ 8 * byte 0 len) ≡ len = load_swap16 len pl in
    let short : ltb (length (frame source dest len b6 b7 payload)) 8 ≡ false =
      ltb-eq-false _ _ (omega arith) in
    let low : ltb len 8 ≡ false = ltb-eq-false _ _ (omega arith) in
    let high : ltb (length (frame source dest len b6 b7 payload)) len ≡ false =
      ltb-eq-false _ _ (omega arith) in
    let all : take (len - 8) payload ≡ payload = take-all (len - 8) payload (omega arith) in
    (
      record {
        source_port = source;
        dest_port = dest;
        length_field = len;
        checksum = swap16 (b6 + 2 ^ 8 * b7);
      },
      rw (short, lp, low, high, all, sp, dp) refl,
      refl,
      refl,
      refl,
    )

-- Every datagram of fewer than 2 ^ 16 bytes, with or without a checksum, is parsed to the ports, the
-- length and the payload that it was made from.
pub encapsulate_parses :
    (payload : List ℕ) (source dest s d : ℕ) (flag : Bool)
    → source < 2 ^ 16
    → dest < 2 ^ 16
    → length payload + 8 < 2 ^ 16
    → (h : UdpHeader) × (parse (encapsulate payload source dest s d flag) ≡ some (h, payload))
      × (h.source_port ≡ source)
      × (h.dest_port ≡ dest)
      × (h.length_field ≡ length payload + 8)
encapsulate_parses payload source dest s d flag ps pd pl =
    let (b6, b7, same) = sealed_is_frame payload source dest s d flag in
    let (h, read, p1, p2, p3) =
      parse-frame source dest (length payload + 8) b6 b7 payload ps pd pl refl in
    (h, ap parse same ∙ read, p1, p2, p3)
