-- ===== src/Tcp/Wire/Validity.antt =====
-- What `validate_checksum` makes of the frames of the `create_` functions.
use usn_hft_sim.Base.{
  ℕ, ◌+◌, ◌-◌, ◌*◌, ◌%◌, ◌^◌, ◌<◌, ◌≡◌, ap, ap₂, ◌∙◌, arith, false, List, [], length, ltb, ◌==◌,
  ltb-eq-false,
}
use usn_hft_sim.Wire.Order.{byte, swap16, AreBytes}
use usn_hft_sim.Wire.Sum.{folded, pseudo_sum, word_total, pseudo_sum_bounds, checksum-eq-folded}
use usn_hft_sim.Tcp.Types.{TcpConnection}
use usn_hft_sim.Tcp.Wire.{
  header_of, calculate_checksum, emit, validate_checksum, create_syn, create_syn_ack, create_ack,
  create_data, create_fin,
}
use usn_hft_sim.Tcp.Wire.Frame.{Fits, frame, emit-eq-frame}
use usn_hft_sim.Tcp.Wire.ReadBack.{IsEndpoint, endpoint-Fits, calculate_checksum-lt}

frame-AreBytes :
    (source dest seq ack flags window b16 b17 : ℕ) (payload : List ℕ)
    → flags < 2 ^ 8
    → b16 < 2 ^ 8
    → b17 < 2 ^ 8
    → AreBytes payload
    → AreBytes (frame source dest seq ack flags window b16 b17 payload)
frame-AreBytes source dest seq ack flags window b16 b17 payload f h16 h17 v = ground arith

folded_shift :
    (p w x : ℕ)
    → 0 < p
    → x < 2 ^ 8
    → (2 ^ 16 - 1 - folded (p + (w + x * 2 ^ 8)) == 2 ^ 16 - 1 - folded (p + (w + 0 * 2 ^ 8)))
      ≡ (x == 0)
folded_shift p w x pos h = ground arith

-- The sum of a frame with a byte in place 16, in closed form.
calculate_checksum-frame :
    (source dest seq ack flags window b : ℕ) (payload : List ℕ) (s d : ℕ)
    → flags < 2 ^ 8
    → b < 2 ^ 8
    → AreBytes payload
    → length payload + 20 < 2 ^ 16
    → let w = word_total (frame source dest seq ack flags window 0 0 payload) in
      calculate_checksum (frame source dest seq ack flags window b 0 payload) s d
      ≡ 2 ^ 16 - 1 - folded (pseudo_sum 6 (length payload + 20) s d + (w + b * 2 ^ 8))
unfolding calculate_checksum
calculate_checksum-frame source dest seq ack flags window b payload s d hf hb bs short =
    let total : word_total (frame source dest seq ack flags window b 0 payload)
        ≡ word_total (frame source dest seq ack flags window 0 0 payload) + b * 2 ^ 8 =
      omega arith in
    let count : length (frame source dest seq ack flags window b 0 payload) ≡ length payload + 20 =
      omega arith in
    checksum-eq-folded 6 (frame source dest seq ack flags window b 0 payload) s d (omega arith)
      (frame-AreBytes source dest seq ack flags window b 0 payload hf hb (omega arith) bs)
      (omega arith)
    ∙ ap₂ (λ (n t : ℕ). 2 ^ 16 - 1 - folded (pseudo_sum 6 n s d + t)) count total

-- The receiver clears bytes 16 and 17 and compares.
validate-frame :
    (source dest seq ack flags window sum : ℕ) (payload : List ℕ) (s d : ℕ)
    → sum < 2 ^ 16
    → validate_checksum
        (frame source dest seq ack flags window (byte 1 sum) (byte 0 sum) payload)
        s
        d
      ≡ (sum == calculate_checksum (frame source dest seq ack flags window 0 0 payload) s d)
unfolding validate_checksum
validate-frame source dest seq ack flags window sum payload s d small =
    let long : ltb
          (length (frame source dest seq ack flags window (byte 1 sum) (byte 0 sum) payload)) 20
        ≡ false =
      ltb-eq-false _ _ (omega arith) in
    let stored : swap16 (byte 1 sum + 2 ^ 8 * byte 0 sum) ≡ sum = omega arith in
    rw long (
      ap
        (λ (t : ℕ).
          t == calculate_checksum (frame source dest seq ack flags window 0 0 payload) s d)
        stored)

-- The sender leaves the low byte of the window in byte 16 while it sums; the receiver clears it.
emit-validate :
    (source dest seq ack flags window : ℕ) (payload : List ℕ) (s d : ℕ)
    → Fits source dest seq ack flags window
    → AreBytes payload
    → length payload + 20 < 2 ^ 16
    → validate_checksum (emit (header_of source dest seq ack flags window) payload s d) s d
      ≡ (window % 2 ^ 8 == 0)
emit-validate source dest seq ack flags window payload s d v bs short =
    let sum_of : ℕ → ℕ =
      λ b. calculate_checksum (frame source dest seq ack flags window b 0 payload) s d in
    let low : byte 0 window ≡ window % 2 ^ 8 = omega arith in
    let w : ℕ = word_total (frame source dest seq ack flags window 0 0 payload) in
    let p : ℕ = pseudo_sum 6 (length payload + 20) s d in
    let closed : (b : ℕ) → b < 2 ^ 8 → sum_of b ≡ 2 ^ 16 - 1 - folded (p + (w + b * 2 ^ 8)) =
      λ b hb.
        calculate_checksum-frame source dest seq ack flags window b payload s d v.flags_low hb bs
          short in
    ap (λ (t : List ℕ). validate_checksum t s d)
      (emit-eq-frame source dest seq ack flags window payload s d v)
    ∙ validate-frame source dest seq ack flags window (sum_of (byte 0 window)) payload s d
        (calculate_checksum-lt _ s d)
    ∙ ap₂ (λ (a b : ℕ). a == b) (closed (byte 0 window) (omega arith)) (closed 0 (omega arith))
    ∙ folded_shift p w (byte 0 window)
        (pseudo_sum_bounds 6 (length payload + 20) s d (omega arith)).0 (omega arith)
    ∙ ap (λ (t : ℕ). t == 0) low

-- The receiver accepts the checksum of a frame of fewer than 2 ^ 16 bytes that a connection makes exactly
-- when the low byte of the connection's window is zero; it never accepts a frame of `create_syn`, whose
-- window is 65535.
pub frames_validate_iff :
    (c : TcpConnection) (payload : List ℕ) (seq ack : ℕ)
    → IsEndpoint c
    → AreBytes payload
    → length payload + 20 < 2 ^ 16
    → seq < 2 ^ 32
    → ack < 2 ^ 32
    → let accepts = λ (packet : List ℕ). validate_checksum packet c.local_ip c.remote_ip in
      let round = c.window_size % 2 ^ 8 == 0 in
      (accepts (create_data c payload) ≡ round)
      × (accepts (create_ack c ack) ≡ round)
      × (accepts (create_fin c) ≡ round)
      × (accepts (create_syn_ack c seq ack) ≡ round)
      × (accepts (create_syn c.local_port c.remote_port c.local_ip c.remote_ip seq) ≡ false)
unfolding create_data create_ack create_fin create_syn_ack create_syn
frames_validate_iff c payload seq ack v bs short hs ha =
    let valid : (s a flags : ℕ) (load : List ℕ)
        → s < 2 ^ 32
        → a < 2 ^ 32
        → flags < 2 ^ 8
        → AreBytes load
        → length load + 20 < 2 ^ 16
        → let h = header_of c.local_port c.remote_port s a flags c.window_size in
          validate_checksum (emit h load c.local_ip c.remote_ip) c.local_ip c.remote_ip
          ≡ (c.window_size % 2 ^ 8 == 0) =
      λ s a flags load ps pa pf pd pl.
        emit-validate _ _ s a flags _ load _ _ (endpoint-Fits s a flags v ps pa pf) pd pl in
    (
      valid c.send_seq c.recv_seq 24 payload v.widths.send_seq_fits v.widths.recv_seq_fits
          (omega arith) bs short,
      valid c.send_seq ack 16 [] v.widths.send_seq_fits ha (omega arith) tt (omega arith),
      valid c.send_seq c.recv_seq 17 [] v.widths.send_seq_fits v.widths.recv_seq_fits (omega arith)
          tt (omega arith),
      valid seq ack 18 [] hs ha (omega arith) tt (omega arith),
      emit-validate c.local_port c.remote_port seq 0 2 65535 [] c.local_ip c.remote_ip
          (record {
            source_fits = v.local_fits;
            dest_fits = v.remote_fits;
            seq_fits = hs;
            ack_fits = omega arith;
            flags_low = omega arith;
            window_fits = omega arith;
          })
          tt (omega arith),
    )
