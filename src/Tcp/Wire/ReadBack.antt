-- ===== src/Tcp/Wire/ReadBack.antt =====
-- What `parse` reads back from the frames of the `create_` functions.
use usn_hft_sim.Base.{ℕ, ◌+◌, ◌*◌, ◌/◌, ◌^◌, ◌<◌, ◌≡◌, refl, ap, ◌∙◌, arith, some, List, []}
use usn_hft_sim.Wire.Order.{byte}
use usn_hft_sim.Wire.Sum.{checksum}
use usn_hft_sim.Tcp.Types.{TcpHeader, TcpConnection, IsConnection}
use usn_hft_sim.Tcp.Wire.{
  header_of, calculate_checksum, emit, parse, create_syn_ack, create_ack, create_data, create_fin,
}
use usn_hft_sim.Tcp.Wire.Frame.{Fits, frame, read_back, emit-eq-frame, parse-frame}

pub calculate_checksum-lt : (bytes : List ℕ) (s d : ℕ) → calculate_checksum bytes s d < 2 ^ 16
unfolding calculate_checksum checksum
calculate_checksum-lt bytes s d = omega arith

-- The packet comes back, and of the header everything but the checksum and the low byte of the window.
pub record ReadsAs (packet : List ℕ) (sent : TcpHeader) (payload : List ℕ) : Type 0 where
  pub got : TcpHeader
  pub parsed : parse packet ≡ some (got, payload)
  pub fields : record got { window = sent.window; checksum = sent.checksum } ≡ sent
  pub window_high : got.window / 2 ^ 8 ≡ sent.window / 2 ^ 8

emit-ReadsAs :
    (source dest seq ack flags window : ℕ) (payload : List ℕ) (s d : ℕ)
    → Fits source dest seq ack flags window
    → let h = header_of source dest seq ack flags window in ReadsAs (emit h payload s d) h payload
emit-ReadsAs source dest seq ack flags window payload s d v =
    let sum : ℕ =
      calculate_checksum (frame source dest seq ack flags window (byte 0 window) 0 payload) s d in
    let small : sum < 2 ^ 16 = calculate_checksum-lt _ s d in
    record {
      got = read_back source dest seq ack flags window (byte 1 sum) (byte 0 sum);
      parsed =
          ap parse (emit-eq-frame source dest seq ack flags window payload s d v)
          ∙ parse-frame source dest seq ack flags window (byte 1 sum) (byte 0 sum) payload v
              (omega arith) (omega arith);
      fields = refl;
      window_high = window_high window sum v.window_fits small;
    }
  where
    window_high :
        (window sum : ℕ)
        → window < 2 ^ 16
        → sum < 2 ^ 16
        → (byte 1 window * 2 ^ 8 + byte 1 sum) / 2 ^ 8 ≡ window / 2 ^ 8
    window_high window sum h h' = omega arith

-- The fields of a connection that go into its frames fit their widths.
pub record IsEndpoint (c : TcpConnection) : Type 0 where
  pub widths : IsConnection c
  pub local_fits : c.local_port < 2 ^ 16
  pub remote_fits : c.remote_port < 2 ^ 16

pub endpoint-Fits :
    {c : TcpConnection} (seq ack flags : ℕ)
    → IsEndpoint c
    → seq < 2 ^ 32
    → ack < 2 ^ 32
    → flags < 2 ^ 8
    → Fits c.local_port c.remote_port seq ack flags c.window_size
endpoint-Fits {c} seq ack flags v hs ha hf = record {
  source_fits = v.local_fits;
  dest_fits = v.remote_fits;
  seq_fits = hs;
  ack_fits = ha;
  flags_low = hf;
  window_fits = v.widths.window_fits;
}

-- Every frame that a connection makes is parsed to its own header and payload, but for the checksum
-- and the low byte of the window.
pub frames_read_back :
    (c : TcpConnection) (payload : List ℕ) (seq ack : ℕ)
    → IsEndpoint c
    → seq < 2 ^ 32
    → ack < 2 ^ 32
    → let sent = λ (s a flags : ℕ). header_of c.local_port c.remote_port s a flags c.window_size in
      ReadsAs (create_data c payload) (sent c.send_seq c.recv_seq 24) payload
      × ReadsAs (create_ack c ack) (sent c.send_seq ack 16) []
      × ReadsAs (create_fin c) (sent c.send_seq c.recv_seq 17) []
      × ReadsAs (create_syn_ack c seq ack) (sent seq ack 18) []
unfolding create_data create_ack create_fin create_syn_ack
frames_read_back c payload seq ack v hs ha =
    let read : (s a flags : ℕ) (load : List ℕ)
        → s < 2 ^ 32
        → a < 2 ^ 32
        → flags < 2 ^ 8
        → let h = header_of c.local_port c.remote_port s a flags c.window_size in
          ReadsAs (emit h load c.local_ip c.remote_ip) h load =
      λ s a flags load ps pa pf.
        emit-ReadsAs _ _ s a flags _ load _ _ (endpoint-Fits s a flags v ps pa pf) in
    (
      read c.send_seq c.recv_seq 24 payload v.widths.send_seq_fits v.widths.recv_seq_fits
          (omega arith),
      read c.send_seq ack 16 [] v.widths.send_seq_fits ha (omega arith),
      read c.send_seq c.recv_seq 17 [] v.widths.send_seq_fits v.widths.recv_seq_fits (omega arith),
      read seq ack 18 [] hs ha (omega arith),
    )
