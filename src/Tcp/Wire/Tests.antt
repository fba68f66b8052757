-- ===== src/Tcp/Wire/Tests.antt =====
-- Frames of a small connection.
use usn_hft_sim.Base.{◌≡◌, ◌^◌, ◌==◌, ◌%◌, ℕ, false, [], List, ◌∷◌, refl, arith}
use usn_hft_sim.Tcp.Types.{TcpHeader, TcpConnection, new_connection}
use usn_hft_sim.Tcp.Wire.{
  header_of, create_syn, create_syn_ack, create_ack, create_data, create_fin, validate_checksum,
  calculate_checksum, emit, to_network_order,
}
use usn_hft_sim.Wire.Sum.{checksum, add_words, fold, pseudo_sum}
use usn_hft_sim.Tcp.Wire.ReadBack.{ReadsAs, IsEndpoint, frames_read_back}
use usn_hft_sim.Tcp.Wire.Validity.{frames_validate_iff}

abbrev near : TcpConnection
near = record new_connection {
  local_ip = 0x0100007f;
  remote_ip = 0x0200007f;
  local_port = 4000;
  remote_port = 80;
  send_seq = 1000;
  recv_seq = 2000;
}

near-IsEndpoint : IsEndpoint near
near-IsEndpoint = ground arith

abbrev sent : (seq ack flags : ℕ) → TcpHeader
sent seq ack flags = header_of 4000 80 seq ack flags 65535

own_frame_is_refused : validate_checksum (create_ack near 2000) near.local_ip near.remote_ip ≡ false
unfolding validate_checksum create_ack calculate_checksum emit to_network_order checksum add_words
    fold pseudo_sum
own_frame_is_refused = refl

frames_read_back_example :
    ReadsAs (create_data near (1 ∷ 2 ∷ [])) (sent 1000 2000 24) (1 ∷ 2 ∷ [])
    × ReadsAs (create_ack near 2000) (sent 1000 2000 16) []
    × ReadsAs (create_fin near) (sent 1000 2000 17) []
    × ReadsAs (create_syn_ack near 900 2000) (sent 900 2000 18) []
frames_read_back_example =
    frames_read_back near (1 ∷ 2 ∷ []) 900 2000 near-IsEndpoint (omega arith) (omega arith)

frames_validate_iff_example :
    let accepts = λ (packet : List ℕ). validate_checksum packet near.local_ip near.remote_ip in
    let round = 65535 % 2 ^ 8 == 0 in
    (accepts (create_data near (1 ∷ 2 ∷ [])) ≡ round)
    × (accepts (create_ack near 2000) ≡ round)
    × (accepts (create_fin near) ≡ round)
    × (accepts (create_syn_ack near 900 2000) ≡ round)
    × (accepts (create_syn 4000 80 near.local_ip near.remote_ip 900) ≡ false)
frames_validate_iff_example =
    frames_validate_iff near (1 ∷ 2 ∷ []) 900 2000 near-IsEndpoint (ground arith) (omega arith)
      (omega arith) (omega arith)
