-- ===== src/Tcp/StateMachine/Tests.antt =====
-- The state machine on small inputs.
use usn_hft_sim.Base.{◌≡◌, ℕ, refl, arith, true}
use usn_hft_sim.Tcp.Types.{
  TcpState, closed, established, fin_wait_1, fin_wait_2, close_wait, last_ack, time_wait, TcpHeader,
  has_syn, has_ack, has_fin, TcpConnection, new_connection, IsHeader, IsConnection,
}
use usn_hft_sim.Tcp.StateMachine.{handle_incoming, initiate_close}
use usn_hft_sim.Tcp.StateMachine.Routes.{closing_handshake}
use usn_hft_sim.Tcp.StateMachine.Incoming.{next_state, is_fresh, is_old, handle_incoming_state}

abbrev peer : TcpState → TcpConnection
peer s = record new_connection { state = s; send_seq = 500; recv_seq = 1000; recv_ack = 500 }

abbrev segment : (flags seq ack : ℕ) → TcpHeader
segment flags seq ack = record {
  source_port = 80;
  dest_port = 90;
  seq_num = seq;
  ack_num = ack;
  data_offset = 5;
  reserved = 0;
  flags = flags;
  window = 4096;
  checksum = 0;
  urgent_ptr = 0;
}

data_is_taken : (handle_incoming (peer established) (segment 24 1000 501) 10).1.recv_seq ≡ 1010
unfolding handle_incoming has_syn has_ack has_fin
data_is_taken = refl

fin_is_taken : (handle_incoming (peer established) (segment 17 1000 501) 0).1.state ≡ close_wait
unfolding handle_incoming has_syn has_ack has_fin
fin_is_taken = refl

handle_incoming_state_example :
    let c = peer fin_wait_1 in
    let h = segment 17 1000 501 in
    ((handle_incoming c h 0).0 ≡ true)
    × ((handle_incoming c h 0).1.state
        ≡ next_state fin_wait_1 (has_syn h) (has_ack h) (has_fin h) (is_fresh c h) (is_old c h 0))
handle_incoming_state_example = handle_incoming_state (peer fin_wait_1) (segment 17 1000 501) 0

peer-IsConnection : IsConnection (peer established)
peer-IsConnection = ground arith

segment-IsHeader : IsHeader (segment 24 1000 501)
segment-IsHeader = ground arith

closing_handshake_example :
    let client_1 = (initiate_close (peer established)).1 in
    let server_1 = (handle_incoming (peer established) (segment 17 1000 501) 0).1 in
    let client_2 = (handle_incoming client_1 (segment 16 1000 502) 0).1 in
    let server_2 = (initiate_close server_1).1 in
    let client_3 = (handle_incoming client_2 (segment 17 1000 502) 0).1 in
    let server_3 = (handle_incoming server_2 (segment 16 1001 502) 0).1 in
    (client_1.state ≡ fin_wait_1)
    × (server_1.state ≡ close_wait)
    × (client_2.state ≡ fin_wait_2)
    × (server_2.state ≡ last_ack)
    × (client_3.state ≡ time_wait)
    × (server_3.state ≡ closed)
unfolding has_syn has_ack has_fin handle_incoming
closing_handshake_example =
    closing_handshake (peer established) (peer established) (segment 17 1000 501)
      (segment 16 1000 502) (segment 17 1000 502) (segment 16 1001 502) refl refl (refl, refl)
      (refl, refl, refl) (refl, refl) (refl, refl, refl) (omega arith) (omega arith)
