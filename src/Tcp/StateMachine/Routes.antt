-- ===== src/Tcp/StateMachine/Routes.antt =====
-- Sequences of transitions, and the two handshakes between two connections.
use usn_hft_sim.Base.{ℕ, ◌+◌, ◌≤◌, ◌<◌, ◌^◌, ◌≡◌, refl, arith, true, false, u32, ◌⊎◌, ◌↔◌}
use usn_hft_sim.Tcp.Types.{
  TcpState, closed, listen, syn_sent, syn_received, established, fin_wait_1, fin_wait_2, close_wait,
  closing, last_ack, time_wait, TcpHeader, has_syn, has_ack, has_fin, TcpConnection,
}
use usn_hft_sim.Tcp.StateMachine.{
  can_transition, initiate_close, handle_incoming, should_send_keepalive,
}

-- The moves that `can_transition` allows, in order.
pub data Route : TcpState → TcpState → Type 0 where
  stay : (s : TcpState) → Route s s
  move : {a b c : TcpState} → can_transition a b ≡ true → Route b c → Route a c

unfoldable pub moves : {a b : TcpState} → Route a b → ℕ
moves (stay s) = 0
moves (move h r) = moves r + 1

-- From every state the connection can be closed, in at most four moves.
pub every_state_can_close : (s : TcpState) → (r : Route s closed) × (moves r ≤ 4)
unfolding can_transition moves
every_state_can_close closed = (stay closed, omega arith)
every_state_can_close listen = (move refl (stay closed), omega arith)
every_state_can_close syn_sent = (move refl (stay closed), omega arith)
every_state_can_close syn_received = (move refl (stay closed), omega arith)
every_state_can_close established =
    (move {b = close_wait} refl (move {b = last_ack} refl (move refl (stay closed))), omega arith)
every_state_can_close fin_wait_1 =
    (move {b = time_wait} refl (move refl (stay closed)), omega arith)
every_state_can_close fin_wait_2 =
    (move {b = time_wait} refl (move refl (stay closed)), omega arith)
every_state_can_close close_wait = (move {b = last_ack} refl (move refl (stay closed)), omega arith)
every_state_can_close closing = (move {b = time_wait} refl (move refl (stay closed)), omega arith)
every_state_can_close last_ack = (move refl (stay closed), omega arith)
every_state_can_close time_wait = (move refl (stay closed), omega arith)

-- `initiate_close` succeeds exactly in the two states from which the application may close.
pub initiate_close_iff :
    (c : TcpConnection)
    → ((initiate_close c).0 ≡ true) ↔ ((c.state ≡ established) ⊎ (c.state ≡ close_wait))
unfolding initiate_close
initiate_close_iff c = by_state c.state refl
  where
    by_state :
        (s : TcpState)
        → c.state ≡ s
        → ((initiate_close c).0 ≡ true) ↔ ((c.state ≡ established) ⊎ (c.state ≡ close_wait))
    by_state closed e = ground arith
    by_state s e = ground arith

-- A keepalive is due exactly when the clock has moved and the whole interval has passed.
pub should_send_keepalive_iff :
    (now last interval : ℕ)
    → now < 2 ^ 64
    → (should_send_keepalive now last interval ≡ true) ↔ ((last < now) × (last + interval ≤ now))
unfolding should_send_keepalive
should_send_keepalive_iff now last interval h = ground arith

-- The opening handshake: a SYN to a listener, its SYN-ACK to the client, and the client's new
-- acknowledgement to the listener leave both established, each expecting the number after the
-- other's SYN.
pub opening_handshake :
    (client server : TcpConnection) (syn syn_ack ack : TcpHeader)
    → client.state ≡ syn_sent
    → server.state ≡ listen
    → (has_syn syn ≡ true)
      × (has_syn syn_ack ≡ true)
      × (has_ack syn_ack ≡ true)
      × (has_syn ack ≡ false)
      × (has_ack ack ≡ true)
      × (has_fin ack ≡ false)
    → server.recv_ack < ack.ack_num
    → let server' = (handle_incoming server syn 0).1 in
      let client' = (handle_incoming client syn_ack 0).1 in
      let server'' = (handle_incoming server' ack 0).1 in
      (server'.state ≡ syn_received)
      × (client'.state ≡ established)
      × (server''.state ≡ established)
      × (server''.recv_seq ≡ u32 (syn.seq_num + 1))
      × (client'.recv_seq ≡ u32 (syn_ack.seq_num + 1))
unfolding handle_incoming
opening_handshake client server syn syn_ack ack open_c open_s flags new = ground arith

-- The orderly close: the client closes, the server takes its FIN, answers with a new acknowledgement
-- and then with its own FIN, and takes the new acknowledgement of that. The client ends in TIME_WAIT
-- and the server in CLOSED. (The FINs carry no data, and neither side has more of it under way.)
pub closing_handshake :
    (client server : TcpConnection) (fin ack fin' ack' : TcpHeader)
    → client.state ≡ established
    → server.state ≡ established
    → (has_syn fin ≡ false) × (has_fin fin ≡ true)
    → (has_syn ack ≡ false) × (has_ack ack ≡ true) × (has_fin ack ≡ false)
    → (has_syn fin' ≡ false) × (has_fin fin' ≡ true)
    → (has_syn ack' ≡ false) × (has_ack ack' ≡ true) × (has_fin ack' ≡ false)
    → client.recv_ack < ack.ack_num
    → (handle_incoming server fin 0).1.recv_ack < ack'.ack_num
    → let client_1 = (initiate_close client).1 in
      let server_1 = (handle_incoming server fin 0).1 in
      let client_2 = (handle_incoming client_1 ack 0).1 in
      let server_2 = (initiate_close server_1).1 in
      let client_3 = (handle_incoming client_2 fin' 0).1 in
      let server_3 = (handle_incoming server_2 ack' 0).1 in
      (client_1.state ≡ fin_wait_1)
      × (server_1.state ≡ close_wait)
      × (client_2.state ≡ fin_wait_2)
      × (server_2.state ≡ last_ack)
      × (client_3.state ≡ time_wait)
      × (server_3.state ≡ closed)
unfolding handle_incoming initiate_close
closing_handshake client server fin ack fin' ack' up_c up_s f a f' a' new new' = ground arith
