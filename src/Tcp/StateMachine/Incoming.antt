-- ===== src/Tcp/StateMachine/Incoming.antt =====
-- What `handle_incoming` does to a connection.
use usn_hft_sim.Base.{
  ℕ, ◌+◌, ◌≤◌, ◌<◌, ◌^◌, ◌≡◌, ◌⊎◌, refl, arith, Bool, true, false, not, ◌&&◌, ◌||◌, ltb,
  if◌then◌else◌, u32,
}
use usn_hft_sim.Tcp.Types.{
  TcpState, closed, listen, syn_sent, syn_received, established, fin_wait_1, fin_wait_2, close_wait,
  closing, last_ack, time_wait, TcpHeader, has_syn, has_ack, has_fin, TcpConnection, IsHeader,
  IsConnection,
}
use usn_hft_sim.Tcp.StateMachine.{can_transition, handle_incoming, on_window_update}

-- The state machine as a table: the next state from the flags, from whether an acknowledgement is
-- taken (`fresh`), and from whether the payload has been seen already (`old`).
abbrev pub next_state : TcpState → (syn ack fin fresh old : Bool) → TcpState
next_state listen syn ack fin fresh old = if syn then syn_received else listen
next_state syn_sent syn ack fin fresh old = if syn && ack then established else syn_sent
next_state syn_received syn ack fin fresh old = if ack && fresh then established else syn_received
next_state established syn ack fin fresh old = if fin && not old then close_wait else established
next_state fin_wait_1 syn ack fin fresh old =
    if ack
    then (if fresh then (if fin then time_wait else fin_wait_2) else fin_wait_1)
    else (if fin && not old then closing else fin_wait_1)
next_state fin_wait_2 syn ack fin fresh old = if fin && not old then time_wait else fin_wait_2
next_state closing syn ack fin fresh old = if ack && fresh then time_wait else closing
next_state last_ack syn ack fin fresh old = if ack && fresh then closed else last_ack
next_state s syn ack fin fresh old = s

abbrev pub is_fresh : TcpConnection → TcpHeader → Bool
is_fresh c h = has_fin h || ltb c.recv_ack h.ack_num

-- A SYN moves the receive sequence number before the payload is looked at.
abbrev pub is_old : TcpConnection → TcpHeader → ℕ → Bool
is_old c h n = ltb 0 n && ltb h.seq_num (if has_syn h then u32 (h.seq_num + 1) else c.recv_seq)

-- `handle_incoming` never refuses, and moves the state exactly as the table says.
pub handle_incoming_state :
    (c : TcpConnection) (h : TcpHeader) (n : ℕ)
    → ((handle_incoming c h n).0 ≡ true)
      × ((handle_incoming c h n).1.state
          ≡ next_state c.state (has_syn h) (has_ack h) (has_fin h) (is_fresh c h) (is_old c h n))
unfolding handle_incoming
handle_incoming_state c h n = by_state c.state refl
  where
    by_state :
        (s : TcpState)
        → c.state ≡ s
        → ((handle_incoming c h n).0 ≡ true)
          × ((handle_incoming c h n).1.state
              ≡ next_state c.state
                  (has_syn h)
                  (has_ack h)
                  (has_fin h)
                  (is_fresh c h)
                  (is_old c h n))
    by_state closed e = ground arith
    by_state s e = ground arith

-- Each move of the state is one that `can_transition` allows.
pub handle_incoming_legal :
    (c : TcpConnection) (h : TcpHeader) (n : ℕ)
    → ((handle_incoming c h n).1.state ≡ c.state)
      ⊎ (can_transition c.state (handle_incoming c h n).1.state ≡ true)
unfolding can_transition
handle_incoming_legal c h n = rw ((handle_incoming_state c h n).1) (legal c.state)
  where
    legal :
        (s : TcpState)
        → let s' = next_state s (has_syn h) (has_ack h) (has_fin h) (is_fresh c h) (is_old c h n) in
          (s' ≡ s) ⊎ (can_transition s s' ≡ true)
    legal closed = ground arith
    legal s = ground arith

-- No input makes a field of the connection leave its width.
pub handle_incoming-IsConnection :
    {c : TcpConnection} {h : TcpHeader} (n : ℕ)
    → IsConnection c
    → IsHeader h
    → IsConnection (handle_incoming c h n).1
unfolding handle_incoming
handle_incoming-IsConnection {c} {h} n v w = by_state c.state refl
  where
    by_state : (s : TcpState) → c.state ≡ s → IsConnection (handle_incoming c h n).1
    by_state closed e = ground arith
    by_state s e = ground arith

-- In the states that carry data, a segment without SYN and FIN that is the next one, and whose
-- acknowledgement, if it has one, is new, moves the receive sequence number past its payload and
-- acknowledges it; besides these fields only the window and the acknowledgement number change.
pub handle_incoming_data :
    (c : TcpConnection) (h : TcpHeader) (n : ℕ)
    → (c.state ≡ established) ⊎ (c.state ≡ fin_wait_2)
    → has_syn h ≡ false
    → has_fin h ≡ false
    → 0 < n
    → h.seq_num ≡ c.recv_seq
    → (has_ack h ≡ true → c.recv_ack < h.ack_num)
    → handle_incoming c h n ≡ (
      true,
      record c {
        recv_seq = u32 (c.recv_seq + u32 n);
        send_ack = u32 (c.recv_seq + u32 n);
        recv_ack = if has_ack h then h.ack_num else c.recv_ack;
        window_size = h.window;
        peer_window = h.window;
      },
    )
unfolding handle_incoming
handle_incoming_data c h n up no_syn no_fin some_data next new = ground arith

-- A segment without SYN and FIN whose acknowledgement is not new is dropped with its payload, even if
-- the payload is the next one: only the window changes.
pub handle_incoming_repeated_ack :
    (c : TcpConnection) (h : TcpHeader) (n : ℕ)
    → has_syn h ≡ false
    → has_fin h ≡ false
    → has_ack h ≡ true
    → h.ack_num ≤ c.recv_ack
    → handle_incoming c h n ≡ (true, on_window_update c h.window)
unfolding handle_incoming
handle_incoming_repeated_ack c h n no_syn no_fin ack old = ground arith

-- A FIN beyond a gap is taken at once: an established connection acknowledges everything up to the
-- FIN, the bytes of the gap included, which it has not received.
pub handle_incoming_fin_gap :
    (c : TcpConnection) (h : TcpHeader) (n : ℕ)
    → c.state ≡ established
    → has_syn h ≡ false
    → has_fin h ≡ true
    → c.recv_seq < h.seq_num
    → h.seq_num + n + 1 < 2 ^ 32
    → ((handle_incoming c h n).1.state ≡ close_wait)
      × ((handle_incoming c h n).1.recv_seq ≡ h.seq_num + n + 1)
      × ((handle_incoming c h n).1.send_ack ≡ h.seq_num + n + 1)
unfolding handle_incoming
handle_incoming_fin_gap c h n up no_syn fin gap fits = ground arith
