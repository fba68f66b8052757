-- ===== src/Tcp/StateMachine.antt =====
-- `TcpStateMachine` of include/usn/protocol/tcp_state_machine.hpp. A function that changes the
-- connection returns it beside its result.
pub mod Incoming
pub mod Routes
mod Tests
use usn_hft_sim.Base.{
  ℕ, ◌+◌, Bool, true, false, not, ◌&&◌, ◌||◌, List, ltb, leb, ◌==◌, if◌then◌else◌, u32, sub_u64,
}
use usn_hft_sim.Tcp.Types.{TcpState, is, TcpHeader, has_syn, has_ack, has_fin, TcpConnection}
use usn_hft_sim.Tcp.Wire.{create_ack}

unfoldable pub can_transition : TcpState → TcpState → Bool
can_transition TcpState.closed to = is to TcpState.listen || is to TcpState.syn_sent
can_transition TcpState.listen to = is to TcpState.syn_received || is to TcpState.closed
can_transition TcpState.syn_sent to = is to TcpState.established || is to TcpState.closed
can_transition TcpState.syn_received to = is to TcpState.established || is to TcpState.closed
can_transition TcpState.established to = is to TcpState.fin_wait_1 || is to TcpState.close_wait
can_transition TcpState.fin_wait_1 to =
    is to TcpState.fin_wait_2 || (is to TcpState.closing || is to TcpState.time_wait)
can_transition TcpState.fin_wait_2 to = is to TcpState.time_wait
can_transition TcpState.close_wait to = is to TcpState.last_ack
can_transition TcpState.closing to = is to TcpState.time_wait
can_transition TcpState.last_ack to = is to TcpState.closed
can_transition TcpState.time_wait to = is to TcpState.closed

unfoldable pub transition_state : TcpConnection → TcpState → Bool × TcpConnection
transition_state c to =
    if not (can_transition c.state to) then (false, c) else (true, record c { state = to })

unfoldable pub initiate_close : TcpConnection → Bool × TcpConnection
unfolding transition_state can_transition
initiate_close c =
    if is c.state TcpState.established
    then transition_state c TcpState.fin_wait_1
    else if is c.state TcpState.close_wait
    then transition_state c TcpState.last_ack
    else (false, c)

unfoldable pub should_send_keepalive : (now_ms last_activity_ms interval_ms : ℕ) → Bool
should_send_keepalive now last interval = ltb last now && leb interval (sub_u64 now last)

unfoldable pub create_keepalive : TcpConnection → List ℕ
create_keepalive c = create_ack c c.send_ack

unfoldable pub can_send : TcpConnection → ℕ → Bool
can_send c payload_len = leb payload_len c.peer_window

unfoldable pub on_window_update : TcpConnection → ℕ → TcpConnection
on_window_update c window = record c { window_size = window; peer_window = window }

-- Where a part of `handle_incoming` leaves the function: by a return, or at its end.
pub data Flow : Type 0 where
  returns : Bool × TcpConnection → Flow
  goes_on : TcpConnection → Flow

infixl 5 ◌>>=◌
abbrev pub ◌>>=◌ : Flow → (TcpConnection → Flow) → Flow
returns r >>= f = returns r
goes_on c >>= f = f c

-- `if (header.has_syn()) { ... }`
unfoldable pub on_syn : TcpHeader → TcpConnection → Flow
on_syn h c =
    let c' : TcpConnection = record c { recv_seq = u32 (h.seq_num + 1) } in
    if has_syn h
    then (if is c.state TcpState.listen
        then returns (transition_state (record c' { send_ack = c'.recv_seq }) TcpState.syn_received)
        else (if is c.state TcpState.syn_sent && has_ack h
            then returns
                (transition_state (record c' { send_ack = h.ack_num }) TcpState.established)
            else goes_on c'))
    else goes_on c

-- `if (header.has_ack()) { ... }`
unfoldable pub on_ack : TcpHeader → TcpConnection → Flow
on_ack h c =
    let c' : TcpConnection = record c { recv_ack = h.ack_num } in
    if has_ack h
    then (if leb h.ack_num c.recv_ack && not (has_fin h)
        then returns (true, c)
        else (if is c.state TcpState.syn_received
            then returns (transition_state c' TcpState.established)
            else (if is c.state TcpState.fin_wait_1
                then (if has_fin h
                    then returns (transition_state c' TcpState.time_wait)
                    else returns (transition_state c' TcpState.fin_wait_2))
                else (if is c.state TcpState.closing
                    then returns (transition_state c' TcpState.time_wait)
                    else (if is c.state TcpState.last_ack
                        then returns (transition_state c' TcpState.closed)
                        else goes_on c')))))
    else goes_on c

-- The payload: taken if it is the next, and the call returns if it is an old one.
unfoldable pub on_payload : TcpHeader → ℕ → TcpConnection → Flow
on_payload h payload_len c =
    let next = u32 (c.recv_seq + u32 payload_len) in
    if ltb 0 payload_len && (h.seq_num == c.recv_seq)
    then goes_on (record c { recv_seq = next; send_ack = next })
    else (if ltb 0 payload_len && ltb h.seq_num c.recv_seq then returns (true, c) else goes_on c)

-- `if (header.has_fin()) { ... }`
unfoldable pub on_fin : TcpHeader → ℕ → TcpConnection → Flow
on_fin h payload_len c =
    let past = u32 (h.seq_num + u32 payload_len) in
    let next =
      if ltb 0 payload_len && (past == c.recv_seq) then u32 (c.recv_seq + 1) else u32 (past + 1) in
    let c' : TcpConnection = record c { recv_seq = next; send_ack = next } in
    if has_fin h
    then (if is c.state TcpState.established
        then returns (transition_state c' TcpState.close_wait)
        else (if is c.state TcpState.fin_wait_1
            then returns (transition_state c' TcpState.closing)
            else (if is c.state TcpState.fin_wait_2 || is c.state TcpState.fin_wait_1
                then returns (transition_state c' TcpState.time_wait)
                else goes_on c')))
    else goes_on c

-- The end of the function is `return true`.
unfoldable pub result : Flow → Bool × TcpConnection
result (returns r) = r
result (goes_on c) = (true, c)

unfoldable pub handle_incoming : TcpConnection → TcpHeader → ℕ → Bool × TcpConnection
unfolding on_window_update on_syn on_ack on_payload on_fin transition_state can_transition result
handle_incoming c h payload_len = result (
    on_syn h (on_window_update c h.window)
    >>= on_ack h
    >>= on_payload h payload_len
    >>= on_fin h payload_len)
