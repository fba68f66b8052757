-- ===== src/Apps/Client/Lifecycle.antt =====
-- The connecting, reconnecting and closing of the order client.
use usn_hft_sim.Base.{
  ℕ, ◌+◌, Bool, true, false, not, ◌&&◌, ◌||◌, Option, none, some, List, [], ◌∷◌, ◌++◌, length, take,
  if◌then◌else◌, u32, u64,
}
use usn_hft_sim.Tcp.Types.{TcpState, is, TcpHeader, has_fin, TcpConnection}
use usn_hft_sim.Tcp.Wire.{parse, is_malformed_header, create_ack, create_fin}
use usn_hft_sim.Tcp.StateMachine.{initiate_close, handle_incoming}
use usn_hft_sim.Tcp.Congestion
use usn_hft_sim.Tcp.Socket.{ConnectAnswers, connect_to, FdEvent, release}
use usn_hft_sim.Apps.Client.{Client}

pub data ClientState : Type 0 where
  connecting active retrying stopped : ClientState

-- The client with its connection: `is_connected` is a descriptor that is not negative.
pub record Session : Type 0 where
  pub state : ClientState
  pub is_connected : Bool
  pub client : Client
  pub reconnect_total : ℕ

-- The descriptor of a new connection, handed over by its owner.
unfoldable pub connect_to_gateway : ConnectAnswers → Option ℕ × List FdEvent
connect_to_gateway a = let (socket, events) = connect_to a in ((release socket).0, events)

-- The first connection: `none` is the return of 1.
unfoldable pub start : (connects : Bool) → Client → Option Session
start connects client =
    if connects
    then some (record { state = active; is_connected = true; client = client; reconnect_total = 0 })
    else none

-- The head of the loop: whether the time of a disconnect has come, and whether the new connection is
-- made. The flag says whether the round goes on.
unfoldable pub reconnect : (is_due connects : Bool) → Session → Bool × Session
reconnect is_due connects s =
    let c : Client = s.client in
    if not is_due
    then (true, s)
    else (if not connects then (false, record s { state = retrying; is_connected = false }) else (
      true,
      record s {
        state = active;
        is_connected = true;
        reconnect_total = u64 (s.reconnect_total + 1);
        client = record c { cc = Congestion.make 1200 };
      },
    ))

abbrev write_frame : List ℕ → Client → Client
write_frame frame c = record c { wrote = c.wrote ++ frame ∷ [] }

abbrev is_active : ClientState → Bool
is_active active = true
is_active s = false

-- One frame of the close: whether the loop ends, and the client.
unfoldable pub on_close_frame : Option (TcpHeader × List ℕ) → Client → Bool × Client
on_close_frame none c = (false, c)
on_close_frame (some (header, payload)) c =
    let handled : Client = record c { conn = (handle_incoming c.conn header (length payload)).1 } in
    let acked : Client =
      if has_fin header
      then write_frame (create_ack handled.conn handled.conn.send_ack) handled
      else handled in
    if is_malformed_header header
    then (false, c)
    else (is acked.conn.state TcpState.time_wait || is acked.conn.state TcpState.closed, acked)

-- The reads of the close; a read that gives nothing ends it, and the list is as long as the loop.
unfoldable pub close_loop : List (Option (List ℕ)) → Client → Client
close_loop [] c = c
close_loop (none ∷ reads) c = c
close_loop (some frame ∷ reads) c =
    let answered : Bool × Client = on_close_frame (parse frame) c in
    let rest = close_loop reads answered.1 in if answered.0 then answered.1 else rest

-- The end of `main`, with at most four reads.
unfoldable pub teardown : (reads : List (Option (List ℕ))) → Session → Session
teardown reads s =
    let c : Client = s.client in
    let closing : Bool × TcpConnection = initiate_close c.conn in
    let conn : TcpConnection = closing.1 in
    let sent : Client =
      write_frame (create_fin conn)
        (record c { conn = record conn { send_seq = u32 (conn.send_seq + 1) } }) in
    record s {
      state = stopped;
      is_connected = false;
      client =
          if s.is_connected && (is_active s.state && closing.0)
          then close_loop (take 4 reads) sent
          else c;
    }
