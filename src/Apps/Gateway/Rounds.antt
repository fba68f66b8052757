-- ===== src/Apps/Gateway/Rounds.antt =====
-- The loop over the ring and the events of the gateway.
use usn_hft_sim.Base.{
  ℕ, zero, suc, max, Bool, true, false, Option, none, some, List, [], ◌∷◌, ◌++◌, length, ◌==◌,
  if◌then◌else◌, u16,
}
use usn_hft_sim.Base.Ints.{ℤ, pos, negsuc, eagain}
use usn_hft_sim.Base.Maps
use usn_hft_sim.Core.Packet.{of_buffer, blank}
use usn_hft_sim.Core.Ring.{try_push, try_pop, size}
use usn_hft_sim.Io.Status.{UnifiedIoStatus, UnifiedIoResult, LoopControl, classify_loop_control}
use usn_hft_sim.Tcp.Types.{new_connection}
use usn_hft_sim.Tcp.Reassembly.{fresh}
use usn_hft_sim.Apps.Gateway.{ConnectionContext, Metrics, bump, Gateway, Host, refused}
use usn_hft_sim.Apps.Gateway.Frames.{close_connection, handle_packet}

-- The loop over the ring: what is there is popped, so the size of the ring is enough fuel.
unfoldable pub drain : (fuel : ℕ) → Host → Gateway → Gateway
drain zero h g = g
drain (suc fuel) h g =
    let (found, pkt, ring) = try_pop g.req_ring blank in
    let rest = drain fuel h (handle_packet h pkt (record g { req_ring = ring })) in
    if found then rest else g

-- An event of the listening socket: the descriptor that `accept4` gives with the port of the peer, or
-- none, and whether the epoll set takes it.
unfoldable pub on_accept : Option (ℕ × ℕ) → (is_added : Bool) → Gateway → Gateway
on_accept none is_added g =
    let m : Metrics = g.metrics in
    record g { metrics = record m { accept_failures = bump m.accept_failures } }
on_accept (some (fd, peer_port)) is_added g =
    let ctx : ConnectionContext = record {
      tcp = record new_connection {
        local_ip = 16777343;
        remote_ip = 16777343;
        local_port = 9000;
        remote_port = peer_port;
        recv_seq = 1;
        send_seq = 1;
      };
      reassembly = fresh;
    } in
    let contexts : List (ℕ × ConnectionContext) = Maps.emplace g.conn_ctx fd ctx in
    let m : Metrics = g.metrics in
    if is_added
    then record g {
      conn_ctx = contexts;
      metrics = record m { active_conn_peak = max m.active_conn_peak (length contexts) };
    }
    else record g { events = g.events ++ refused fd ∷ [] }

-- An event of a connection: what `read` answers, with `errno`, and the address of the buffer.
unfoldable pub on_readable : (fd : ℕ) → ℤ → (errno buffer : ℕ) → Gateway → Gateway
on_readable fd nread errno buffer g =
    let m : Metrics = g.metrics in
    let lost : Gateway = close_connection fd (record g {
      metrics = record m { unexpected_disconnects = bump m.unexpected_disconnects };
    }) in
    elim nread [
      | pos zero ↦ lost
      | pos (suc n) ↦ record g {
        req_ring = (try_push g.req_ring (record (of_buffer buffer (suc n) 0) { port = u16 fd })).1;
      }
      | negsuc n ↦ if errno == eagain then g else lost
    ]

-- An event of the epoll set.
pub data Ready : Type 0 where
  connection : (accepted : Option (ℕ × ℕ)) → (is_added : Bool) → Ready
  readable : (fd : ℕ) → (nread : ℤ) → (errno buffer : ℕ) → Ready

unfoldable pub read_all : List Ready → Gateway → Gateway
read_all [] g = g
read_all (connection accepted is_added ∷ events) g = read_all events (on_accept accepted is_added g)
read_all (readable fd nread errno buffer ∷ events) g =
    read_all events (on_readable fd nread errno buffer g)

-- One round of the event loop: whether it goes on, and the gateway.
unfoldable pub serve : Host → UnifiedIoResult → List Ready → Gateway → Bool × Gateway
serve h result events g =
    let filled : Gateway = read_all events g in
    elim result.status [
      | UnifiedIoStatus.sys_error ↦ (false, g)
      | UnifiedIoStatus.cancelled ↦ (false, g)
      | _ ↦ elim (classify_loop_control result) [
        | LoopControl.continue_work ↦ (true, drain (size filled.req_ring) h filled)
        | _ ↦ (true, g)
      ]
    ]
