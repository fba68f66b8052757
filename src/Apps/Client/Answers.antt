-- ===== src/Apps/Client/Answers.antt =====
-- Waiting for the answer to a request, with retransmissions, and taking it.
use usn_hft_sim.Base.{
  ℕ, ◌+◌, ◌-◌, ◌*◌, ◌/◌, max, Bool, false, not, ◌||◌, Option, none, some, List, [], ◌∷◌, ◌++◌,
  length, leb, ◌==◌, if◌then◌else◌, u32, u64,
}
use usn_hft_sim.Base.Ints.{eagain, eintr}
use usn_hft_sim.Base.Maps
use usn_hft_sim.Core.Tracing.{should_emit}
use usn_hft_sim.Tcp.Types.{TcpHeader, has_ack, TcpConnection}
use usn_hft_sim.Tcp.Wire.{parse, is_malformed_header}
use usn_hft_sim.Tcp.StateMachine.{on_window_update}
use usn_hft_sim.Tcp.Retransmission
use usn_hft_sim.Tcp.Retransmission.{Entry, track_segment, ack_up_to, collect_due}
use usn_hft_sim.Tcp.Rto.{sample_rtt}
use usn_hft_sim.Tcp.Congestion.{on_ack, on_loss}
use usn_hft_sim.Apps.Messages.{OrderRequest, order_request_size, action_new, action_cancel}
use usn_hft_sim.Apps.Client.{Stats, bump, Client, Socket, wrote_all}

-- The segments that the queue still holds.
unfoldable pub still_tracked : List Entry → List (ℕ × List ℕ) → List (ℕ × List ℕ)
still_tracked entries [] = []
still_tracked entries (e ∷ segments) =
    let rest = still_tracked entries segments in
    if Retransmission.contains entries e.0 then e ∷ rest else rest

-- The outstanding frame of a due entry is written again, if there is one.
unfoldable pub resend : Socket → Option (List ℕ) → Client → Client
resend write_to none c = c
resend write_to (some frame) c =
    let s : Stats = c.stats in
    record c {
      wrote = c.wrote ++ frame ∷ [];
      stats =
          if wrote_all (write_to c.wrote frame) (length frame)
          then record s { retransmit_total = bump s.retransmit_total }
          else record s { retransmit_failed_total = bump s.retransmit_failed_total };
    }

unfoldable pub retransmit : Socket → List Entry → Client → Client
retransmit write_to [] c = c
retransmit write_to (e ∷ due) c =
    retransmit write_to due (resend write_to (Maps.find c.outstanding_segments e.seq_start) c)

-- A read that has timed out.
unfoldable pub on_tick : Socket → (tick_ms : ℕ) → Client → Client
on_tick write_to tick_ms c =
    let collected : List Entry × List Entry =
      collect_due c.retrans_q tick_ms c.rto_estimator.rto_ms 5 in
    let kept : List (ℕ × List ℕ) = still_tracked collected.1 c.outstanding_segments in
    let s : Stats = c.stats in
    let dropped : ℕ =
      u64 (s.retransmit_drop_total + (length c.outstanding_segments - length kept)) in
    let swept : Client = record c {
      retrans_q = collected.1;
      outstanding_segments = kept;
      stats = record s { retransmit_drop_total = dropped };
    } in
    let lost : Client = record swept {
      cc = on_loss c.cc;
      stats = record s {
        retransmit_drop_total = dropped;
        congestion_loss_total = bump s.congestion_loss_total;
      };
    } in
    if length collected.0 == 0 then swept else retransmit write_to collected.0 lost

-- One read: whether `g_running` holds at the head of the loop, and what `read` answers; a failure
-- comes with the error number and the time after it.
pub data Read : Type 0 where
  interrupted gateway_closed : Read
  received : List ℕ → Read
  failed : (errno tick_ms : ℕ) → Read

abbrev pub is_retryable : ℕ → Bool
is_retryable errno = errno == eagain || errno == eintr

-- The loop that waits for an acknowledgement: the frame, if one has come. The outer `none` is a loop
-- that is still waiting.
unfoldable pub await_ack : Socket → List Read → Client → Option (Option (List ℕ) × Client)
await_ack write_to [] c = none
await_ack write_to (interrupted ∷ reads) c = some (none, record c { is_running = false })
await_ack write_to (gateway_closed ∷ reads) c = some (none, record c { is_running = false })
await_ack write_to (received frame ∷ reads) c = some (some frame, c)
await_ack write_to (failed errno tick_ms ∷ reads) c =
    let s : Stats = c.stats in
    let rest = await_ack write_to reads (on_tick write_to tick_ms c) in
    if is_retryable errno
    then rest
    else some (
      none,
      record c {
        is_running = false;
        stats = record s { ack_timeout_total = bump s.ack_timeout_total };
      },
    )

-- The segments that an acknowledgement does not cover.
unfoldable pub beyond_ack : (ack_num : ℕ) → List (ℕ × List ℕ) → List (ℕ × List ℕ)
beyond_ack ack_num [] = []
beyond_ack ack_num (e ∷ segments) =
    let rest = beyond_ack ack_num segments in
    if leb (u32 (e.0 + order_request_size)) ack_num then rest else e ∷ rest

-- The window, the queue and the congestion window after an acknowledgement; `on_ack` always has a
-- result.
unfoldable pub take_ack : TcpHeader → Client → Client
take_ack header c =
    let conn : TcpConnection = on_window_update c.conn header.window in
    let acked : ℕ × List Entry = ack_up_to c.retrans_q header.ack_num in
    record c {
      conn = record conn { recv_ack = header.ack_num };
      retrans_q = acked.1;
      cc = elim (on_ack c.cc (u64 (acked.0 * order_request_size))) [ none ↦ c.cc | some cc ↦ cc ];
      outstanding_segments = beyond_ack header.ack_num c.outstanding_segments;
    }

-- The order book after a request has been answered, and its counter and sample.
unfoldable pub settle : OrderRequest → (rtt_us : ℕ) → Client → Client
settle req rtt_us c =
    let s : Stats = c.stats in
    let shadow : List (ℕ × OrderRequest) = c.order_book_shadow in
    if req.action == action_new
    then record c {
      stats = record s { new_total = bump s.new_total; rtt_new = s.rtt_new ++ rtt_us ∷ [] };
      order_book_shadow = Maps.assign shadow req.client_order_id req;
    }
    else if req.action == action_cancel
    then record c {
      stats = record s {
        cancel_total = bump s.cancel_total;
        rtt_cancel = s.rtt_cancel ++ rtt_us ∷ [];
      };
      order_book_shadow = Maps.erase shadow req.target_order_id;
    }
    else record c {
      stats = record s {
        replace_total = bump s.replace_total;
        rtt_replace = s.rtt_replace ++ rtt_us ∷ [];
      };
      order_book_shadow = elim (Maps.find shadow req.target_order_id) [
        | none ↦ shadow
        | some old ↦ Maps.update shadow req.target_order_id (record old { price = req.price })
      ];
    }

-- What follows a frame that carries an acknowledgement.
unfoldable pub on_answer : (rtt_us now_ms : ℕ) → OrderRequest → TcpHeader → Client → Client
on_answer rtt_us now_ms req header c =
    let acked : Client = take_ack header c in
    let s : Stats = c.stats in
    settle req rtt_us (record acked {
      rto_estimator = sample_rtt c.rto_estimator (max 1 (rtt_us / 1000));
      stats = record s {
        rtt_us_samples = s.rtt_us_samples ++ rtt_us ∷ [];
        ack_recv_total = bump s.ack_recv_total;
      };
      tracer = (should_emit c.tracer).1;
      last_activity_ms = now_ms;
    })

-- The frame that has come; one that is not an acknowledgement stops the client. The acknowledgement's
-- payload is only compared for a message.
unfoldable pub on_parsed :
    (rtt_us now_ms : ℕ) → OrderRequest → Option (TcpHeader × List ℕ) → Client → Client
on_parsed rtt_us now_ms req none c = record c { is_running = false }
on_parsed rtt_us now_ms req (some (header, payload)) c =
    if is_malformed_header header || not (has_ack header)
    then record c { is_running = false }
    else on_answer rtt_us now_ms req header c

unfoldable pub on_ack_frame : (rtt_us now_ms : ℕ) → OrderRequest → List ℕ → Client → Client
on_ack_frame rtt_us now_ms req frame c = on_parsed rtt_us now_ms req (parse frame) c
