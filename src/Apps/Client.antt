-- ===== src/Apps/Client.antt =====
-- apps/order_tcp/order_client.cpp: the steps of the loop of `main` up to the sending of a request. The
-- clock, the random draws and the answers of the socket are inputs; the pool, the prints and the sleeps
-- are left out. A `std::unordered_map` is a list in the order of insertion, and which key its `begin()`
-- has is an input.
pub mod Answers
pub mod Lifecycle
pub mod Reconnect
pub mod Window
pub mod Settled
pub mod Loop
pub mod Waiting
pub mod Ledger
pub mod Accounts
mod Tests
mod LoopTests
use usn_hft_sim.Base.{
  ℕ, zero, suc, ◌+◌, ◌-◌, ◌*◌, ◌/◌, ◌%◌, max, Bool, true, false, not, ◌&&◌, ◌||◌, Option, none,
  some, List, [], ◌∷◌, ◌++◌, length, ltb, leb, ◌==◌, if◌then◌else◌, u32, u64,
}
use usn_hft_sim.Base.Ints.{ℤ, pos, negsuc, eagain, eintr}
use usn_hft_sim.Base.Maps
use usn_hft_sim.Core.Tracing.{Tracer, should_emit}
use usn_hft_sim.Tcp.Types.{TcpHeader, has_ack, TcpConnection}
use usn_hft_sim.Tcp.Wire.{parse, is_malformed_header, create_data}
use usn_hft_sim.Tcp.StateMachine
use usn_hft_sim.Tcp.StateMachine.{should_send_keepalive, create_keepalive, on_window_update}
use usn_hft_sim.Tcp.Retransmission
use usn_hft_sim.Tcp.Retransmission.{Entry, track_segment, ack_up_to, collect_due}
use usn_hft_sim.Tcp.Rto.{Estimator, sample_rtt}
use usn_hft_sim.Tcp.Congestion
use usn_hft_sim.Tcp.Congestion.{Controller, on_ack, on_loss}
use usn_hft_sim.Apps.Messages.{
  OrderRequest, order_request_size, order_request_bytes, action_new, action_cancel, action_replace,
  side_buy, side_sell,
}

-- The counters that are printed, and the samples in microseconds.
pub record Stats : Type 0 where
  pub req_sent_total : ℕ
  pub ack_recv_total : ℕ
  pub ack_timeout_total : ℕ
  pub send_blocked_total : ℕ
  pub retransmit_total : ℕ
  pub retransmit_failed_total : ℕ
  pub retransmit_drop_total : ℕ
  pub keepalive_sent_total : ℕ
  pub cwnd_blocked_total : ℕ
  pub congestion_loss_total : ℕ
  pub new_total : ℕ
  pub cancel_total : ℕ
  pub replace_total : ℕ
  pub rtt_us_samples : List ℕ
  pub rtt_new : List ℕ
  pub rtt_cancel : List ℕ
  pub rtt_replace : List ℕ

abbrev pub bump : ℕ → ℕ
bump n = u64 (n + 1)

-- `wrote` is every frame that has been given to the socket, oldest first.
pub record Client : Type 0 where
  pub is_running : Bool
  pub conn : TcpConnection
  pub order_id : ℕ
  pub order_book_shadow : List (ℕ × OrderRequest)
  pub retrans_q : List Entry
  pub rto_estimator : Estimator
  pub cc : Controller
  pub outstanding_segments : List (ℕ × List ℕ)
  pub last_activity_ms : ℕ
  pub tracer : Tracer
  pub stats : Stats
  pub wrote : List (List ℕ)

-- What `write` answers to a frame after the frames before it.
abbrev pub Socket : Type 0
Socket = List (List ℕ) → List ℕ → ℤ

abbrev pub wrote_all : ℤ → ℕ → Bool
wrote_all (pos n) len = n == len
wrote_all (negsuc n) len = false

unfoldable pub keepalive : Socket → (now_ms sent_ms : ℕ) → Client → Client
keepalive write_to now_ms sent_ms c =
    let frame : List ℕ = create_keepalive c.conn in
    let written : Client = record c { wrote = c.wrote ++ frame ∷ [] } in
    let s : Stats = c.stats in
    if should_send_keepalive now_ms c.last_activity_ms 1000
    then (if wrote_all (write_to c.wrote frame) (length frame)
        then record written {
          stats = record s { keepalive_sent_total = bump s.keepalive_sent_total };
          last_activity_ms = sent_ms;
        }
        else written)
    else c

-- The command line.
pub record Options : Type 0 where
  pub cancel_ratio : ℕ
  pub replace_ratio : ℕ

-- The new order with the number before the increment of `order_id`; `id` is the one after it.
unfoldable pub plain_request : (client_order_id id now_ns : ℕ) → OrderRequest
plain_request client_order_id id now_ns = record {
  client_order_id = client_order_id;
  target_order_id = 0;
  instrument_id = 10001;
  action = action_new;
  side = if id % 2 == 0 then side_buy else side_sell;
  price = u32 (100000 + u32 (id % 100));
  quantity = 1;
  send_ts_ns = now_ns;
}

-- `first` is the key of `order_book_shadow.begin()`, `none` if the map is empty; `p` is the draw.
unfoldable pub build_request :
    Options → (p : ℕ) → (first : Option ℕ) → (order_id now_ns : ℕ) → OrderRequest
build_request o p none order_id now_ns = plain_request order_id (u64 (order_id + 1)) now_ns
build_request o p (some target) order_id now_ns =
    let req : OrderRequest = plain_request order_id (u64 (order_id + 1)) now_ns in
    if leb p o.cancel_ratio
    then record req { action = action_cancel; target_order_id = target }
    else if leb p (o.cancel_ratio + o.replace_ratio)
    then record req {
      action = action_replace;
      target_order_id = target;
      price = u32 (req.price + 1);
    }
    else req

abbrev pub inflight_bytes : Client → ℕ
inflight_bytes c = u64 (length c.outstanding_segments * order_request_size)

-- The two tests before a send: whether it may go on, with the counters.
unfoldable pub may_send : Client → Bool × Client
may_send c =
    let s : Stats = c.stats in
    if not (StateMachine.can_send c.conn order_request_size)
    then (false, record c { stats = record s { send_blocked_total = bump s.send_blocked_total } })
    else if not (Congestion.can_send c.cc (inflight_bytes c) order_request_size c.conn.peer_window)
    then (false, record c { stats = record s { cwnd_blocked_total = bump s.cwnd_blocked_total } })
    else (true, c)

-- The send: whether the whole frame was taken; otherwise the client stops.
unfoldable pub send_request : Socket → (now_ms : ℕ) → OrderRequest → Client → Bool × Client
send_request write_to now_ms req c =
    let seg_seq : ℕ = c.conn.send_seq in
    let frame : List ℕ = create_data c.conn (order_request_bytes req) in
    let written : Client = record c { wrote = c.wrote ++ frame ∷ [] } in
    let s : Stats = c.stats in
    let conn : TcpConnection = c.conn in
    if wrote_all (write_to c.wrote frame) (length frame)
    then (
      true,
      record written {
        stats = record s { req_sent_total = bump s.req_sent_total };
        tracer = (should_emit c.tracer).1;
        last_activity_ms = now_ms;
        retrans_q =
            track_segment c.retrans_q seg_seq order_request_size now_ms c.rto_estimator.rto_ms;
        outstanding_segments = Maps.assign c.outstanding_segments seg_seq frame;
        conn = record conn { send_seq = u32 (c.conn.send_seq + order_request_size) };
      },
    )
    else (false, record written { is_running = false })
