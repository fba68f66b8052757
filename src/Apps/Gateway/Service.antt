-- ===== src/Apps/Gateway/Service.antt =====
-- `main` of apps/order_tcp/order_gateway.cpp behind the command line: the start, and the event loop.
use usn_hft_sim.Base.{
  ℕ, max, Bool, true, false, Option, none, some, List, [], ◌∷◌, ◌++◌, ltb, if◌then◌else◌,
}
use usn_hft_sim.Core.Ring.{make}
use usn_hft_sim.Io.Status.{UnifiedIoResult}
use usn_hft_sim.Tcp.Socket.{ServerAnswers, create_server, FdEvent, opened, closed, release}
use usn_hft_sim.Apps.CommandLine.{GatewayOptions}
use usn_hft_sim.Apps.Gateway.{Metrics, Gateway, Host}
use usn_hft_sim.Apps.Gateway.Rounds.{Ready, serve}

abbrev no_metrics : Metrics
no_metrics = record {
  req_recv_total = 0;
  ack_sent_total = 0;
  reject_total = 0;
  backpressure_hits = 0;
  reorder_buffered_total = 0;
  reorder_replayed_total = 0;
  reorder_hole_events = 0;
  reorder_hole_peak = 0;
  reorder_hole_bytes_peak = 0;
  accept_failures = 0;
  unexpected_disconnects = 0;
  keepalive_recv_total = 0;
  active_conn_peak = 0;
}

unfoldable pub new_gateway : GatewayOptions → Gateway
new_gateway o = record {
  conn_ctx = [];
  live_orders = [];
  req_ring = make 64;
  tracer = record {
    enabled = ltb 0 o.trace_every;
    sample_every = max 1 o.trace_every;
    counter = 0;
  };
  metrics = no_metrics;
  events = [];
}

-- The listening socket, handed over by its owner.
unfoldable pub create_listen_socket : ServerAnswers → Option ℕ × List FdEvent
create_listen_socket a = let (socket, events) = create_server a in ((release socket).0, events)

-- What the system answers at the start: to the calls of `create_server`, to `epoll_create1` with its
-- descriptor, and to the call that adds the listening socket.
pub record StartAnswers : Type 0 where
  pub listening : ServerAnswers
  pub epoll_fd : Option ℕ
  pub is_added : Bool

-- A round of the event loop: the result of the wait, and what the system gives in it.
pub record Round : Type 0 where
  pub host : Host
  pub result : UnifiedIoResult
  pub ready : List Ready

-- The event loop, as far as there are rounds: whether it still runs.
unfoldable pub service : List Round → Gateway → Bool × Gateway
service [] g = (true, g)
service (r ∷ rounds) g =
    let (goes_on, g') = serve r.host r.result r.ready g in
    let rest = service rounds g' in if goes_on then rest else (false, g')

-- The descriptors that the start opens and closes, and whether it succeeds: the wrapper closes its own
-- at its end.
unfoldable pub gateway_start : StartAnswers → Bool × List FdEvent
gateway_start a =
    let (listening, opened_first) = create_listen_socket a.listening in
    elim listening [
      | none ↦ (false, opened_first)
      | some listen_fd ↦ elim a.epoll_fd [
        | none ↦ (false, opened_first ++ closed listen_fd ∷ [])
        | some epoll_fd ↦
            if a.is_added
            then (true, opened_first ++ opened epoll_fd ∷ [])
            else (false, opened_first ++ opened epoll_fd ∷ closed listen_fd ∷ closed epoll_fd ∷ [])
      ]
    ]

-- `main`: the gateway at the end of the rounds, if the start succeeds.
unfoldable pub gateway_main : GatewayOptions → StartAnswers → List Round → Option (Bool × Gateway)
gateway_main o a rounds =
    if (gateway_start a).0 then some (service rounds (new_gateway o)) else none
