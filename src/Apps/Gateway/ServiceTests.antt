-- ===== src/Apps/Gateway/ServiceTests.antt =====
-- Two rounds of the event loop, and the starts of the applications.
use usn_hft_sim.Base.{◌≡◌, arith, true, false, some, List, [], ◌∷◌}
use usn_hft_sim.Base.Ints.{pos}
use usn_hft_sim.Core.Ring.{empty}
use usn_hft_sim.Core.Ring.Inv.{IsValid}
use usn_hft_sim.Io.Status.{UnifiedIoResult, ok}
use usn_hft_sim.Tcp.Socket.{ConnectAnswers, refused}
use usn_hft_sim.Apps.CommandLine.{gateway_defaults}
use usn_hft_sim.Apps.Gateway.{Host}
use usn_hft_sim.Apps.Gateway.Rounds.{connection, readable}
use usn_hft_sim.Apps.Gateway.Sound.{IsSound}
use usn_hft_sim.Apps.Gateway.Service.{Round, new_gateway, service, StartAnswers}
use usn_hft_sim.Apps.Gateway.Steady.{service_is_steady}
use usn_hft_sim.Apps.Subscriber.Join.{JoinAnswers}

abbrev host : Host
host = record {
  memory = λ p. 1 ∷ 2 ∷ 3 ∷ [];
  write_to = λ events fd frame. pos 44;
  must_drop = λ events. false;
  backpressure_threshold = 0;
}

abbrev work : UnifiedIoResult
work = record { count = 1; error = 0; status = ok }

-- A client connects, and sends three bytes.
abbrev rounds : List Round
rounds =
    record { host = host; result = work; ready = connection (some (6, 9101)) true ∷ [] }
    ∷ record { host = host; result = work; ready = readable 6 (pos 3) 0 4096 ∷ [] }
    ∷ []

service_is_steady_example :
    let g = (service rounds (new_gateway gateway_defaults)).1 in
    IsSound g × IsValid g.req_ring × (empty g.req_ring ≡ true)
service_is_steady_example = service_is_steady gateway_defaults rounds (omega arith)

-- The group cannot be joined, and the epoll set does not take the socket.
abbrev no_group : JoinAnswers
no_group = record { fd = some 3; is_bound = true; joins = false }

abbrev not_added : StartAnswers
not_added = record {
  listening = record { fd = some 4; is_bound = true; listens = true };
  epoll_fd = some 5;
  is_added = false;
}

-- A connection that is refused.
abbrev no_gateway : ConnectAnswers
no_gateway = record {
  fd = some 7;
  is_address = true;
  has_flags = true;
  is_nonblocking = true;
  connects = refused;
  is_ready = false;
  is_error_free = false;
}
