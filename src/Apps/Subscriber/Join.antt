-- ===== src/Apps/Subscriber/Join.antt =====
-- `create_and_join_multicast` of apps/market_udp/feed_subscriber.cpp, and which descriptors the
-- applications keep. What the system calls answer is an input.
use usn_hft_sim.Base.{
  ℕ, ◌≡◌, arith, Bool, not, Option, none, some, List, [], ◌∷◌, ◌++◌, if◌then◌else◌,
}
use usn_hft_sim.Tcp.Socket.{
  FdEvent, opened, closed, create_server, ConnectAnswers, connect_to, release,
}
use usn_hft_sim.Tcp.Socket.Descriptors.{open_after}
use usn_hft_sim.Apps.Gateway.Service.{StartAnswers, create_listen_socket, gateway_start}
use usn_hft_sim.Apps.Client.Lifecycle.{connect_to_gateway}

-- What `socket`, `bind` and the call that joins the group answer.
pub record JoinAnswers : Type 0 where
  pub fd : Option ℕ
  pub is_bound : Bool
  pub joins : Bool

-- The descriptor, and what has been opened and closed.
unfoldable pub create_and_join_multicast : JoinAnswers → Option ℕ × List FdEvent
create_and_join_multicast a = elim a.fd [
  | none ↦ (none, [])
  | some fd ↦
      if not a.is_bound
      then (none, opened fd ∷ closed fd ∷ [])
      else (if not a.joins then (none, opened fd ∷ closed fd ∷ []) else (some fd, opened fd ∷ []))
]

abbrev pub kept : Option ℕ → List ℕ
kept none = []
kept (some fd) = fd ∷ []

-- The descriptors of a gateway that has started.
abbrev pub kept_by : StartAnswers → List ℕ
kept_by a = if (gateway_start a).0 then kept a.epoll_fd ++ kept a.listening.fd else []

-- Whatever the system answers at each step, the start of the subscriber and the connecting of the client
-- leave open exactly the descriptor that they return, and the start of the gateway the listening socket
-- and the epoll set where it succeeds, and nothing where it fails.
pub starts_leak_nothing :
    (a : JoinAnswers) (b : StartAnswers) (c : ConnectAnswers)
    → (open_after [] (create_and_join_multicast a).1 ≡ kept (create_and_join_multicast a).0)
      × (open_after [] (gateway_start b).1 ≡ kept_by b)
      × (open_after [] (connect_to_gateway c).1 ≡ kept (connect_to_gateway c).0)
unfolding create_and_join_multicast gateway_start create_listen_socket connect_to_gateway
    create_server connect_to release
starts_leak_nothing a b c = ground arith
