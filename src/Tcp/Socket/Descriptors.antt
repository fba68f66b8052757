-- ===== src/Tcp/Socket/Descriptors.antt =====
-- No descriptor is lost.
use usn_hft_sim.Base.{ℕ, ◌≡◌, arith, none, some, List, [], ◌∷◌, ◌++◌, ◌==◌, if◌then◌else◌}
use usn_hft_sim.Tcp.Socket.{
  FdEvent, opened, closed, TcpSocket, ServerAnswers, create_server, ConnectAnswers, connect_to,
  close,
}

abbrev pub without : ℕ → List ℕ → List ℕ
without fd [] = []
without fd (x ∷ xs) = let rest = without fd xs in if x == fd then rest else x ∷ rest

-- The descriptors that are open after some events, from those open before.
abbrev pub open_after : List ℕ → List FdEvent → List ℕ
open_after fds [] = fds
open_after fds (opened fd ∷ events) = open_after (fd ∷ fds) events
open_after fds (closed fd ∷ events) = open_after (without fd fds) events

-- Those that a socket owns.
abbrev pub owned : TcpSocket → List ℕ
owned s = elim s.fd [ none ↦ [] | some fd ↦ fd ∷ [] ]

-- Whatever the system answers at each step, the descriptor that `create_server` or `connect_to` has
-- opened is either owned by the socket returned or closed again, and closing that socket leaves none.
pub no_descriptor_is_lost :
    (a : ServerAnswers) (b : ConnectAnswers)
    → (open_after [] (create_server a).1 ≡ owned (create_server a).0)
      × (open_after [] ((create_server a).1 ++ (close (create_server a).0).1) ≡ [])
      × (open_after [] (connect_to b).1 ≡ owned (connect_to b).0)
      × (open_after [] ((connect_to b).1 ++ (close (connect_to b).0).1) ≡ [])
unfolding create_server connect_to close
no_descriptor_is_lost a b = ground arith
