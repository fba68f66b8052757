-- ===== src/Tcp/Socket.antt =====
-- `TcpSocket` of include/usn/protocol/tcp_socket.hpp. What each system call answers is an input; a
-- descriptor is a number, and -1 is `none`. The socket options, which cannot fail the call, are left out.
pub mod Descriptors
mod Tests
use usn_hft_sim.Base.{
  ℕ, Bool, true, false, not, Option, none, some, List, [], ◌∷◌, ◌++◌, if◌then◌else◌,
}
use usn_hft_sim.Base.Ints.{ebadf}

-- A descriptor that the system hands out or takes back.
pub data FdEvent : Type 0 where
  opened : ℕ → FdEvent
  closed : ℕ → FdEvent

pub record TcpSocket : Type 0 where
  pub fd : Option ℕ

-- What `socket`, `bind` and `listen` answer.
pub record ServerAnswers : Type 0 where
  pub fd : Option ℕ
  pub is_bound : Bool
  pub listens : Bool

unfoldable pub create_server : ServerAnswers → TcpSocket × List FdEvent
create_server a = elim a.fd [
  | none ↦ (record { fd = none }, [])
  | some fd ↦
      if not a.is_bound
      then (record { fd = none }, opened fd ∷ closed fd ∷ [])
      else (if not a.listens
          then (record { fd = none }, opened fd ∷ closed fd ∷ [])
          else (record { fd = some fd }, opened fd ∷ []))
]

-- What `connect` answers on a socket that does not block.
pub data ConnectAnswer : Type 0 where
  connected in_progress refused : ConnectAnswer

-- What the calls of `connect_to` answer, in order; the last two are `poll` and `SO_ERROR`.
pub record ConnectAnswers : Type 0 where
  pub fd : Option ℕ
  pub is_address : Bool
  pub has_flags : Bool
  pub is_nonblocking : Bool
  pub connects : ConnectAnswer
  pub is_ready : Bool
  pub is_error_free : Bool

-- Whether the calls after `socket` all succeed.
unfoldable pub connection_made : ConnectAnswers → Bool
connection_made a =
    if not a.is_address
    then false
    else (if not a.has_flags
        then false
        else (if not a.is_nonblocking then false else elim a.connects [
          | refused ↦ false
          | connected ↦ true
          | in_progress ↦ if not a.is_ready then false else a.is_error_free
        ]))

unfoldable pub connect_to : ConnectAnswers → TcpSocket × List FdEvent
connect_to a = elim a.fd [
  | none ↦ (record { fd = none }, [])
  | some fd ↦
      if connection_made a
      then (record { fd = some fd }, opened fd ∷ [])
      else (record { fd = none }, opened fd ∷ closed fd ∷ [])
]

unfoldable pub close : TcpSocket → TcpSocket × List FdEvent
close s = elim s.fd [ none ↦ (s, []) | some fd ↦ (record { fd = none }, closed fd ∷ []) ]

-- The move assignment of another socket: this one, the other, and what is closed.
unfoldable pub move_assign : TcpSocket → (other : TcpSocket) → TcpSocket × TcpSocket × List FdEvent
move_assign s other = (other, record { fd = none }, (close s).1)

-- `release`: the descriptor goes to the caller.
unfoldable pub release : TcpSocket → Option ℕ × TcpSocket
release s = (s.fd, record { fd = none })

unfoldable pub is_open : TcpSocket → Bool
is_open s = elim s.fd [ none ↦ false | some fd ↦ true ]

-- What a call on a descriptor returns: what the system answers, or `EBADF` without asking.
pub data IoResult : Type 0 where
  answered : ℕ → IoResult
  failed : (errno : ℕ) → IoResult

-- `accept`, `read` and `write`, and their forms that take a descriptor: `ask` is the system call.
unfoldable pub on_descriptor : Option ℕ → (ask : ℕ → IoResult) → IoResult
on_descriptor none ask = failed ebadf
on_descriptor (some fd) ask = ask fd
