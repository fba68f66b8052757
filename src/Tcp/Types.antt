-- ===== src/Tcp/Types.antt =====
-- `TcpState`, `TcpHeader` and `TcpConnection` of include/usn/protocol/tcp_protocol.hpp.
use usn_hft_sim.Base.{ℕ, ◌^◌, ◌<◌, Bool, not, ◌==◌, bit_and}

pub data TcpState : Type 0 where
  closed listen syn_sent syn_received established : TcpState
  fin_wait_1 fin_wait_2 close_wait closing last_ack time_wait : TcpState

-- The value of the enumerator.
abbrev pub rank : TcpState → ℕ
rank TcpState.closed = 0
rank TcpState.listen = 1
rank TcpState.syn_sent = 2
rank TcpState.syn_received = 3
rank TcpState.established = 4
rank TcpState.fin_wait_1 = 5
rank TcpState.fin_wait_2 = 6
rank TcpState.close_wait = 7
rank TcpState.closing = 8
rank TcpState.last_ack = 9
rank TcpState.time_wait = 10

-- `==` on the enumeration.
abbrev pub is : TcpState → TcpState → Bool
is a b = rank a == rank b

-- The header, each field with the number that it holds.
pub record TcpHeader : Type 0 where
  pub source_port : ℕ
  pub dest_port : ℕ
  pub seq_num : ℕ
  pub ack_num : ℕ
  pub data_offset : ℕ
  pub reserved : ℕ
  pub flags : ℕ
  pub window : ℕ
  pub checksum : ℕ
  pub urgent_ptr : ℕ

unfoldable pub has_syn : TcpHeader → Bool
has_syn h = not (bit_and h.flags 2 == 0)

unfoldable pub has_ack : TcpHeader → Bool
has_ack h = not (bit_and h.flags 16 == 0)

unfoldable pub has_fin : TcpHeader → Bool
has_fin h = not (bit_and h.flags 1 == 0)

unfoldable pub has_rst : TcpHeader → Bool
has_rst h = not (bit_and h.flags 4 == 0)

pub record TcpConnection : Type 0 where
  pub local_ip : ℕ
  pub remote_ip : ℕ
  pub local_port : ℕ
  pub remote_port : ℕ
  pub send_seq : ℕ
  pub recv_seq : ℕ
  pub send_ack : ℕ
  pub recv_ack : ℕ
  pub state : TcpState
  pub window_size : ℕ
  pub recv_window : ℕ
  pub peer_window : ℕ

-- `TcpConnection()`
abbrev pub new_connection : TcpConnection
new_connection = record {
  local_ip = 0;
  remote_ip = 0;
  local_port = 0;
  remote_port = 0;
  send_seq = 0;
  recv_seq = 0;
  send_ack = 0;
  recv_ack = 0;
  state = TcpState.closed;
  window_size = 65535;
  recv_window = 65535;
  peer_window = 65535;
}

-- Every field of the header that the state machine reads fits its width.
pub record IsHeader (h : TcpHeader) : Type 0 where
  pub seq_fits : h.seq_num < 2 ^ 32
  pub ack_fits : h.ack_num < 2 ^ 32
  pub window_fits : h.window < 2 ^ 16

-- So does every field of the connection that it writes.
pub record IsConnection (c : TcpConnection) : Type 0 where
  pub send_seq_fits : c.send_seq < 2 ^ 32
  pub recv_seq_fits : c.recv_seq < 2 ^ 32
  pub send_ack_fits : c.send_ack < 2 ^ 32
  pub recv_ack_fits : c.recv_ack < 2 ^ 32
  pub window_fits : c.window_size < 2 ^ 16
  pub peer_window_fits : c.peer_window < 2 ^ 32
