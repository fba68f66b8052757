-- ===== src/Udp/Socket.antt =====
-- `UdpSocket` of include/usn/protocol/udp_socket.hpp, with what the system answers as inputs.
use usn_hft_sim.Base.{ℕ, Bool, true, false, not, Option, none, some, List, if◌then◌else◌}
use usn_hft_sim.Base.Ints.{ℤ, pos, negsuc, is_negative, ebadf}
use usn_hft_sim.Core.Packet.{Packet}
use usn_hft_sim.Core.Ring.{PacketRing}
use usn_hft_sim.Io.Batch
use usn_hft_sim.Io.Batch.{BatchIoResult, BatchIoOptions, World}
use usn_hft_sim.Io.Status.{UnifiedIoStatus, UnifiedIoResult, of_batch}

pub record UdpSocket : Type 0 where
  pub fd : Option ℕ
  pub is_bound : Bool

abbrev pub fresh : UdpSocket
fresh = record { fd = none; is_bound = false }

-- With what `socket` answers. An open descriptor is overwritten.
unfoldable pub create : Option ℕ → UdpSocket → Bool × UdpSocket
create none s = (false, record s { fd = none })
create (some fd) s = (true, record s { fd = some fd })

-- `bind`: what `socket`, `inet_aton` and `bind` answer; the second is `true` for no address.
unfoldable pub bind : (opens : Option ℕ) → (is_address binds : Bool) → UdpSocket → Bool × UdpSocket
bind opens is_address binds s =
    let made : Bool × UdpSocket = elim s.fd [ some fd ↦ (true, s) | none ↦ create opens s ] in
    if not made.0
    then (false, made.1)
    else (if not is_address
        then (false, made.1)
        else (if not binds then (false, made.1) else (true, record made.1 { is_bound = true })))

unfoldable pub close : UdpSocket → UdpSocket
close s = elim s.fd [ none ↦ s | some fd ↦ fresh ]

abbrev pub default_options : BatchIoOptions
default_options = record { timeout_ms = pos 0; poll_interval_ms = pos 1 }

abbrev pub bad_descriptor : BatchIoResult
bad_descriptor = record { count = 0; error = ebadf; status = Batch.BatchIoStatus.sys_error }

-- `recv_batch`; the buffers are those of a `BatchRecv` that lives as long as the call. `none` while
-- its loop is running.
unfoldable pub recv_batch :
    (address : ℕ → ℕ)
    → UdpSocket
    → (max_packets : ℕ) → World
    → PacketRing
    → Option (BatchIoResult × PacketRing)
recv_batch address s max_packets w ring = elim s.fd [
  | none ↦ some (bad_descriptor, ring)
  | some fd ↦ Batch.recv_batch address default_options max_packets w ring
]

unfoldable pub recv_batch_unified :
    (address : ℕ → ℕ)
    → UdpSocket
    → BatchIoOptions
    → (max_packets : ℕ) → World
    → PacketRing
    → Option (UnifiedIoResult × PacketRing)
recv_batch_unified address s options max_packets w ring = elim s.fd [
  | none ↦ some (record { count = 0; error = ebadf; status = UnifiedIoStatus.sys_error }, ring)
  | some fd ↦ elim (Batch.recv_batch address options max_packets w ring) [
    | none ↦ none
    | some (result, filled) ↦ some (of_batch result, filled)
  ]
]

unfoldable pub send_batch : UdpSocket → World → List Packet → Option BatchIoResult
send_batch s w packets = elim s.fd [
  | none ↦ some bad_descriptor
  | some fd ↦ Batch.send_batch default_options w packets
]

unfoldable pub send_batch_unified :
    UdpSocket → BatchIoOptions → World → List Packet → Option UnifiedIoResult
send_batch_unified s options w packets = elim s.fd [
  | none ↦ some (record { count = 0; error = ebadf; status = UnifiedIoStatus.sys_error })
  | some fd ↦ elim (Batch.send_batch options w packets) [
    | none ↦ none
    | some result ↦ some (of_batch result)
  ]
]

-- `sendto`: what `socket`, `inet_aton` and `sendto` answer, the last for the descriptor.
unfoldable pub sendto :
    (opens : Option ℕ) → (is_address : Bool) → (sends : ℕ → ℤ) → UdpSocket → ℤ × UdpSocket
sendto opens is_address sends s =
    let made : Bool × UdpSocket = elim s.fd [ some fd ↦ (true, s) | none ↦ create opens s ] in
    elim (made.1.fd) [
      | none ↦ (negsuc 0, made.1)
      | some fd ↦ if not is_address then (negsuc 0, made.1) else (sends fd, made.1)
    ]

-- What `recvfrom` of the system leaves: its answer, and the sender's address and port.
pub record Datagram : Type 0 where
  pub answer : ℤ
  pub ip : List ℕ
  pub port : ℕ

-- `recvfrom`: what it returns, and what it writes to the address and the port, where they are asked for.
unfoldable pub recvfrom :
    (from : ℕ → Datagram)
    → (wants_ip wants_port : Bool) → UdpSocket
    → ℤ × Option (List ℕ) × Option ℕ
recvfrom from wants_ip wants_port s = elim s.fd [
  | none ↦ (negsuc 0, none, none)
  | some fd ↦
      let d : Datagram = from fd in
      if is_negative d.answer then (d.answer, none, none) else (
        d.answer,
        (if wants_ip then some d.ip else none),
        (if wants_port then some d.port else none),
      )
]
