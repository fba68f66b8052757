-- ===== src/Tcp.antt =====
-- include/usn/protocol/tcp_*.hpp: connections and headers, the state machine, retransmission, the
-- round-trip estimator, congestion control, reassembly, and the frames on the wire.
pub mod Types
pub mod StateMachine
pub mod Retransmission
pub mod Rto
pub mod Congestion
pub mod Reassembly
pub mod Wire
pub mod Socket
