-- ===== src/Core.antt =====
-- include/usn/core: packets, the packet ring, the queue of many producers, the memory pools, tracing.
pub mod Capacity
pub mod Packet
pub mod Queue
pub mod Ring
pub mod Pool
pub mod ZeroCopy
pub mod Numa
pub mod Tracing
pub mod Mpsc
