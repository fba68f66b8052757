-- ===== src/Udp.antt =====
-- The UDP side: datagrams and the delivery statistics.
pub mod Feedback
pub mod Wire
pub mod Socket
