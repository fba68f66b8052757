-- ===== src/Io.antt =====
-- include/usn/io: the loops around the calls of the operating system.
pub mod BusyPoll
pub mod Batch
pub mod Epoll
pub mod Uring
pub mod Status
