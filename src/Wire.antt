-- ===== src/Wire.antt =====
-- What the TCP and the UDP frames share, on the little-endian hosts that the code is written for: the
-- byte order of <arpa/inet.h>, the memory of 16- and 32-bit numbers, and the checksum's sum.
pub mod Order
pub mod Sum
mod Tests
