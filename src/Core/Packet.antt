-- ===== src/Core/Packet.antt =====
-- `Packet` of include/usn/core/packet.hpp. A pointer is a number, and 0 is `nullptr`.
use usn_hft_sim.Base.{ℕ, Bool, ltb, not, ◌&&◌, ◌==◌}

pub record Packet : Type 0 where
  pub ptr : ℕ
  pub len : ℕ
  pub timestamp : ℕ
  pub port : ℕ
  pub flags : ℕ

abbrev pub null : ℕ
null = 0

-- `Packet()`
abbrev pub blank : Packet
blank = record { ptr = null; len = 0; timestamp = 0; port = 0; flags = 0 }

-- `Packet(d, l, ts)`
abbrev pub of_buffer : ℕ → ℕ → ℕ → Packet
of_buffer d l ts = record { ptr = d; len = l; timestamp = ts; port = 0; flags = 0 }

unfoldable pub reset : Packet → Packet
reset p = record p { ptr = null; len = 0; timestamp = 0; port = 0; flags = 0 }

unfoldable pub is_valid : Packet → Bool
is_valid p = not (p.ptr == null) && ltb 0 p.len
