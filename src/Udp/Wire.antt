-- ===== src/Udp/Wire.antt =====
-- `UdpProtocol` of include/usn/protocol/udp_protocol.hpp: datagrams as lists of bytes.
pub mod Frame
pub mod Valid
mod Tests
use usn_hft_sim.Base.{
  ℕ, ◌+◌, ◌-◌, ◌^◌, Bool, true, false, not, ◌&&◌, ◌||◌, Option, none, some, List, [], ◌∷◌, ◌++◌,
  length, get_or, set, take, drop, ltb, ◌==◌, if◌then◌else◌, u16,
}
use usn_hft_sim.Wire.Order.{byte, swap16, store16, load16}
use usn_hft_sim.Wire.Sum.{checksum}

abbrev pub header_len : ℕ
header_len = 8

pub record UdpHeader : Type 0 where
  pub source_port : ℕ
  pub dest_port : ℕ
  pub length_field : ℕ
  pub checksum : ℕ

unfoldable pub to_network_order : UdpHeader → UdpHeader
to_network_order h = record {
  source_port = swap16 h.source_port;
  dest_port = swap16 h.dest_port;
  length_field = swap16 h.length_field;
  checksum = swap16 h.checksum;
}

unfoldable pub to_host_order : UdpHeader → UdpHeader
to_host_order h = record {
  source_port = swap16 h.source_port;
  dest_port = swap16 h.dest_port;
  length_field = swap16 h.length_field;
  checksum = swap16 h.checksum;
}

-- The eight bytes of the header in memory.
abbrev pub image : UdpHeader → List ℕ
image h =
    store16 h.source_port ++ (store16 h.dest_port ++ (store16 h.length_field ++ store16 h.checksum))

-- `calculate_checksum`; the protocol word is `0x0011u`.
unfoldable pub calculate_checksum : List ℕ → (src_ip dst_ip : ℕ) → ℕ
calculate_checksum bytes src_ip dst_ip = checksum 0x0011 bytes src_ip dst_ip

unfoldable pub encapsulate :
    List ℕ → (src_port dst_port src_ip dst_ip : ℕ) → (calculate_checksum_flag : Bool) → List ℕ
unfolding to_network_order calculate_checksum
encapsulate payload src_port dst_port src_ip dst_ip calculate_checksum_flag =
    let header = to_network_order (record {
      source_port = src_port;
      dest_port = dst_port;
      length_field = u16 (header_len + length payload);
      checksum = 0;
    }) in
    let buffer = image header ++ payload in
    let sum = calculate_checksum buffer src_ip dst_ip in
    if calculate_checksum_flag && (not (src_ip == 0) && not (dst_ip == 0))
    then set (set buffer 6 (byte 1 sum)) 7 (byte 0 sum)
    else buffer

-- The header as it lies in the packet, in host order.
abbrev pub header_at : List ℕ → UdpHeader
header_at packet = record {
  source_port = load16 packet 0;
  dest_port = load16 packet 2;
  length_field = load16 packet 4;
  checksum = load16 packet 6;
}

-- The header and the payload; `none` is `false`.
unfoldable pub parse : List ℕ → Option (UdpHeader × List ℕ)
unfolding to_host_order
parse packet =
    let header = to_host_order (header_at packet) in
    if ltb (length packet) header_len
    then none
    else (if ltb header.length_field header_len || ltb (length packet) header.length_field
        then none
        else some (header, take (header.length_field - header_len) (drop header_len packet)))

unfoldable pub verify_checksum : List ℕ → (src_ip dst_ip : ℕ) → Bool
unfolding calculate_checksum
verify_checksum packet src_ip dst_ip =
    if ltb (length packet) header_len then false else calculate_checksum packet src_ip dst_ip == 0
