-- ===== src/Tcp/Wire.antt =====
-- `TcpProtocol` of include/usn/protocol/tcp_protocol.hpp: frames as lists of bytes, on a little-endian
-- host with GCC's layout of the packed header: `data_offset` and `reserved` in byte 12, `flags` in
-- bytes 13 and 14, `window` in 15 and 16, `checksum` in 17 and 18, `urgent_ptr` in 19 and 20.
pub mod Frame
pub mod ReadBack
pub mod Validity
mod Tests
use usn_hft_sim.Base.{
  ℕ, ◌+◌, ◌-◌, ◌*◌, ◌/◌, ◌%◌, ◌^◌, Bool, true, false, not, ◌&&◌, ◌||◌, Option, none, some, List, [],
  ◌∷◌, ◌++◌, length, get_or, set, take, drop, ltb, ◌==◌, if◌then◌else◌, u8, bit_and, bit_or, ◌<<<◌,
  ◌>>>◌,
}
use usn_hft_sim.Wire.Order.{byte, swap16, swap32, store16, store32, load16, load32}
use usn_hft_sim.Wire.Sum.{checksum}
use usn_hft_sim.Tcp.Types.{TcpHeader, has_syn, has_fin, TcpConnection}

abbrev pub header_len : ℕ
header_len = 20

-- `flags` is not converted.
unfoldable pub to_network_order : TcpHeader → TcpHeader
to_network_order h = record h {
  source_port = swap16 h.source_port;
  dest_port = swap16 h.dest_port;
  seq_num = swap32 h.seq_num;
  ack_num = swap32 h.ack_num;
  window = swap16 h.window;
  checksum = swap16 h.checksum;
  urgent_ptr = swap16 h.urgent_ptr;
}

unfoldable pub to_host_order : TcpHeader → TcpHeader
to_host_order h = record h {
  source_port = swap16 h.source_port;
  dest_port = swap16 h.dest_port;
  seq_num = swap32 h.seq_num;
  ack_num = swap32 h.ack_num;
  window = swap16 h.window;
  checksum = swap16 h.checksum;
  urgent_ptr = swap16 h.urgent_ptr;
}

-- The 21 bytes of the header in memory.
abbrev pub image : TcpHeader → List ℕ
image h =
    store16 h.source_port
    ++ (store16 h.dest_port
        ++ (store32 h.seq_num
            ++ (store32 h.ack_num
                ++ ((h.data_offset + 2 ^ 4 * h.reserved)
                    ∷ (store16 h.flags
                        ++ (store16 h.window ++ (store16 h.checksum ++ store16 h.urgent_ptr)))))))

-- `calculate_checksum`; the protocol word is `0x0006u`.
unfoldable pub calculate_checksum : List ℕ → (src_ip dst_ip : ℕ) → ℕ
calculate_checksum bytes src_ip dst_ip = checksum 0x0006 bytes src_ip dst_ip

-- What every `create_` function does with its header: twelve bytes of the image, two bytes by hand,
-- six bytes of the image from 14 on, the payload, and the checksum into bytes 16 and 17. Each byte of
-- the frame is written, so what the buffer held before is of no account.
unfoldable pub emit : TcpHeader → List ℕ → (src_ip dst_ip : ℕ) → List ℕ
unfolding to_network_order calculate_checksum
emit header payload src_ip dst_ip =
    let h = to_network_order header in
    let byte_12 = bit_or (u8 (h.data_offset <<< 4)) (bit_and (h.flags >>> 8) 0xf) in
    let byte_13 = bit_and h.flags 0xff in
    let buffer =
      take 12 (image h) ++ (byte_12 ∷ byte_13 ∷ (take 6 (drop 14 (image h)) ++ payload)) in
    let sum = calculate_checksum buffer src_ip dst_ip in
    set (set buffer 16 (byte 1 sum)) 17 (byte 0 sum)

-- A header cleared by `memset`, with the fields that the functions set.
abbrev pub header_of : (source dest seq ack flags window : ℕ) → TcpHeader
header_of source dest seq ack flags window = record {
  source_port = source;
  dest_port = dest;
  seq_num = seq;
  ack_num = ack;
  data_offset = 5;
  reserved = 0;
  flags = flags;
  window = window;
  checksum = 0;
  urgent_ptr = 0;
}

unfoldable pub create_syn : (src_port dst_port src_ip dst_ip seq_num : ℕ) → List ℕ
unfolding emit
create_syn src_port dst_port src_ip dst_ip seq_num =
    emit (header_of src_port dst_port seq_num 0 2 65535) [] src_ip dst_ip

unfoldable pub create_syn_ack : TcpConnection → (seq_num ack_num : ℕ) → List ℕ
unfolding emit
create_syn_ack c seq_num ack_num =
    emit (header_of c.local_port c.remote_port seq_num ack_num (bit_or 2 16) c.window_size) []
      c.local_ip c.remote_ip

unfoldable pub create_ack : TcpConnection → (ack_num : ℕ) → List ℕ
unfolding emit
create_ack c ack_num =
    emit (header_of c.local_port c.remote_port c.send_seq ack_num 16 c.window_size) [] c.local_ip
      c.remote_ip

unfoldable pub create_data : TcpConnection → List ℕ → List ℕ
unfolding emit
create_data c payload =
    emit (header_of c.local_port c.remote_port c.send_seq c.recv_seq (bit_or 16 8) c.window_size)
      payload c.local_ip c.remote_ip

unfoldable pub create_fin : TcpConnection → List ℕ
unfolding emit
create_fin c =
    emit (header_of c.local_port c.remote_port c.send_seq c.recv_seq (bit_or 1 16) c.window_size) []
      c.local_ip c.remote_ip

-- The header's memory after `parse` has copied 12 and then 6 bytes into the cleared 21.
abbrev pub copied : List ℕ → List ℕ
copied packet = take 12 packet ++ (0 ∷ 0 ∷ (take 6 (drop 14 packet) ++ 0 ∷ []))

-- The header, in host order, and the payload; `none` is `false`.
unfoldable pub parse : List ℕ → Option (TcpHeader × List ℕ)
unfolding to_host_order
parse packet =
    let memory = copied packet in
    let data_offset_byte = get_or packet 12 0 in
    let header : TcpHeader = to_host_order (record {
      source_port = load16 memory 0;
      dest_port = load16 memory 2;
      seq_num = load32 memory 4;
      ack_num = load32 memory 8;
      data_offset = bit_and (data_offset_byte >>> 4) 0xf;
      reserved = 0;
      flags = bit_or (bit_and data_offset_byte 0xf <<< 8) (get_or packet 13 0);
      window = load16 memory 15;
      checksum = load16 memory 17;
      urgent_ptr = load16 memory 19;
    }) in
    let header_bytes = header.data_offset * 4 in
    if ltb (length packet) header_len
    then none
    else (if ltb header_bytes header_len || ltb (length packet) header_bytes
        then none
        else some (header, drop header_bytes packet))

unfoldable pub validate_checksum : List ℕ → (src_ip dst_ip : ℕ) → Bool
unfolding calculate_checksum
validate_checksum packet src_ip dst_ip =
    let stored = swap16 (load16 packet 16) in
    let cleared = set (set packet 16 0) 17 0 in
    if ltb (length packet) header_len
    then false
    else stored == calculate_checksum cleared src_ip dst_ip

unfoldable pub is_malformed_header : TcpHeader → Bool
is_malformed_header h = ltb h.data_offset 5 || has_syn h && has_fin h

unfoldable pub parse_and_validate : List ℕ → (src_ip dst_ip : ℕ) → Option (TcpHeader × List ℕ)
unfolding parse is_malformed_header validate_checksum
parse_and_validate packet src_ip dst_ip = elim (parse packet) [
  | none ↦ none
  | some (h, payload) ↦
      if is_malformed_header h
      then none
      else if validate_checksum packet src_ip dst_ip
      then some (h, payload)
      else none
]
