-- ===== src/Net/Segment.antt =====
-- kernel/src/net/tcp.rs: the header, and `parse_tcp_packet`, `calculate_checksum`,
-- `build_tcp_packet`.
pub mod Codec
use Prim.Native.Nat.{bit_and, bit_or}
use elitra_os.Base.{
  ℕ, zero, suc, ◌+◌, ◌-◌, ◌*◌, ◌/◌, ◌%◌, ◌^◌, Bool, not, Option, none, some, List, [], ◌∷◌, ◌++◌,
  length, drop, ltb, ◌==◌, if◌then◌else◌,
}
use elitra_os.Net.Wire.{
  Ip, octets, byte, be16, le16, be32, read_be16, read_le16, read_be32, overwrite, u16_mod, u32_mod,
}
use elitra_os.Net.Checksum.{add_words, fold_sum, complement}

abbrev pub flag_fin : ℕ
flag_fin = 0x0001

abbrev pub flag_syn : ℕ
flag_syn = 0x0002

abbrev pub flag_rst : ℕ
flag_rst = 0x0004

abbrev pub flag_psh : ℕ
flag_psh = 0x0008

abbrev pub flag_ack : ℕ
flag_ack = 0x0010

abbrev pub default_window : ℕ
default_window = 65535

-- `flags & flag != 0`
unfoldable pub has : ℕ → ℕ → Bool
has flags flag = not (bit_and flags flag == 0)

-- The fields as they lie in memory, read as the machine reads them except for the ports, numbers
-- and window, which every reader takes through `from_be`.
pub record TcpHeader : Type 0 where
  pub src_port : ℕ
  pub dest_port : ℕ
  pub seq_num : ℕ
  pub ack_num : ℕ
  pub data_offset_flags : ℕ
  pub window_size : ℕ

-- The header and the payload. The data offset is taken from the field without `from_be`.
unfoldable pub parse_tcp_packet : List ℕ → Option (TcpHeader × List ℕ)
parse_tcp_packet bytes =
    let header : TcpHeader = record {
      src_port = read_be16 bytes 0;
      dest_port = read_be16 bytes 2;
      seq_num = read_be32 bytes 4;
      ack_num = read_be32 bytes 8;
      data_offset_flags = read_le16 bytes 12;
      window_size = read_be16 bytes 14;
    } in
    let data_offset = read_le16 bytes 12 / 2 ^ 12 % 16 * 4 in
    if ltb (length bytes) 20
    then none
    else if ltb (length bytes) data_offset
    then none
    else some (header, drop data_offset bytes)

-- the header of 20 bytes, its checksum given as bytes
abbrev pub tcp_header : ℕ → ℕ → ℕ → ℕ → ℕ → ℕ → List ℕ → List ℕ
tcp_header src_port dest_port seq_num ack_num flags window_size checksum =
    be16 src_port
    ++ be16 dest_port
    ++ be32 seq_num
    ++ be32 ack_num
    ++ le16 (bit_or (5 * 2 ^ 12) flags)
    ++ be16 window_size
    ++ checksum
    ++ (0 ∷ 0 ∷ [])

-- The sum of the pseudo header, the header and the payload, folded and complemented.
unfoldable pub calculate_checksum : Ip → Ip → List ℕ → List ℕ → ℕ
calculate_checksum src_ip dest_ip header payload =
    let pseudo = add_words 0 (octets src_ip ++ octets dest_ip) + 6 + (20 + length payload) in
    complement (fold_sum (add_words (add_words pseudo header) payload))

-- The slice after the call, and the length returned. The checksum is stored without `to_be`.
unfoldable pub build_tcp_packet : List ℕ → Ip → Ip → ℕ → ℕ → ℕ → ℕ → ℕ → ℕ → List ℕ → List ℕ × ℕ
build_tcp_packet packet src_ip dest_ip src_port dest_port seq_num ack_num flags window_size
      payload =
    let total = 20 + length payload in
    let header = tcp_header src_port dest_port seq_num ack_num flags window_size in
    let checksum = calculate_checksum src_ip dest_ip (header (0 ∷ 0 ∷ [])) payload in
    if ltb (length packet) total
    then (packet, 0)
    else (overwrite (header (le16 checksum) ++ payload) packet, total)
