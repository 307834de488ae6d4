-- ===== src/Net/Arp.antt =====
-- kernel/src/net/arp.rs: address resolution packets. The builders write the header with no look at
-- the length of the slice; the model is of slices that hold it.
use elitra_os.Base.{
  ℕ, ◌<◌, ◌≡◌, Option, none, some, List, [], ◌∷◌, ◌++◌, length, ltb, if◌then◌else◌, arith,
}
use elitra_os.Net.Wire.{Ip, octets, Mac, mac_bytes, byte, be16, read_be16, overwrite}

abbrev pub op_request : ℕ
op_request = 1

abbrev pub op_reply : ℕ
op_reply = 2

-- The opcode, and the hardware and protocol address of the sender.
unfoldable pub parse_arp_packet : List ℕ → Option (ℕ × Mac × Ip)
parse_arp_packet bytes =
    let mac : Mac = record {
      a = byte bytes 8;
      b = byte bytes 9;
      c = byte bytes 10;
      d = byte bytes 11;
      e = byte bytes 12;
      f = byte bytes 13;
    } in
    let ip : Ip = record {
      a = byte bytes 14;
      b = byte bytes 15;
      c = byte bytes 16;
      d = byte bytes 17;
    } in
    if ltb (length bytes) 28 then none else some (read_be16 bytes 6, mac, ip)

-- the header that both builders write
abbrev pub arp_header : ℕ → Mac → Ip → Mac → Ip → List ℕ
arp_header opcode sender_mac sender_ip target_mac target_ip =
    be16 1
    ++ be16 0x0800
    ++ (6 ∷ 4 ∷ [])
    ++ be16 opcode
    ++ mac_bytes sender_mac
    ++ octets sender_ip
    ++ mac_bytes target_mac
    ++ octets target_ip

unfoldable pub build_arp_request : List ℕ → Mac → Ip → Ip → List ℕ
build_arp_request packet src_mac src_ip target_ip =
    let unknown : Mac = record { a = 0; b = 0; c = 0; d = 0; e = 0; f = 0 } in
    overwrite (arp_header op_request src_mac src_ip unknown target_ip) packet

unfoldable pub build_arp_reply : List ℕ → Mac → Ip → Mac → Ip → List ℕ
build_arp_reply packet src_mac src_ip target_mac target_ip =
    overwrite (arp_header op_reply src_mac src_ip target_mac target_ip) packet

parse-arp_header :
    (packet : List ℕ) (opcode : ℕ) (mac target_mac : Mac) (ip target_ip : Ip)
    → opcode < 256
    → parse_arp_packet (overwrite (arp_header opcode mac ip target_mac target_ip) packet)
      ≡ some (opcode, mac, ip)
unfolding parse_arp_packet overwrite
parse-arp_header packet opcode mac target_mac ip target_ip small = ground arith

-- A request and a reply are read back as what they are, with their sender, also where the slice
-- goes on behind the packet.
pub parse-build_arp :
    (packet : List ℕ) (mac target_mac : Mac) (ip target_ip : Ip)
    → (parse_arp_packet (build_arp_request packet mac ip target_ip) ≡ some (op_request, mac, ip))
      × (parse_arp_packet (build_arp_reply packet mac ip target_mac target_ip)
          ≡ some (op_reply, mac, ip))
unfolding build_arp_request build_arp_reply
parse-build_arp packet mac target_mac ip target_ip = (
  parse-arp_header packet op_request mac _ ip target_ip (omega arith),
  parse-arp_header packet op_reply mac target_mac ip target_ip (omega arith),
)
