-- ===== src/Net/Segment/Codec.antt =====
-- Segments built and parsed (kernel/src/net/tcp.rs).
use Prim.Native.Nat.{bit_or}
use mathlib.Core.Option
use elitra_os.Base.{
  ℕ, ◌+◌, ◌*◌, ◌/◌, ◌%◌, ◌^◌, ◌≤◌, ◌<◌, ◌≡◌, refl, true, some, List, [], ◌∷◌, ◌++◌, length, take,
  drop, arith, ◌==◌, ==_iff,
}
use elitra_os.Base.Bits.{each_under, each_under-true}
use elitra_os.Net.Wire.{
  Ip, byte, le16, read_le16, overwrite, take-overwrite_of, u16_mod, u32_mod, AllBytes,
  AllBytes-byte,
}
use elitra_os.Net.Segment.{parse_tcp_packet, tcp_header, build_tcp_packet, calculate_checksum}

or_table : each_under (λ f. bit_or (5 * 2 ^ 12) f == 5 * 2 ^ 12 + f) 256 ≡ true
unfolding each_under
or_table = refl

-- The flags and the data offset have no bit in common.
or_flags : (f : ℕ) → f < 256 → bit_or (5 * 2 ^ 12) f ≡ 5 * 2 ^ 12 + f
or_flags f h = (==_iff _ _).0 (each_under-true _ 256 f h or_table)

build_tcp_packet_roomy :
    (packet payload : List ℕ) (src dest : Ip) (src_port dest_port seq ack flags window : ℕ)
    → 20 + length payload ≤ length packet
    → (checksum : ℕ) × (build_tcp_packet packet src dest src_port dest_port seq ack flags window
          payload
        ≡ (
          overwrite
              (tcp_header src_port dest_port seq ack flags window (le16 checksum) ++ payload)
              packet,
          20 + length payload,
        ))
unfolding build_tcp_packet
build_tcp_packet_roomy packet payload src dest src_port dest_port seq ack flags window room = (
  calculate_checksum src dest (tcp_header src_port dest_port seq ack flags window (0 ∷ 0 ∷ []))
      payload,
  ground arith,
)

-- If the slice has room and the fields are in range, with flags below 256, a segment that the
-- kernel built is parsed by the kernel to its fields and its payload.
pub parse-build_tcp_packet :
    (packet payload : List ℕ) (src dest : Ip) (src_port dest_port seq ack flags window : ℕ)
    → 20 + length payload ≤ length packet
    → src_port < u16_mod
    → dest_port < u16_mod
    → seq < u32_mod
    → ack < u32_mod
    → flags < 256
    → window < u16_mod
    → let (bytes, n) =
        build_tcp_packet packet src dest src_port dest_port seq ack flags window payload in
      parse_tcp_packet (take n bytes)
      ≡ some (
        record {
          src_port = src_port;
          dest_port = dest_port;
          seq_num = seq;
          ack_num = ack;
          data_offset_flags = 5 * 2 ^ 12 + flags;
          window_size = window;
        },
        payload,
      )
unfolding parse_tcp_packet
parse-build_tcp_packet packet payload src dest src_port dest_port seq ack flags window room hs hd hq
      ha hf hw =
    let (checksum, built) =
      build_tcp_packet_roomy packet payload src dest src_port dest_port seq ack flags window room in
    let whole = tcp_header src_port dest_port seq ack flags window (le16 checksum) ++ payload in
    rw (built, take-overwrite_of (20 + length payload) whole packet (omega arith))
      (ground (arith, or_flags flags hf))

-- Where the payload of a segment starts is read from the byte with the flags: the byte with the
-- data offset, before it, plays no part.
pub parse_tcp_packet_offset :
    (bytes : List ℕ)
    → AllBytes bytes
    → 60 ≤ length bytes
    → Option.map (λ r. r.1) (parse_tcp_packet bytes) ≡ some (drop (byte bytes 13 / 16 * 4) bytes)
unfolding parse_tcp_packet
parse_tcp_packet_offset bytes hb room =
    let h12 = AllBytes-byte bytes 12 hb in
    let h13 = AllBytes-byte bytes 13 hb in
    let e : read_le16 bytes 12 / 2 ^ 12 % 16 * 4 ≡ byte bytes 13 / 16 * 4 = omega arith in
    ground (arith, e)

-- On the wire a segment that the kernel built, in a slice with room and with flags below 256, has
-- the flags in the byte of the data offset and the data offset in the byte of the flags.
pub build_tcp_packet_swaps :
    (packet payload : List ℕ) (src dest : Ip) (src_port dest_port seq ack flags window : ℕ)
    → 20 + length payload ≤ length packet
    → flags < 256
    → let bytes =
        (build_tcp_packet packet src dest src_port dest_port seq ack flags window payload).0 in
      (byte bytes 12 ≡ flags) × (byte bytes 13 ≡ 0x50)
unfolding overwrite
build_tcp_packet_swaps packet payload src dest src_port dest_port seq ack flags window room hf =
    let (checksum, built) =
      build_tcp_packet_roomy packet payload src dest src_port dest_port seq ack flags window room in
    rw built (omega (arith, or_flags flags hf))
