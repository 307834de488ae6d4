-- ===== src/Net/Ipv4.antt =====
-- kernel/src/net/ipv4.rs: IPv4 packets with a header of 20 bytes.
use elitra_os.Base.{
  ℕ, ◌+◌, ◌*◌, ◌%◌, ◌<◌, ◌≤◌, ◌≡◌, Option, none, some, List, [], ◌∷◌, ◌++◌, length, take, drop, ltb,
  if◌then◌else◌, arith,
}
use elitra_os.Net.Wire.{
  Ip, octets, byte, be16, le16, overwrite, take-overwrite_of, u16_mod, AllBytes,
}
use elitra_os.Net.Checksum.{
  fold_sum, complement, internet_checksum, add_words, fold_sum-lt, fold_sum_mod, fold_sum_pos,
  fold_sum-complement,
}

-- The protocol and the payload. The total length of the header is not looked at.
unfoldable pub parse_ipv4_packet : List ℕ → Option (ℕ × List ℕ)
parse_ipv4_packet bytes =
    let ihl = byte bytes 0 % 16 * 4 in
    if ltb (length bytes) 20
    then none
    else if ltb (length bytes) ihl
    then none
    else some (byte bytes 9, drop ihl bytes)

-- the header before its checksum is stored, over the two bytes that stood in its place
abbrev pub ipv4_header : List ℕ → Ip → Ip → ℕ → ℕ → List ℕ
ipv4_header old src_ip dest_ip protocol total =
    (0x45 ∷ 0 ∷ [])
    ++ be16 (total % u16_mod)
    ++ be16 0
    ++ be16 0
    ++ (64 ∷ protocol ∷ [])
    ++ old
    ++ octets src_ip
    ++ octets dest_ip

-- `for &word in header_words { sum += word }`: the words as the machine reads them
unfoldable pub add_native_words : ℕ → List ℕ → ℕ
add_native_words sum [] = sum
add_native_words sum (x ∷ []) = sum
add_native_words sum (x ∷ y ∷ rest) = add_native_words (sum + (x + y * 256)) rest

unfoldable pub build_ipv4_packet : List ℕ → Ip → Ip → ℕ → List ℕ → List ℕ × ℕ
build_ipv4_packet packet src_ip dest_ip protocol payload =
    let total = 20 + length payload in
    let old = byte packet 10 ∷ byte packet 11 ∷ [] in
    let sum = add_native_words 0 (ipv4_header old src_ip dest_ip protocol total) in
    let checksum = le16 (complement (fold_sum sum)) in
    if ltb (length packet) total
    then (packet, 0)
    else (overwrite (ipv4_header checksum src_ip dest_ip protocol total ++ payload) packet, total)

header_checks :
    (src dest : Ip) (protocol total : ℕ)
    → AllBytes (octets src)
    → AllBytes (octets dest)
    → protocol < 256
    → let sum = add_native_words 0 (ipv4_header (0 ∷ 0 ∷ []) src dest protocol total) in
      internet_checksum (ipv4_header (le16 (complement (fold_sum sum))) src dest protocol total) ≡ 0
unfolding add_native_words internet_checksum add_words complement
header_checks src dest protocol total hs hd hp =
    let s : ℕ = add_native_words 0 (ipv4_header (0 ∷ 0 ∷ []) src dest protocol total) in
    let c : ℕ = complement (fold_sum s) in
    let b : ℕ = add_words 0 (ipv4_header (le16 c) src dest protocol total) in
    let ones = fold_sum-complement s (omega arith) in
    let lt = fold_sum-lt s (omega arith) in
    let native = fold_sum_mod (s + c) (omega arith) in
    omega (
      arith,
      fold_sum_mod b (omega arith),
      fold_sum_pos b (omega arith) (omega arith),
      fold_sum-lt b (omega arith),
    )

-- If the slice has room and held zeros in the place of the checksum, and addresses and protocol are
-- bytes, a packet that was built, with further bytes behind it, is parsed to its protocol and to
-- its payload followed by those bytes, and the checksum of its header is valid.
pub parse-build_ipv4_packet :
    (packet padding payload : List ℕ) (src dest : Ip) (protocol : ℕ)
    → 20 + length payload ≤ length packet
    → byte packet 10 ≡ 0
    → byte packet 11 ≡ 0
    → AllBytes (octets src)
    → AllBytes (octets dest)
    → protocol < 256
    → let (bytes, n) = build_ipv4_packet packet src dest protocol payload in
      (parse_ipv4_packet (take n bytes ++ padding) ≡ some (protocol, payload ++ padding))
      × (internet_checksum (take 20 bytes) ≡ 0)
unfolding build_ipv4_packet parse_ipv4_packet overwrite
parse-build_ipv4_packet packet padding payload src dest protocol room z0 z1 hs hd hp =
    let total = 20 + length payload in
    let sum = add_native_words 0 (ipv4_header (0 ∷ 0 ∷ []) src dest protocol total) in
    let whole = ipv4_header (le16 (complement (fold_sum sum))) src dest protocol total ++ payload in
    let e = take-overwrite_of total whole packet (omega arith) in
    (
      rw (z0, z1) (ground (arith, e)),
      rw (z0, z1) (ground (arith, header_checks src dest protocol total hs hd hp)),
    )
