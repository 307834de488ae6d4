-- ===== src/Net/Udp.antt =====
-- kernel/src/net/udp.rs: datagrams.
use elitra_os.Base.{
  ℕ, ◌+◌, ◌%◌, ◌/◌, ◌<◌, ◌≤◌, ◌≡◌, ◌≢◌, List, [], ◌∷◌, ◌++◌, length, take, drop, ltb, ◌==◌,
  length-append, ap, refl, if◌then◌else◌, arith,
}
use elitra_os.Net.Wire.{
  Ip, octets, be16, le16, read_be16, overwrite, take-overwrite_of, take-append_of, u16_mod, u32_mod,
  AllBytes, Parse, parsed, refused, panics,
}
use elitra_os.Net.Checksum.{
  internet_checksum, complement, fold_sum, add_words, word_sum, word_sum-le, add_words-eq,
  fold_sum-lt, fold_sum_mod,
}

-- The pseudo header as the code fills it in. The length goes through `to_be` and is then stored
-- high byte first, so its bytes come out in the other order.
abbrev pub pseudo_header : Ip → Ip → ℕ → List ℕ
pseudo_header src_ip dst_ip n =
    octets src_ip ++ octets dst_ip ++ (0 ∷ 17 ∷ []) ++ le16 (n % u16_mod)

unfoldable pub udp_checksum : Ip → Ip → List ℕ → ℕ
udp_checksum src_ip dst_ip udp_data =
    let csum = internet_checksum (pseudo_header src_ip dst_ip (length udp_data) ++ udp_data) in
    if ltb 4096 (12 + length udp_data) then 0 else if csum == 0 then 0xffff else csum

-- The ports and the payload.
unfoldable pub parse_udp_packet : List ℕ → Parse (ℕ × ℕ × List ℕ)
parse_udp_packet bytes =
    let n = read_be16 bytes 4 in
    if ltb (length bytes) 8
    then refused
    else if ltb (length bytes) n
    then refused
    else if ltb n 8
    then panics
    else parsed (read_be16 bytes 0, read_be16 bytes 2, drop 8 (take n bytes))

abbrev pub datagram : ℕ → ℕ → List ℕ → List ℕ → List ℕ
datagram src_port dest_port checksum payload =
    be16 src_port ++ be16 dest_port ++ be16 ((8 + length payload) % u16_mod) ++ checksum ++ payload

unfoldable pub build_udp_packet : List ℕ → ℕ → ℕ → List ℕ → Ip → Ip → List ℕ × ℕ
build_udp_packet packet src_port dest_port payload src_ip dst_ip =
    let total = 8 + length payload in
    let csum = udp_checksum src_ip dst_ip (datagram src_port dest_port (0 ∷ 0 ∷ []) payload) in
    if ltb (length packet) total
    then (packet, 0)
    else (overwrite (datagram src_port dest_port (be16 csum) payload) packet, total)

build_udp_packet_roomy :
    (packet payload : List ℕ) (src_port dest_port : ℕ) (src dst : Ip)
    → 8 + length payload ≤ length packet
    → (csum : ℕ) × (csum ≡ udp_checksum src dst (datagram src_port dest_port (0 ∷ 0 ∷ []) payload))
      × (build_udp_packet packet src_port dest_port payload src dst ≡ (
        overwrite (datagram src_port dest_port (be16 csum) payload) packet,
        8 + length payload,
      ))
unfolding build_udp_packet
build_udp_packet_roomy packet payload src_port dest_port src dst room =
    (udp_checksum src dst (datagram src_port dest_port (0 ∷ 0 ∷ []) payload), refl, ground arith)

parse-datagram :
    (src_port dest_port csum : ℕ) (payload padding : List ℕ)
    → 8 + length payload < u16_mod
    → src_port < u16_mod
    → dest_port < u16_mod
    → parse_udp_packet (datagram src_port dest_port (be16 csum) payload ++ padding)
      ≡ parsed (src_port, dest_port, payload)
unfolding parse_udp_packet
parse-datagram src_port dest_port csum payload padding small hs hd =
    let whole = datagram src_port dest_port (be16 csum) payload in
    let n = read_be16 (whole ++ padding) 4 in
    let e : n ≡ 8 + length payload = omega arith in
    let prefix = take-append_of n whole padding (omega arith) in
    ground (arith, e, ap (drop 8) prefix, length-append payload padding)

-- If the slice has room, the length is below 65536 and the ports are 16-bit words, a datagram that
-- was built is parsed back to its ports and its payload, also if bytes follow it.
pub parse-build_udp_packet :
    (packet padding payload : List ℕ) (src_port dest_port : ℕ) (src dst : Ip)
    → 8 + length payload ≤ length packet
    → 8 + length payload < u16_mod
    → src_port < u16_mod
    → dest_port < u16_mod
    → let (bytes, n) = build_udp_packet packet src_port dest_port payload src dst in
      parse_udp_packet (take n bytes ++ padding) ≡ parsed (src_port, dest_port, payload)
parse-build_udp_packet packet padding payload src_port dest_port src dst room small hs hd =
    let (csum, _, built) = build_udp_packet_roomy packet payload src_port dest_port src dst room in
    let whole = datagram src_port dest_port (be16 csum) payload in
    rw (built, take-overwrite_of (8 + length payload) whole packet (omega arith))
      (parse-datagram src_port dest_port csum payload padding small hs hd)

-- what a receiver checks: the sum over the pseudo header of RFC 768 and the datagram is all ones
abbrev pub Verifies : Ip → Ip → List ℕ → Type 0
Verifies src dst bytes =
    internet_checksum (octets src ++ octets dst ++ (0 ∷ 17 ∷ []) ++ be16 (length bytes) ++ bytes)
    ≡ 0

sent_mod :
    (src dst : Ip) (zeros : List ℕ)
    → 12 + length zeros ≤ 4096
    → word_sum (pseudo_header src dst (length zeros) ++ zeros) + 65536 < u32_mod
    → ((word_sum (pseudo_header src dst (length zeros) ++ zeros) + udp_checksum src dst zeros)
          % 65535
        ≡ 0)
      × (udp_checksum src dst zeros < 65536)
unfolding udp_checksum internet_checksum complement
sent_mod src dst zeros small h =
    let summed = pseudo_header src dst (length zeros) ++ zeros in
    let s : ℕ = word_sum summed in
    let first : add_words 0 summed ≡ s = omega (arith, add_words-eq 0 summed (omega arith)) in
    rw first (
      ground (arith, fold_sum_mod s (omega arith), fold_sum-lt s (omega arith)),
      ground (arith, fold_sum-lt s (omega arith)),
    )

received :
    (r total : ℕ) → total ≡ r → r < u32_mod → complement (fold_sum total) ≡ 0 → fold_sum r ≡ 65535
unfolding complement
received r total e h v = let v' = rw e at v in omega (arith, fold_sum-lt r h)

swapped_fails :
    (src dst : Ip) (src_port dest_port : ℕ) (payload : List ℕ)
    → AllBytes (octets src)
    → AllBytes (octets dst)
    → AllBytes payload
    → 12 + (8 + length payload) ≤ 4096
    → (8 + length payload) % 256 ≢ (8 + length payload) / 256
    → let csum = udp_checksum src dst (datagram src_port dest_port (0 ∷ 0 ∷ []) payload) in
      ¬ (Verifies src dst (datagram src_port dest_port (be16 csum) payload))
unfolding udp_checksum internet_checksum complement word_sum
swapped_fails src dst src_port dest_port payload hs hd hp small ne v =
    let n = 8 + length payload in
    let zeros = datagram src_port dest_port (0 ∷ 0 ∷ []) payload in
    let summed = pseudo_header src dst (length zeros) ++ zeros in
    let s = word_sum summed in
    let csum = udp_checksum src dst zeros in
    let stored = datagram src_port dest_port (be16 csum) payload in
    let checked = octets src ++ octets dst ++ (0 ∷ 17 ∷ []) ++ be16 (length stored) ++ stored in
    let r = word_sum checked in
    let bound = word_sum-le payload hp in
    let s_small : s + 65536 < u32_mod = omega (arith, bound) in
    let csum_mod : ((s + csum) % 65535 ≡ 0) × (csum < 65536) =
      sent_mod src dst zeros (omega arith) s_small in
    let r_small : r < u32_mod = omega (arith, bound, csum_mod) in
    let folded : fold_sum r ≡ 65535 =
      received r (add_words 0 checked) (omega (arith, add_words-eq 0 checked (omega arith))) r_small
        v in
    omega (arith, csum_mod, folded, fold_sum_mod r r_small)

-- For addresses and a payload of bytes that fit the slice and the 4096 bytes of the checksum's
-- buffer, the checksum that is stored is wrong wherever the two bytes of the length differ: the sum
-- over the datagram and its pseudo header is then not the one that a receiver accepts.
pub not-Verifies-build_udp_packet :
    (packet payload : List ℕ) (src_port dest_port : ℕ) (src dst : Ip)
    → 8 + length payload ≤ length packet
    → AllBytes (octets src)
    → AllBytes (octets dst)
    → AllBytes payload
    → 12 + (8 + length payload) ≤ 4096
    → (8 + length payload) % 256 ≢ (8 + length payload) / 256
    → let (bytes, n) = build_udp_packet packet src_port dest_port payload src dst in
      ¬ (Verifies src dst (take n bytes))
not-Verifies-build_udp_packet packet payload src_port dest_port src dst room hs hd hp small ne =
    let (csum, e, built) = build_udp_packet_roomy packet payload src_port dest_port src dst room in
    let whole = datagram src_port dest_port (be16 csum) payload in
    rw (built, take-overwrite_of (8 + length payload) whole packet (omega arith), e)
      (swapped_fails src dst src_port dest_port payload hs hd hp small ne)
