-- ===== src/Net/Icmp.antt =====
-- kernel/src/net/icmp.rs: echo requests and replies.
use elitra_os.Base.{
  ℕ, ◌+◌, ◌<◌, ◌≤◌, ◌≡◌, Option, none, some, List, [], ◌∷◌, ◌++◌, length, take, drop, ltb,
  if◌then◌else◌, arith,
}
use elitra_os.Net.Wire.{
  byte, be16, read_be16, overwrite, take-overwrite_of, u16_mod, u32_mod, AllBytes,
}
use elitra_os.Net.Checksum.{
  internet_checksum, complement, fold_sum, add_words, word_sum, word_sum-le, add_words-eq,
  fold_sum-lt, fold_sum-complement,
}

abbrev pub icmp_echo_request : ℕ
icmp_echo_request = 8

abbrev pub icmp_echo_reply : ℕ
icmp_echo_reply = 0

-- The type, the identifier, the sequence number and the payload.
unfoldable pub parse_icmp_packet : List ℕ → Option (ℕ × ℕ × ℕ × List ℕ)
parse_icmp_packet bytes =
    if ltb (length bytes) 8
    then none
    else some (byte bytes 0, read_be16 bytes 4, read_be16 bytes 6, drop 8 bytes)

abbrev pub icmp_message : ℕ → List ℕ → ℕ → ℕ → List ℕ → List ℕ
icmp_message type checksum id seq payload =
    (type ∷ 0 ∷ []) ++ checksum ++ be16 id ++ be16 seq ++ payload

-- what the two builders share: all but the type
unfoldable pub build_icmp : ℕ → List ℕ → ℕ → ℕ → List ℕ → List ℕ × ℕ
build_icmp type packet id seq payload =
    let total = 8 + length payload in
    let checksum = internet_checksum (icmp_message type (0 ∷ 0 ∷ []) id seq payload) in
    if ltb (length packet) total
    then (packet, 0)
    else (overwrite (icmp_message type (be16 checksum) id seq payload) packet, total)

unfoldable pub build_icmp_echo_request : List ℕ → ℕ → ℕ → List ℕ → List ℕ × ℕ
unfolding build_icmp
build_icmp_echo_request packet id seq payload = build_icmp icmp_echo_request packet id seq payload

unfoldable pub build_icmp_reply : List ℕ → ℕ → ℕ → List ℕ → List ℕ × ℕ
unfolding build_icmp
build_icmp_reply packet id seq payload = build_icmp icmp_echo_reply packet id seq payload

-- The stored checksum makes the whole message sum up to all ones.
icmp_message_checks :
    (type id seq : ℕ) (payload : List ℕ)
    → type < 256
    → AllBytes payload
    → 8 + length payload < 65535
    → internet_checksum (
        icmp_message type
          (be16 (internet_checksum (icmp_message type (0 ∷ 0 ∷ []) id seq payload)))
          id
          seq
          payload)
      ≡ 0
unfolding internet_checksum complement word_sum
icmp_message_checks type id seq payload ht hp small =
    let zeros = icmp_message type (0 ∷ 0 ∷ []) id seq payload in
    let s = word_sum zeros in
    let bound : word_sum zeros + 65536 < u32_mod = omega (arith, word_sum-le payload hp) in
    let c = complement (fold_sum s) in
    let first : add_words 0 zeros ≡ s = omega (arith, add_words-eq 0 zeros (omega arith)) in
    let stored = icmp_message type (be16 c) id seq payload in
    let second : add_words 0 stored ≡ s + c =
      omega (arith, add_words-eq 0 stored (omega arith), fold_sum-lt s (omega arith)) in
    rw first (rw second (omega (arith, fold_sum-complement s (omega arith))))

-- For either type of message, an identifier and a sequence number of 16 bits, and a payload of
-- bytes that fits the slice and with the header stays below 65535 bytes, a message that was built
-- is parsed back, and the receiver's checksum over it is 0.
pub parse-build_icmp :
    (type id seq : ℕ) (packet payload : List ℕ)
    → type < 256
    → id < u16_mod
    → seq < u16_mod
    → AllBytes payload
    → 8 + length payload ≤ length packet
    → 8 + length payload < 65535
    → let (bytes, n) = build_icmp type packet id seq payload in
      (parse_icmp_packet (take n bytes) ≡ some (type, id, seq, payload))
      × (internet_checksum (take n bytes) ≡ 0)
unfolding build_icmp parse_icmp_packet
parse-build_icmp type id seq packet payload ht hi hs hp room small =
    let sum = internet_checksum (icmp_message type (0 ∷ 0 ∷ []) id seq payload) in
    let whole = icmp_message type (be16 sum) id seq payload in
    let e = take-overwrite_of (8 + length payload) whole packet (omega arith) in
    (ground (arith, e), ground (arith, e, icmp_message_checks type id seq payload ht hp small))
