-- ===== src/Net/Ethernet.antt =====
-- kernel/src/net/ethernet.rs: frames.
use elitra_os.Base.{
  ℕ, ◌+◌, ◌<◌, ◌≤◌, ◌≡◌, Option, none, some, List, ◌++◌, length, take, drop, ltb, if◌then◌else◌,
  arith,
}
use elitra_os.Net.Wire.{Mac, mac_bytes, be16, read_be16, overwrite, take-overwrite_of, u16_mod}

-- The type and the payload.
unfoldable pub parse_ethernet_frame : List ℕ → Option (ℕ × List ℕ)
parse_ethernet_frame bytes =
    if ltb (length bytes) 14 then none else some (read_be16 bytes 12, drop 14 bytes)

-- The frame slice after the call, and the length returned.
unfoldable pub build_ethernet_frame : List ℕ → Mac → Mac → ℕ → List ℕ → List ℕ × ℕ
build_ethernet_frame frame src_mac dest_mac ethertype payload =
    if ltb (length frame) (14 + length payload) then (frame, 0) else (
      overwrite (mac_bytes dest_mac ++ mac_bytes src_mac ++ be16 ethertype ++ payload) frame,
      14 + length payload,
    )

-- A frame that was built is parsed back to its type and payload, if the buffer had room.
pub parse-build_ethernet_frame :
    (frame : List ℕ) (src dest : Mac) (ethertype : ℕ) (payload : List ℕ)
    → 14 + length payload ≤ length frame
    → ethertype < u16_mod
    → let (bytes, n) = build_ethernet_frame frame src dest ethertype payload in
      parse_ethernet_frame (take n bytes) ≡ some (ethertype, payload)
unfolding build_ethernet_frame parse_ethernet_frame
parse-build_ethernet_frame frame src dest ethertype payload room small =
    let whole = mac_bytes dest ++ mac_bytes src ++ be16 ethertype ++ payload in
    ground (arith, take-overwrite_of (14 + length payload) whole frame (omega arith))
