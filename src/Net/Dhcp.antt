-- ===== src/Net/Dhcp.antt =====
-- kernel/src/net/dhcp.rs: the state of the DHCP client and its messages. The client is a static
-- behind a lock, `none` before it is made.
pub mod Options
use elitra_os.Base.{
  ℕ, zero, suc, ◌+◌, Bool, true, false, not, Option, none, some, List, [], ◌∷◌, ◌++◌, length, drop,
  replicate, ltb, ◌==◌, if◌then◌else◌,
}
use elitra_os.Net.Wire.{Ip, Mac, byte}

abbrev pub option_hostname : ℕ
option_hostname = 12

-- the size of DhcpHeader
abbrev pub header_size : ℕ
header_size = 240

abbrev pub magic_cookie : List ℕ
magic_cookie = 0x63 ∷ 0x82 ∷ 0x53 ∷ 0x63 ∷ []

-- "ElitraOS"
abbrev hostname : List ℕ
hostname = 69 ∷ 108 ∷ 105 ∷ 116 ∷ 114 ∷ 97 ∷ 79 ∷ 83 ∷ []

-- 300 bytes: the header with its cookie, the host name and the end of the options. There is no
-- option with the kind of the message, and no address of the sender.
unfoldable pub build_dhcp_discover : List ℕ
build_dhcp_discover =
    (1 ∷ 1 ∷ 6 ∷ 0 ∷ [])
    ++ replicate 232 0
    ++ magic_cookie
    ++ (option_hostname ∷ 8 ∷ hostname)
    ++ (255 ∷ 0 ∷ [])
    ++ replicate 48 0

pub data DhcpState : Type 0 where
  initial discovering offered requesting acknowledged failed : DhcpState

pub record DhcpClient : Type 0 where
  pub state : DhcpState
  pub mac_address : Mac
  pub ip_address : Ip
  pub xid : ℕ
  pub server_ip : Ip
  pub timeout : ℕ

unfoldable pub new : Mac → Ip → DhcpClient
new mac ip = record {
  state = DhcpState.initial;
  mac_address = mac;
  ip_address = ip;
  xid = 0;
  server_ip = record { a = 0; b = 0; c = 0; d = 0 };
  timeout = 10000;
}

abbrev pub ip_at : List ℕ → ℕ → Ip
ip_at bs i = record { a = byte bs i; b = byte bs (i + 1); c = byte bs (i + 2); d = byte bs (i + 3) }

-- A message that is long enough, and an answer.
unfoldable pub is_reply : List ℕ → Bool
is_reply packet = if ltb (length packet) header_size then false else byte packet 0 == 2

-- `siaddr` and `yiaddr` of the header
unfoldable pub handle_offer : List ℕ → DhcpClient → DhcpClient × Bool
handle_offer packet c =
    let taken : DhcpClient = record c {
      server_ip = ip_at packet 20;
      ip_address = ip_at packet 16;
      state = DhcpState.offered;
    } in
    if is_reply packet then (taken, true) else (c, false)

unfoldable pub handle_ack : List ℕ → DhcpClient → DhcpClient × Bool
handle_ack packet c =
    let taken : DhcpClient = record c {
      ip_address = ip_at packet 16;
      state = DhcpState.acknowledged;
    } in
    if is_reply packet then (taken, true) else (c, false)

-- The loop at position `pos`, with the bytes from there on, after `left` bytes are left out.
unfoldable pub find_from : ℕ → ℕ → ℕ → List ℕ → Option ℕ
find_from option pos left [] = none
find_from option pos (suc left) (b ∷ bs) = find_from option (suc pos) left bs
find_from option pos zero (b ∷ []) = none
find_from option pos zero (b ∷ l ∷ bs) =
    let padded = find_from option (suc pos) zero (l ∷ bs) in
    let rest = find_from option (suc pos) (suc l) (l ∷ bs) in
    if b == 255 then none else if b == 0 then padded else if b == option then some pos else rest

unfoldable pub find_option : List ℕ → ℕ → Option ℕ
find_option packet option = find_from option header_size 0 (drop header_size packet)

unfoldable pub init_dhcp_client : Mac → Ip → Option DhcpClient
init_dhcp_client mac ip = some (new mac ip)
