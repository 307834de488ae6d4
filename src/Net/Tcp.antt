-- ===== src/Net/Tcp.antt =====
-- kernel/src/net/tcp.rs: `TcpConnection`, the state machine of a connection. A method returns the
-- new connection and its answer, a sequence number with a packet of 200 bytes. The PIT tick counter
-- enters as an argument `now`, the initial sequence number as the result of `generate_isn`.
pub mod Receive
pub mod Send
pub mod Bounds
pub mod Graph
pub mod Stream
pub mod Life
use Prim.Native.Nat.{bit_or, bit_xor}
use elitra_os.Base.{
  ℕ, zero, suc, ◌+◌, ◌-◌, ◌*◌, ◌/◌, ◌%◌, ◌^◌, Bool, true, false, ◌&&◌, not, Option, none, some,
  List, [], ◌∷◌, ◌++◌, length, take, drop, replicate, ltb, leb, ◌==◌, if◌then◌else◌, min,
}
use elitra_os.Net.Wire.{Ip, u32_mod, u16_mod}
use elitra_os.Net.Segment.{
  flag_fin, flag_syn, flag_rst, flag_psh, flag_ack, default_window, has, build_tcp_packet,
}

pub data TcpState : Type 0 where
  closed listen syn_sent syn_received established : TcpState
  fin_wait1 fin_wait2 close_wait closing last_ack time_wait : TcpState

pub record SocketAddr : Type 0 where
  pub ip : Ip
  pub port : ℕ

-- `socket_fd` is -1 where no socket has the connection: `none` here.
pub record TcpConnection : Type 0 where
  pub local_addr : SocketAddr
  pub remote_addr : SocketAddr
  pub state : TcpState
  pub send_seq : ℕ
  pub send_unack : ℕ
  pub recv_seq : ℕ
  pub send_window : ℕ
  pub recv_window : ℕ
  pub mss : ℕ
  pub retransmit_timeout : ℕ
  pub last_activity : ℕ
  pub retransmit_count : ℕ
  pub recv_buf : List ℕ
  pub recv_pos : ℕ
  pub send_buf : List ℕ
  pub send_pos : ℕ
  pub socket_fd : Option ℕ

-- a sequence number and a packet
abbrev pub Answer : Type 0
Answer = Option (ℕ × List ℕ)

-- `wrapping_add` and `wrapping_sub` on u32
abbrev pub add32 : ℕ → ℕ → ℕ
add32 a b = (a + b) % u32_mod

abbrev pub sub32 : ℕ → ℕ → ℕ
sub32 a b = (a + u32_mod - b) % u32_mod

-- The counter that makes the numbers differ, and the ticks.
unfoldable pub generate_isn : ℕ → ℕ → ℕ × ℕ
generate_isn seed ticks =
    let x₀ = bit_xor (bit_xor seed (ticks % u32_mod)) 0xDEADBEEF in
    let x₁ = x₀ * 0x41C64E6D % u32_mod in
    let x₂ = bit_xor x₁ (x₁ / 2 ^ 16) in
    let x₃ = x₂ * 0x1B873593 % u32_mod in (bit_xor x₃ (x₃ / 2 ^ 13), add32 seed 1)

unfoldable pub new : SocketAddr → SocketAddr → ℕ → TcpConnection
new local_addr remote_addr isn = record {
  local_addr = local_addr;
  remote_addr = remote_addr;
  state = TcpState.closed;
  send_seq = isn;
  send_unack = 0;
  recv_seq = 0;
  send_window = default_window;
  recv_window = default_window;
  mss = 1460;
  retransmit_timeout = 1000;
  last_activity = 0;
  retransmit_count = 0;
  recv_buf = replicate 4096 0;
  recv_pos = 0;
  send_buf = replicate 4096 0;
  send_pos = 0;
  socket_fd = none;
}

unfoldable pub update_activity : ℕ → TcpConnection → TcpConnection
update_activity now c = record c { last_activity = now }

-- All of the window while at least a quarter of the buffer is free, then what is free.
unfoldable pub advertised_recv_window : TcpConnection → ℕ
advertised_recv_window c =
    let remaining = (length c.recv_buf - c.recv_pos) % u16_mod in
    if ltb remaining (length c.recv_buf / 4 % u16_mod) then remaining else default_window

unfoldable pub bytes_in_flight : TcpConnection → ℕ
bytes_in_flight c = sub32 c.send_seq c.send_unack

-- `build_tcp_packet` on a packet of 200 zeros, answered with the tag unless it did not fit.
unfoldable pub reply : TcpConnection → ℕ → ℕ → ℕ → ℕ → ℕ → List ℕ → Answer
reply c tag seq ack flags window payload =
    let (packet, n) =
      build_tcp_packet (replicate 200 0) c.local_addr.ip c.remote_addr.ip c.local_addr.port
        c.remote_addr.port seq ack flags window payload in
    if ltb 0 n then some (tag, packet) else none
