-- ===== src/Net/Socket.antt =====
-- kernel/src/util/socket.rs: a socket, its address, its two buffers and its state. Error codes are
-- constructors; `error` is 0 where it is `none`.
pub mod Queue
pub mod Ports
pub mod Table
use elitra_os.Base.{
  ℕ, zero, suc, ◌+◌, ◌-◌, ◌*◌, ◌/◌, ◌%◌, Bool, true, false, Option, none, some, List, [], ◌∷◌, ◌++◌,
  length, take, drop, replicate, ltb, ◌==◌, if◌then◌else◌, min,
}
use elitra_os.Net.Wire.{Ip, u16_mod}

pub data SocketError : Type 0 where
  eaddrinuse enotbound enotconn econnrefused ealready enobufs emsgsize ewouldblock : SocketError

pub data Result {ℓ} (A : Type ℓ) : Type ℓ where
  ok : A → Result A
  err : SocketError → Result A

-- `u16::to_be` and `u16::from_be` on a little-endian machine
abbrev pub swap16 : ℕ → ℕ
swap16 x = x % 256 * 256 + x / 256 % 256

pub record SocketAddrIn : Type 0 where
  pub sin_port : ℕ
  pub sin_addr : Ip

unfoldable pub new_addr : Ip → ℕ → SocketAddrIn
new_addr ip port = record { sin_port = swap16 port; sin_addr = ip }

unfoldable pub port_be : SocketAddrIn → ℕ
port_be a = swap16 a.sin_port

pub data SocketType : Type 0 where
  stream datagram : SocketType

pub data SocketState : Type 0 where
  closed bound listening connected : SocketState

pub record Socket : Type 0 where
  pub socket_type : SocketType
  pub state : SocketState
  pub local_addr : Option SocketAddrIn
  pub remote_addr : Option SocketAddrIn
  pub recv_buffer : List ℕ
  pub send_buffer : List ℕ
  pub recv_pos : ℕ
  pub send_pos : ℕ
  pub backlog : ℕ
  pub error : Option SocketError

unfoldable pub new : SocketType → Socket
new socket_type = record {
  socket_type = socket_type;
  state = closed;
  local_addr = none;
  remote_addr = none;
  recv_buffer = replicate 4096 0;
  send_buffer = replicate 4096 0;
  recv_pos = 0;
  send_pos = 0;
  backlog = 0;
  error = none;
}

unfoldable pub bind : SocketAddrIn → Socket → Socket
bind addr s = record s { local_addr = some addr; state = bound }

-- `true` where the state is the one asked for
abbrev pub is_bound : SocketState → Bool
is_bound bound = true
is_bound _ = false

abbrev pub is_listening : SocketState → Bool
is_listening listening = true
is_listening _ = false

abbrev pub is_connected : SocketState → Bool
is_connected connected = true
is_connected _ = false

unfoldable pub listen : ℕ → Socket → Socket × Option SocketError
listen backlog s =
    if is_bound s.state
    then (record s { state = listening; backlog = backlog }, none)
    else (record s { error = some enotbound }, some enotbound)

unfoldable pub accept : Socket → Option SocketAddrIn
accept s = if is_listening s.state then s.remote_addr else none

-- `ephemeral` is the port that `allocate_ephemeral_port` would give; it is taken where the socket
-- has no local address yet.
unfoldable pub connect : SocketAddrIn → ℕ → Socket → Socket
connect addr ephemeral s =
    let any : Ip = record { a = 0; b = 0; c = 0; d = 0 } in
    let local : SocketAddrIn = elim s.local_addr [ none ↦ new_addr any ephemeral | some l ↦ l ] in
    record s { remote_addr = some addr; local_addr = some local; state = connected }

-- The first part of the bytes goes into the buffer, as far as it has room.
unfoldable pub send : List ℕ → Socket → Socket × Result ℕ
send bytes s =
    let n = min (length bytes) (length s.send_buffer - s.send_pos) in
    let filled =
      take s.send_pos s.send_buffer ++ take n bytes ++ drop (s.send_pos + n) s.send_buffer in
    if is_connected s.state
    then if n == 0
      then (s, err enobufs)
      else (record s { send_buffer = filled; send_pos = s.send_pos + n }, ok n)
    else (s, err enotconn)

-- `copy_within(len..len + rest, 0)`
unfoldable pub shift_down : ℕ → ℕ → List ℕ → List ℕ
shift_down n rest buffer = take rest (drop n buffer) ++ drop rest buffer

-- Into a buffer of `size` bytes: what is put at its start is the result.
unfoldable pub recv : ℕ → Socket → Socket × Result (List ℕ)
recv size s =
    let n = min size s.recv_pos in
    let rest = s.recv_pos - n in
    let buffer = if ltb 0 rest then shift_down n rest s.recv_buffer else s.recv_buffer in
    if s.recv_pos == 0
    then (s, err ewouldblock)
    else (record s { recv_buffer = buffer; recv_pos = rest }, ok (take n s.recv_buffer))

unfoldable pub close : Socket → Socket
close s = record s {
  state = closed;
  recv_pos = 0;
  send_pos = 0;
  local_addr = none;
  remote_addr = none;
}

unfoldable pub has_data : Socket → Bool
has_data s = ltb 0 s.recv_pos

-- `deliver_udp_packet` of kernel/src/net/mod.rs at the socket that it finds.
unfoldable pub deliver : List ℕ → Ip → ℕ → Socket → Socket
deliver payload src_ip dst_port s =
    let n = min (length payload) (length s.recv_buffer - s.recv_pos) in
    let filled =
      take s.recv_pos s.recv_buffer ++ take n payload ++ drop (s.recv_pos + n) s.recv_buffer in
    if ltb 0 n
    then record s {
      recv_buffer = filled;
      recv_pos = s.recv_pos + n;
      remote_addr = some (new_addr src_ip (swap16 dst_port));
    }
    else s
