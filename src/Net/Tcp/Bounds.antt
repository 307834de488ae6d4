-- ===== src/Net/Tcp/Bounds.antt =====
-- The fields of a connection stay within their types and buffers (kernel/src/net/tcp.rs).
use elitra_os.Base.{
  ℕ, ◌+◌, ◌-◌, ◌≤◌, ◌<◌, ◌≡◌, List, ◌++◌, length, take, drop, arith, min, length-append,
  length-take, length-drop, length-replicate,
}
use elitra_os.Net.Wire.{u32_mod, u16_mod}
use elitra_os.Net.Tcp.{TcpState, TcpConnection, SocketAddr, new, update_activity}
use elitra_os.Net.Tcp.Receive.{
  on_syn_sent, on_syn_received, take_ack, store_data, take_data, take_fin, write_at, on_established,
  on_close_wait, finish, on_fin_wait1, on_last_ack, on_closing, process_segment, dispatch,
}
use elitra_os.Net.Tcp.Send.{build_syn, send_data, close, check_retransmit}

-- The receive position stays inside the buffer of 4096 bytes, the sequence numbers are words, and
-- the timeout has its limit.
pub record IsBounded (c : TcpConnection) : Type 0 where
  pub buffer : length c.recv_buf ≡ 4096
  pub position : c.recv_pos ≤ 4096
  pub send_seq_word : c.send_seq < u32_mod
  pub send_unack_word : c.send_unack < u32_mod
  pub recv_seq_word : c.recv_seq < u32_mod
  pub window_word : c.send_window < u16_mod
  pub timeout : c.retransmit_timeout ≤ 30000

pub new-IsBounded :
    (local remote : SocketAddr) (isn : ℕ) → isn < u32_mod → IsBounded (new local remote isn)
unfolding new
new-IsBounded local remote isn h = record {
  buffer = length-replicate {A = ℕ} 4096 0;
  position = omega arith;
  send_seq_word = h;
  send_unack_word = omega arith;
  recv_seq_word = omega arith;
  window_word = omega arith;
  timeout = omega arith;
}

length-write_at :
    (buf : List ℕ) (start : ℕ) (bytes : List ℕ)
    → start + length bytes ≤ length buf
    → length (write_at buf start bytes) ≡ length buf
unfolding write_at
length-write_at buf start bytes h = omega (
  arith,
  length-append (take start buf ++ bytes) (drop (start + length bytes) buf),
  length-append (take start buf) bytes,
  length-append bytes (drop (start + length bytes) buf),
  length-append (take start buf) (bytes ++ drop (start + length bytes) buf),
  length-take start buf,
  length-drop (start + length bytes) buf,
)

take_data-IsBounded :
    (payload : List ℕ) (c : TcpConnection) → IsBounded c → IsBounded (take_data payload c).0
unfolding take_data store_data
take_data-IsBounded payload c b =
    let copy_len = min (length payload) (length c.recv_buf - c.recv_pos) in
    let copied = take copy_len payload in
    ground (arith, length-take copy_len payload, length-write_at c.recv_buf c.recv_pos copied)

on_established-IsBounded :
    (flags ack_num window : ℕ) (payload : List ℕ) (c : TcpConnection)
    → IsBounded c
    → ack_num < u32_mod
    → window < u16_mod
    → IsBounded (on_established flags ack_num window payload c).0
unfolding on_established take_fin take_ack
on_established-IsBounded flags ack_num window payload c b ha hw =
    let acked : IsBounded (take_ack flags ack_num window c) = unfold take_ack in ground arith in
    let taken = take_data-IsBounded payload (take_ack flags ack_num window c) acked in ground arith

-- A segment whose numbers are 32-bit words and whose window is a 16-bit word keeps a connection
-- within its bounds, whatever the state: the receive buffer has 4096 bytes with the position
-- inside, sequence numbers are 32-bit words, the peer's window is a 16-bit word and the timeout is
-- at most 30000.
pub process_segment-IsBounded :
    (now flags seq_num ack_num window : ℕ) (payload : List ℕ) (c : TcpConnection)
    → IsBounded c
    → seq_num < u32_mod
    → ack_num < u32_mod
    → window < u16_mod
    → IsBounded (process_segment now flags seq_num ack_num window payload c).0
unfolding process_segment
process_segment-IsBounded now flags seq_num ack_num window payload c b hs ha hw =
    dispatch-IsBounded c.state (update_activity now c) (unfold update_activity in ground arith)
  where
    dispatch-IsBounded :
        (s : TcpState) (c : TcpConnection)
        → IsBounded c
        → IsBounded (dispatch s flags seq_num ack_num window payload c).0
    dispatch-IsBounded TcpState.established c b =
        on_established-IsBounded flags ack_num window payload c b ha hw
    dispatch-IsBounded TcpState.syn_sent c b = unfold on_syn_sent in ground arith
    dispatch-IsBounded TcpState.syn_received c b = unfold on_syn_received in ground arith
    dispatch-IsBounded TcpState.close_wait c b = unfold on_close_wait in ground arith
    dispatch-IsBounded TcpState.fin_wait1 c b = unfold on_fin_wait1 finish in ground arith
    dispatch-IsBounded TcpState.fin_wait2 c b = unfold finish in ground arith
    dispatch-IsBounded TcpState.last_ack c b = unfold on_last_ack in ground arith
    dispatch-IsBounded TcpState.closing c b = unfold on_closing in ground arith
    dispatch-IsBounded TcpState.time_wait c b = b
    dispatch-IsBounded TcpState.listen c b = b
    dispatch-IsBounded TcpState.closed c b = b

-- So do the calls of the owner and the timer.
pub calls-IsBounded :
    (now : ℕ) (bytes : List ℕ) (c : TcpConnection)
    → IsBounded c
    → IsBounded (build_syn now c).0
      × IsBounded (send_data bytes c).0
      × IsBounded (close c).0
      × IsBounded (check_retransmit now c).0
unfolding build_syn send_data close check_retransmit
calls-IsBounded now bytes c b = (ground arith, ground arith, ground arith, ground arith)
