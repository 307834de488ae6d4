-- ===== src/Net/Tcp/Send.antt =====
-- kernel/src/net/tcp.rs: opening, sending, closing, and the retransmission timer.
use Prim.Native.Nat.{bit_or}
use elitra_os.Base.{
  ℕ, ◌+◌, ◌-◌, ◌*◌, ◌/◌, ◌%◌, ◌^◌, none, some, List, [], length, take, ltb, ◌==◌, if◌then◌else◌,
  min,
}
use elitra_os.Net.Segment.{flag_fin, flag_syn, flag_psh, flag_ack, default_window}
use elitra_os.Net.Tcp.{
  TcpState, TcpConnection, Answer, add32, update_activity, advertised_recv_window, bytes_in_flight,
  reply,
}

send_syn : ℕ → TcpConnection → TcpConnection × Answer
send_syn now c =
    let seq = c.send_seq in
    let c' =
      update_activity now
        (record c { state = TcpState.syn_sent; send_unack = seq; send_seq = add32 seq 1 }) in
    (c', reply c' seq seq 0 flag_syn default_window [])

build_syn_in : TcpState → ℕ → TcpConnection → TcpConnection × Answer
build_syn_in TcpState.closed now c = send_syn now c
build_syn_in _ now c = (c, none)

unfoldable pub build_syn : ℕ → TcpConnection → TcpConnection × Answer
unfolding build_syn_in send_syn update_activity
build_syn now c = build_syn_in c.state now c

-- Data goes out only as far as the peer's window, less what is in flight, allows.
send_chunk : List ℕ → TcpConnection → TcpConnection × Answer
send_chunk bytes c =
    let available = c.send_window - bytes_in_flight c in
    let chunk_len = min (length bytes) available in
    let answer =
      reply c c.send_seq c.send_seq c.recv_seq (bit_or flag_ack flag_psh) (advertised_recv_window c)
        (take chunk_len bytes) in
    let sent = record c { send_seq = add32 c.send_seq chunk_len } in
    if available == 0 then (c, none) else elim answer [ none ↦ (c, none) | some a ↦ (sent, some a) ]

send_data_in : TcpState → List ℕ → TcpConnection → TcpConnection × Answer
send_data_in TcpState.established bytes c = send_chunk bytes c
send_data_in _ bytes c = (c, none)

unfoldable pub send_data : List ℕ → TcpConnection → TcpConnection × Answer
unfolding send_data_in send_chunk
send_data bytes c = send_data_in c.state bytes c

send_fin : TcpConnection → TcpConnection × Answer
send_fin c =
    let seq = c.send_seq in
    let c' = record c { send_seq = add32 seq 1; state = TcpState.fin_wait1 } in
    (c', reply c' seq seq c'.recv_seq (bit_or flag_fin flag_ack) (advertised_recv_window c') [])

close_in : TcpState → TcpConnection → TcpConnection × Answer
close_in TcpState.established c = send_fin c
close_in TcpState.close_wait c = send_fin c
close_in _ c = (record c { state = TcpState.closed }, none)

unfoldable pub close : TcpConnection → TcpConnection × Answer
unfolding close_in send_fin
close c = close_in c.state c

-- `wrapping_sub` on u64
abbrev pub sub64 : ℕ → ℕ → ℕ
sub64 a b = (a + 2 ^ 64 - b) % 2 ^ 64

-- The timeout is in milliseconds, a tick is ten of them. The count is a u8, which the limit of five
-- keeps from wrapping.
retransmit : ℕ → TcpConnection → TcpConnection × Answer
retransmit now c =
    let count = c.retransmit_count + 1 in
    let c' = update_activity now (record c {
      retransmit_count = count;
      retransmit_timeout = min (c.retransmit_timeout * 2) 30000;
    }) in
    let answer =
      reply c' c'.send_unack c'.send_unack c'.recv_seq flag_ack (advertised_recv_window c') [] in
    if bytes_in_flight c == 0
    then (c, none)
    else if ltb (sub64 now c.last_activity) (c.retransmit_timeout / 10)
    then (c, none)
    else if ltb 5 count
    then (record c { retransmit_count = count; state = TcpState.closed }, none)
    else (c', answer)

check_retransmit_in : TcpState → ℕ → TcpConnection → TcpConnection × Answer
check_retransmit_in TcpState.established now c = retransmit now c
check_retransmit_in _ now c = (c, none)

unfoldable pub check_retransmit : ℕ → TcpConnection → TcpConnection × Answer
unfolding check_retransmit_in retransmit update_activity
check_retransmit now c = check_retransmit_in c.state now c
