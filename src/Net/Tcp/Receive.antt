-- ===== src/Net/Tcp/Receive.antt =====
-- kernel/src/net/tcp.rs: `process_segment`, one function for each state.
use Prim.Native.Nat.{bit_or}
use elitra_os.Base.{
  ℕ, ◌+◌, ◌-◌, ◌&&◌, none, some, List, [], ◌++◌, length, take, drop, ltb, ◌==◌, if◌then◌else◌, min,
}
use elitra_os.Net.Segment.{flag_fin, flag_syn, flag_rst, flag_ack, default_window, has}
use elitra_os.Net.Tcp.{
  TcpState, TcpConnection, Answer, add32, update_activity, advertised_recv_window, reply,
}

unfoldable pub on_syn_sent : ℕ → ℕ → TcpConnection → TcpConnection × Answer
on_syn_sent flags seq_num c =
    let ack_seq = add32 seq_num 1 in
    let c' = record c { recv_seq = ack_seq; state = TcpState.established } in
    if has flags flag_syn && has flags flag_ack
    then (c', reply c' ack_seq c'.send_seq ack_seq flag_ack default_window [])
    else if has flags flag_rst
    then (record c { state = TcpState.closed }, none)
    else (c, none)

unfoldable pub on_syn_received : ℕ → ℕ → TcpConnection → TcpConnection × Answer
on_syn_received flags seq_num c =
    if has flags flag_ack
    then (record c { recv_seq = seq_num; state = TcpState.established }, none)
    else (c, none)

-- an acknowledgement, and a window that is not 0
unfoldable pub take_ack : ℕ → ℕ → ℕ → TcpConnection → TcpConnection
take_ack flags ack_num window_size c =
    if has flags flag_ack
    then record c {
      send_unack = ack_num;
      retransmit_count = 0;
      send_window = if ltb 0 window_size then window_size else c.send_window;
    }
    else c

-- `recv_buf[data_start..data_start + copy_len].copy_from_slice(..)`
unfoldable pub write_at : List ℕ → ℕ → List ℕ → List ℕ
write_at buf start bytes = take start buf ++ bytes ++ drop (start + length bytes) buf

unfoldable pub store_data : List ℕ → TcpConnection → TcpConnection
store_data payload c =
    let space = length c.recv_buf - c.recv_pos in
    let copy_len = min (length payload) space in
    record c {
      recv_buf =
          if ltb 0 copy_len
          then write_at c.recv_buf c.recv_pos (take copy_len payload)
          else c.recv_buf;
      recv_pos = c.recv_pos + copy_len;
      recv_seq = add32 c.recv_seq (length payload);
    }

unfoldable pub take_data : List ℕ → TcpConnection → TcpConnection × Answer
take_data payload c =
    let c' = store_data payload c in
    let ack =
      reply c' c'.recv_seq c'.send_seq c'.recv_seq flag_ack (advertised_recv_window c') [] in
    if length payload == 0 then (c, none) else (c', ack)

-- the answer to a FIN stands in for that to the data
unfoldable pub take_fin : ℕ → TcpConnection × Answer → TcpConnection × Answer
take_fin flags (c, response) =
    let ack_seq = add32 c.recv_seq 1 in
    let c' = record c { recv_seq = ack_seq; state = TcpState.close_wait } in
    let ack = reply c' ack_seq c'.send_seq ack_seq flag_ack default_window [] in
    if has flags flag_fin
    then (c', elim ack [ none ↦ response | some a ↦ some a ])
    else (c, response)

unfoldable pub on_established : ℕ → ℕ → ℕ → List ℕ → TcpConnection → TcpConnection × Answer
on_established flags ack_num window_size payload c =
    take_fin flags (take_data payload (take_ack flags ack_num window_size c))

unfoldable pub on_close_wait : TcpConnection → TcpConnection × Answer
on_close_wait c =
    let seq = c.send_seq in
    let c' = record c { send_seq = add32 seq 1; state = TcpState.last_ack } in
    (c', reply c' seq seq c'.recv_seq (bit_or flag_fin flag_ack) (advertised_recv_window c') [])

-- a FIN in one of the two FIN_WAIT states
unfoldable pub finish : ℕ → TcpConnection → TcpConnection × Answer
finish flags c =
    let ack_seq = add32 c.recv_seq 1 in
    let c' = record c { recv_seq = ack_seq; state = TcpState.time_wait } in
    if has flags flag_fin
    then (c', reply c' ack_seq c'.send_seq ack_seq flag_ack (advertised_recv_window c') [])
    else (c, none)

unfoldable pub on_fin_wait1 : ℕ → ℕ → TcpConnection → TcpConnection × Answer
on_fin_wait1 flags ack_num c = finish flags (
    if has flags flag_ack then record c { send_unack = ack_num; state = TcpState.fin_wait2 } else c)

unfoldable pub on_last_ack : ℕ → TcpConnection → TcpConnection × Answer
on_last_ack flags c = (if has flags flag_ack then record c { state = TcpState.closed } else c, none)

unfoldable pub on_closing : ℕ → TcpConnection → TcpConnection × Answer
on_closing flags c =
    (if has flags flag_ack then record c { state = TcpState.time_wait } else c, none)

-- the `match self.state` of `process_segment`
unfoldable pub dispatch : TcpState → ℕ → ℕ → ℕ → ℕ → List ℕ → TcpConnection → TcpConnection × Answer
dispatch TcpState.syn_sent flags seq_num ack_num window payload c = on_syn_sent flags seq_num c
dispatch TcpState.syn_received flags seq_num ack_num window payload c =
    on_syn_received flags seq_num c
dispatch TcpState.established flags seq_num ack_num window payload c =
    on_established flags ack_num window payload c
dispatch TcpState.close_wait flags seq_num ack_num window payload c = on_close_wait c
dispatch TcpState.fin_wait1 flags seq_num ack_num window payload c = on_fin_wait1 flags ack_num c
dispatch TcpState.fin_wait2 flags seq_num ack_num window payload c = finish flags c
dispatch TcpState.last_ack flags seq_num ack_num window payload c = on_last_ack flags c
dispatch TcpState.closing flags seq_num ack_num window payload c = on_closing flags c
dispatch TcpState.time_wait flags seq_num ack_num window payload c = (c, none)
dispatch TcpState.listen flags seq_num ack_num window payload c = (c, none)
dispatch TcpState.closed flags seq_num ack_num window payload c = (c, none)

unfoldable pub process_segment : ℕ → ℕ → ℕ → ℕ → ℕ → List ℕ → TcpConnection → TcpConnection × Answer
unfolding dispatch update_activity
process_segment now flags seq_num ack_num window payload c =
    dispatch c.state flags seq_num ack_num window payload (update_activity now c)
