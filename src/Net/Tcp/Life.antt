-- ===== src/Net/Tcp/Life.antt =====
-- How a connection opens, closes, and gives up (kernel/src/net/tcp.rs).
use elitra_os.Base.{
  ℕ, zero, suc, ◌+◌, ◌*◌, ◌/◌, ◌^◌, ◌≤◌, ◌<◌, ◌≡◌, ◌≢◌, true, false, none, List, [], ◌∷◌, arith,
  min,
}
use elitra_os.Net.Segment.{has, flag_fin, flag_syn, flag_ack}
use elitra_os.Net.Tcp.{
  TcpState, TcpConnection, SocketAddr, new, add32, update_activity, bytes_in_flight,
}
use elitra_os.Net.Tcp.Receive.{
  on_syn_sent, take_ack, take_data, take_fin, on_established, on_close_wait, finish, on_fin_wait1,
  on_last_ack, process_segment,
}
use elitra_os.Net.Tcp.Send.{build_syn, close, check_retransmit}

-- the connection after a segment
abbrev pub after : ℕ → ℕ → ℕ → ℕ → ℕ → List ℕ → TcpConnection → TcpConnection
after now flags seq_num ack_num window payload c =
    (process_segment now flags seq_num ack_num window payload c).0

-- An active opening: a new connection that sends its SYN and then gets a segment with SYN and ACK
-- is established, with its own number one past the initial one, the peer's one past the peer's, and
-- its SYN still unacknowledged, whatever the segment acknowledges.
pub active_open :
    (local remote : SocketAddr) (isn now later flags seq_num ack_num window : ℕ) (payload : List ℕ)
    → has flags flag_syn ≡ true
    → has flags flag_ack ≡ true
    → let c =
        after later flags seq_num ack_num window payload (build_syn now (new local remote isn)).0 in
      (c.state ≡ TcpState.established)
      × (c.send_seq ≡ add32 isn 1)
      × (c.recv_seq ≡ add32 seq_num 1)
      × (c.send_unack ≡ isn)
unfolding process_segment on_syn_sent build_syn new
active_open local remote isn now later flags seq_num ack_num window payload hs ha = ground arith

-- The side that closes first: an established connection that is closed by its owner, then gets an
-- ACK without FIN and then a FIN is first in FIN_WAIT_2 and then in TIME_WAIT, with the peer's
-- number one further.
pub active_close :
    (c : TcpConnection) (now later f g seq ack window seq' ack' window' : ℕ) (p q : List ℕ)
    → c.state ≡ TcpState.established
    → has f flag_ack ≡ true
    → has f flag_fin ≡ false
    → has g flag_fin ≡ true
    → let waiting = after now f seq ack window p (close c).0 in
      (waiting.state ≡ TcpState.fin_wait2)
      × ((after later g seq' ack' window' q waiting).state ≡ TcpState.time_wait)
      × ((after later g seq' ack' window' q waiting).recv_seq ≡ add32 c.recv_seq 1)
unfolding process_segment on_fin_wait1 finish close
active_close c now later f g seq ack window seq' ack' window' p q e ha hf hg = ground arith

-- The other side: an established connection that gets a FIN is in CLOSE_WAIT; any segment at all
-- then makes it send its own FIN and brings it to LAST_ACK, and an ACK closes it.
pub passive_close :
    (c : TcpConnection) (now f g h seq ack window : ℕ) (p q r : List ℕ)
    → c.state ≡ TcpState.established
    → has f flag_fin ≡ true
    → has h flag_ack ≡ true
    → let half = after now f seq ack window p c in
      let answered = after now g seq ack window q half in
      (half.state ≡ TcpState.close_wait)
      × (answered.state ≡ TcpState.last_ack)
      × (answered.send_seq ≡ add32 half.send_seq 1)
      × ((after now h seq ack window r answered).state ≡ TcpState.closed)
unfolding process_segment on_established take_fin on_close_wait on_last_ack
passive_close c now f g h seq ack window p q r e hf hh = ground arith

-- A segment as the five values that the connection is handed.
pub record Arrival : Type 0 where
  pub at : ℕ
  pub flags : ℕ
  pub seq_num : ℕ
  pub ack_num : ℕ
  pub window : ℕ
  pub payload : List ℕ

unfoldable pub receive_all : List Arrival → TcpConnection → TcpConnection
receive_all [] c = c
receive_all (a ∷ rest) c =
    receive_all rest (after a.at a.flags a.seq_num a.ack_num a.window a.payload c)

-- TIME_WAIT has no end: no sequence of segments leaves it, and a run of the timer after them
-- changes nothing and sends nothing.
pub time_wait_absorbs :
    (arrivals : List Arrival) (now : ℕ) (c : TcpConnection)
    → c.state ≡ TcpState.time_wait
    → ((receive_all arrivals c).state ≡ TcpState.time_wait)
      × (check_retransmit now (receive_all arrivals c) ≡ (receive_all arrivals c, none))
unfolding receive_all check_retransmit
time_wait_absorbs [] now c e = (e, ground arith)
time_wait_absorbs (a ∷ rest) now c e =
    time_wait_absorbs rest now (after a.at a.flags a.seq_num a.ack_num a.window a.payload c)
      (unfold process_segment in ground arith)

-- An established connection ignores a reset: with neither ACK, FIN nor data a segment changes only
-- the time of the last activity and is not answered, whatever its other flags.
pub established_ignores_reset :
    (c : TcpConnection) (now flags seq ack window : ℕ)
    → c.state ≡ TcpState.established
    → has flags flag_ack ≡ false
    → has flags flag_fin ≡ false
    → process_segment now flags seq ack window [] c ≡ (update_activity now c, none)
unfolding process_segment on_established take_ack take_data take_fin
established_ignores_reset c now flags seq ack window e ha hf = ground arith

-- the tick at which the timeout of a connection has just passed
abbrev pub due : TcpConnection → ℕ
due c = c.last_activity + c.retransmit_timeout / 10

-- a run of the timer at each of the next `n` timeouts
unfoldable pub time_out : ℕ → TcpConnection → TcpConnection
time_out zero c = c
time_out (suc n) c = time_out n (check_retransmit (due c) c).0

-- an established connection that waits for an acknowledgement and has used `count` retransmissions
pub record IsWaiting (count : ℕ) (c : TcpConnection) : Type 0 where
  pub still_open : c.state ≡ TcpState.established
  pub waits : bytes_in_flight c ≢ 0
  pub used : c.retransmit_count ≡ count
  pub clock : due c < 2 ^ 64

time_out_once :
    (c : TcpConnection) (count : ℕ)
    → IsWaiting count c
    → count < 5
    → let c' = (check_retransmit (due c) c).0 in
      (c'.state ≡ TcpState.established)
      × (c'.send_seq ≡ c.send_seq)
      × (c'.send_unack ≡ c.send_unack)
      × (c'.retransmit_count ≡ suc count)
      × (c'.last_activity ≡ due c)
      × (c'.retransmit_timeout ≡ min (c.retransmit_timeout * 2) 30000)
unfolding check_retransmit
time_out_once c count w h = ground arith

-- An established connection that waits for an acknowledgement, has retransmitted `count` times and
-- hears nothing is still established after 5 - `count` timeouts, with 5 retransmissions counted,
-- and closed after one more, as long as the clock does not wrap.
pub time_out_gives_up :
    (n count : ℕ) (c : TcpConnection)
    → IsWaiting count c
    → c.retransmit_timeout ≤ 30000
    → c.last_activity + n * 3000 + 3000 < 2 ^ 64
    → count + n ≡ 5
    → ((time_out n c).state ≡ TcpState.established)
      × ((time_out n c).retransmit_count ≡ 5)
      × ((time_out (suc n) c).state ≡ TcpState.closed)
unfolding time_out
time_out_gives_up zero count c w t k e =
    (w.still_open, omega (arith, w.used), gives_up c count w (omega arith))
  where
    gives_up :
        (c : TcpConnection) (count : ℕ)
        → IsWaiting count c
        → count ≡ 5
        → (check_retransmit (due c) c).0.state ≡ TcpState.closed
    gives_up c count w e = unfold check_retransmit in ground arith
time_out_gives_up (suc n) count c w t k e =
    let (still_open, seq, unack, used, last, timeout) = time_out_once c count w (omega arith) in
    time_out_gives_up n (suc count) (check_retransmit (due c) c).0
      (record {
        still_open = still_open;
        waits = unfold bytes_in_flight in (λ z. w.waits (ground arith));
        used = used;
        clock = omega arith;
      })
      (omega arith) (omega arith) (omega arith)
