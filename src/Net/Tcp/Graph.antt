-- ===== src/Net/Tcp/Graph.antt =====
-- The state diagram of a connection (kernel/src/net/tcp.rs).
use elitra_os.Base.{ℕ, ◌≡◌, refl, List, [], arith}
use Prim.Native.Nat.{bit_or}
use elitra_os.Net.Segment.{flag_syn, flag_ack, default_window, has}
use elitra_os.Net.Tcp.{TcpState, TcpConnection, SocketAddr, Answer, new, update_activity, add32}
use elitra_os.Net.Tcp.Receive.{
  on_syn_sent, on_syn_received, take_ack, store_data, take_data, take_fin, on_established,
  on_close_wait, finish, on_fin_wait1, on_last_ack, on_closing, process_segment, dispatch,
}
use elitra_os.Net.Tcp.Send.{build_syn, send_data, close, check_retransmit}

-- what one segment may do to the state
infix 40 ◌⟶◌
pub data ◌⟶◌ : TcpState → TcpState → Type 0 where
  stay : {s : TcpState} → s ⟶ s
  opened : TcpState.syn_sent ⟶ TcpState.established
  reset : TcpState.syn_sent ⟶ TcpState.closed
  accepted : TcpState.syn_received ⟶ TcpState.established
  peer_closed : TcpState.established ⟶ TcpState.close_wait
  answered : TcpState.close_wait ⟶ TcpState.last_ack
  acked : TcpState.fin_wait1 ⟶ TcpState.fin_wait2
  both_closed : TcpState.fin_wait1 ⟶ TcpState.time_wait
  finished : TcpState.fin_wait2 ⟶ TcpState.time_wait
  done : TcpState.last_ack ⟶ TcpState.closed
  crossed : TcpState.closing ⟶ TcpState.time_wait

ruleset edges = (
  stay, opened, reset, accepted, peer_closed, answered, acked, both_closed, finished, done, crossed,
)

take_data_state : (payload : List ℕ) (c : TcpConnection) → (take_data payload c).0.state ≡ c.state
unfolding take_data store_data
take_data_state payload c = ground arith

take_ack_state :
    (flags ack window : ℕ) (c : TcpConnection) → (take_ack flags ack window c).state ≡ c.state
unfolding take_ack
take_ack_state flags ack window c = ground arith

dispatch-⟶ :
    (s : TcpState) (flags seq_num ack_num window : ℕ) (payload : List ℕ) (c : TcpConnection)
    → c.state ≡ s
    → s ⟶ (dispatch s flags seq_num ack_num window payload c).0.state
unfolding dispatch
dispatch-⟶ TcpState.established flags seq ack window payload c e =
    let d = take_data_state payload (take_ack flags ack window c) in
    let a = take_ack_state flags ack window c in
    unfold on_established take_fin in grind (arith, edges)
dispatch-⟶ TcpState.syn_sent flags seq ack window payload c e =
    unfold on_syn_sent in grind (arith, edges)
dispatch-⟶ TcpState.syn_received flags seq ack window payload c e =
    unfold on_syn_received in grind (arith, edges)
dispatch-⟶ TcpState.close_wait flags seq ack window payload c e = unfold on_close_wait in answered
dispatch-⟶ TcpState.fin_wait1 flags seq ack window payload c e =
    unfold on_fin_wait1 finish in grind (arith, edges)
dispatch-⟶ TcpState.fin_wait2 flags seq ack window payload c e =
    unfold finish in grind (arith, edges)
dispatch-⟶ TcpState.last_ack flags seq ack window payload c e =
    unfold on_last_ack in grind (arith, edges)
dispatch-⟶ TcpState.closing flags seq ack window payload c e =
    unfold on_closing in grind (arith, edges)
dispatch-⟶ TcpState.time_wait flags seq ack window payload c e = grind (arith, edges)
dispatch-⟶ TcpState.listen flags seq ack window payload c e = grind (arith, edges)
dispatch-⟶ TcpState.closed flags seq ack window payload c e = grind (arith, edges)

-- Every segment, in every state, follows an edge of the diagram or leaves the state as it is.
pub process_segment-⟶ :
    (now flags seq_num ack_num window : ℕ) (payload : List ℕ) (c : TcpConnection)
    → c.state ⟶ (process_segment now flags seq_num ack_num window payload c).0.state
unfolding process_segment update_activity
process_segment-⟶ now flags seq ack window payload c =
    dispatch-⟶ c.state flags seq ack window payload (update_activity now c) refl

-- One call on a connection: a segment arrives, the owner opens, sends or closes, the timer runs.
pub data Step (c c' : TcpConnection) : Type 0 where
  segment :
      (now flags seq_num ack_num window : ℕ) (payload : List ℕ)
      → c' ≡ (process_segment now flags seq_num ack_num window payload c).0
      → Step c c'
  open_active : (now : ℕ) → c' ≡ (build_syn now c).0 → Step c c'
  push : (bytes : List ℕ) → c' ≡ (send_data bytes c).0 → Step c c'
  shut : c' ≡ (close c).0 → Step c c'
  tick : (now : ℕ) → c' ≡ (check_retransmit now c).0 → Step c c'

pub data Reach (c : TcpConnection) : TcpConnection → Type 0 where
  here : Reach c c
  next : {d e : TcpConnection} → Reach c d → Step d e → Reach c e

-- the states that a connection opened by its owner goes through
abbrev pub IsUsual : TcpState → Type 0
IsUsual TcpState.closing = ⊥
IsUsual TcpState.listen = ⊥
IsUsual TcpState.syn_received = ⊥
IsUsual _ = Unit {0}

⟶-IsUsual : {s t : TcpState} → s ⟶ t → IsUsual s → IsUsual t
⟶-IsUsual stay u = u
⟶-IsUsual opened u = tt
⟶-IsUsual reset u = tt
⟶-IsUsual accepted u = tt
⟶-IsUsual peer_closed u = tt
⟶-IsUsual answered u = tt
⟶-IsUsual acked u = tt
⟶-IsUsual both_closed u = tt
⟶-IsUsual finished u = tt
⟶-IsUsual done u = tt
⟶-IsUsual crossed u = tt

calls-IsUsual :
    (now : ℕ) (bytes : List ℕ) (c : TcpConnection)
    → IsUsual c.state
    → IsUsual (build_syn now c).0.state
      × IsUsual (send_data bytes c).0.state
      × IsUsual (close c).0.state
      × IsUsual (check_retransmit now c).0.state
unfolding build_syn send_data close check_retransmit
calls-IsUsual now bytes c u = (ground arith, ground arith, ground arith, ground arith)

Step-IsUsual : (c d : TcpConnection) → Step c d → IsUsual c.state → IsUsual d.state
Step-IsUsual c d (segment now flags seq ack window payload e) u =
    rw e (⟶-IsUsual (process_segment-⟶ now flags seq ack window payload c) u)
Step-IsUsual c d (open_active now e) u = rw e (calls-IsUsual now [] c u).0
Step-IsUsual c d (push bytes e) u = rw e (calls-IsUsual 0 bytes c u).1
Step-IsUsual c d (shut e) u = rw e (calls-IsUsual 0 [] c u).2
Step-IsUsual c d (tick now e) u = rw e (calls-IsUsual now [] c u).3

-- The connection that a listener makes when a SYN arrives (kernel/src/net/mod.rs), and what it sends.
unfoldable pub incoming : SocketAddr → SocketAddr → ℕ → ℕ → ℕ → TcpConnection × Answer
incoming local remote isn seq_num now =
    let conn : TcpConnection = record (new local remote isn) {
      recv_seq = add32 seq_num 1;
      state = TcpState.syn_received;
    } in
    let counted : TcpConnection = record (update_activity now conn) {
      send_seq = add32 (update_activity now conn).send_seq 1;
    } in
    process_segment now (bit_or flag_syn flag_ack) seq_num 0 default_window [] counted

-- How a connection comes into the table: made for its owner, or by a listener.
pub data IsStart (c : TcpConnection) : Type 0 where
  made : (local remote : SocketAddr) (isn : ℕ) → c ≡ new local remote isn → IsStart c
  heard :
      (local remote : SocketAddr) (isn seq_num now : ℕ)
      → c ≡ (incoming local remote isn seq_num now).0
      → IsStart c

new-state : (local remote : SocketAddr) (isn : ℕ) → (new local remote isn).state ≡ TcpState.closed
unfolding new
new-state local remote isn = refl

-- The listener's own SYN and ACK go through the connection, which takes the ACK for the other side's.
incoming-state :
    (local remote : SocketAddr) (isn seq_num now : ℕ)
    → (incoming local remote isn seq_num now).0.state ≡ TcpState.established
unfolding incoming process_segment dispatch on_syn_received update_activity new has
incoming-state local remote isn seq_num now = refl

IsStart-IsUsual : (c : TcpConnection) → IsStart c → IsUsual c.state
IsStart-IsUsual c (made local remote isn e) = rw (e, new-state local remote isn) tt
IsStart-IsUsual c (heard local remote isn seq_num now e) =
    rw (e, incoming-state local remote isn seq_num now) tt

-- Take a connection as `new` makes it, or as a listener puts it into the table when a SYN arrives.
-- By no sequence of segments, of the owner's calls and of runs of the timer, which are the methods
-- of tcp.rs, does it come to CLOSING, LISTEN or SYN_RECEIVED.
pub Reach-IsUsual : {c d : TcpConnection} → IsStart c → Reach c d → IsUsual d.state
Reach-IsUsual s here = IsStart-IsUsual _ s
Reach-IsUsual s (next r t) = Step-IsUsual _ _ t (Reach-IsUsual s r)
