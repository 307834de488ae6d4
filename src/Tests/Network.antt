-- ===== src/Tests/Network.antt =====
-- Runs of the network protocols (kernel/src/net) at concrete inputs.
use elitra_os.Base.{ℕ, ◌≡◌, refl, none, List, [], ◌∷◌, arith, take, replicate, length-replicate}
use elitra_os.Net.Wire.{Ip, octets, AllBytes}
use elitra_os.Net.Udp.{build_udp_packet, Verifies, not-Verifies-build_udp_packet}
use elitra_os.Net.Tcp.{TcpState, SocketAddr, TcpConnection, bytes_in_flight}
use elitra_os.Net.Tcp.Receive.{process_segment}
use elitra_os.Net.Tcp.Send.{send_data}
use elitra_os.Net.Tcp.Bounds.{IsBounded, process_segment-IsBounded}
use elitra_os.Net.Tcp.Graph.{here, next, push, heard, incoming, IsUsual, Reach-IsUsual}
use elitra_os.Net.Tcp.Life.{IsWaiting, time_out, time_out_gives_up}

abbrev home : Ip
home = record { a = 10; b = 0; c = 2; d = 15 }

abbrev gateway : Ip
gateway = record { a = 10; b = 0; c = 2; d = 2 }

abbrev slice : List ℕ
slice = replicate 64 0

abbrev greeting : List ℕ
greeting = 104 ∷ 105 ∷ 33 ∷ []

home-AllBytes : AllBytes (octets home)
home-AllBytes = (omega arith, (omega arith, (omega arith, (omega arith, tt))))

gateway-AllBytes : AllBytes (octets gateway)
gateway-AllBytes = (omega arith, (omega arith, (omega arith, (omega arith, tt))))

greeting-AllBytes : AllBytes greeting
greeting-AllBytes = (omega arith, (omega arith, (omega arith, tt)))

not-Verifies-build_udp_packet_example :
    let (bytes, n) = build_udp_packet slice 49152 53 greeting home gateway in
    ¬ (Verifies home gateway (take n bytes))
not-Verifies-build_udp_packet_example =
    not-Verifies-build_udp_packet slice greeting 49152 53 home gateway (omega arith) home-AllBytes
      gateway-AllBytes greeting-AllBytes (omega arith) (λ e. omega (arith, e))

abbrev here_addr : SocketAddr
here_addr = record { ip = home; port = 49152 }

abbrev there_addr : SocketAddr
there_addr = record { ip = gateway; port = 80 }

-- an established connection with three bytes in flight
abbrev talking : TcpConnection
talking = record {
  local_addr = here_addr;
  remote_addr = there_addr;
  state = TcpState.established;
  send_seq = 1004;
  send_unack = 1001;
  recv_seq = 501;
  send_window = 8192;
  recv_window = 8192;
  mss = 1460;
  retransmit_timeout = 1000;
  last_activity = 100;
  retransmit_count = 0;
  recv_buf = replicate 4096 0;
  recv_pos = 0;
  send_buf = replicate 4096 0;
  send_pos = 0;
  socket_fd = none;
}

talking-IsBounded : IsBounded talking
talking-IsBounded = record {
  buffer = length-replicate {A = ℕ} 4096 0;
  position = omega arith;
  send_seq_word = omega arith;
  send_unack_word = omega arith;
  recv_seq_word = omega arith;
  window_word = omega arith;
  timeout = omega arith;
}

process_segment-IsBounded_example :
    IsBounded (process_segment 120 24 501 1004 8192 greeting talking).0
process_segment-IsBounded_example =
    process_segment-IsBounded 120 24 501 1004 8192 greeting talking talking-IsBounded (omega arith)
      (omega arith) (omega arith)

-- a connection that a listener made, on which the owner sends
abbrev heard_one : TcpConnection
heard_one = (incoming here_addr there_addr 1000 7000 50).0

Reach-IsUsual_example : IsUsual (send_data greeting heard_one).0.state
Reach-IsUsual_example =
    Reach-IsUsual {c = heard_one} {d = (send_data greeting heard_one).0}
      (heard here_addr there_addr 1000 7000 50 refl) (next here (push greeting refl))

talking-IsWaiting : IsWaiting 0 talking
unfolding bytes_in_flight
talking-IsWaiting = record {
  still_open = refl;
  waits = λ e. omega (arith, e);
  used = refl;
  clock = omega arith;
}

time_out_gives_up_example :
    ((time_out 5 talking).state ≡ TcpState.established)
    × ((time_out 5 talking).retransmit_count ≡ 5)
    × ((time_out 6 talking).state ≡ TcpState.closed)
time_out_gives_up_example =
    time_out_gives_up 5 0 talking talking-IsWaiting (omega arith) (omega arith) refl
