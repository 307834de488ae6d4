-- ===== src/Tests/Sockets.antt =====
-- Runs of the sockets (kernel/src/util/socket.rs) at concrete inputs.
use elitra_os.Base.{
  ℕ, ◌≡◌, none, some, [], ◌∷◌, ◌++◌, min, arith, length, replicate, length-replicate,
}
use elitra_os.Net.Wire.{Ip}
use elitra_os.Net.Socket.{Socket, datagram, SocketState, recv}
use elitra_os.Net.Socket.Queue.{IsSocket, pending, received, recv-pending}
use elitra_os.Net.Socket.Table.{Table, IsDistinct, holds, net_bind, net_bind-IsDistinct}

abbrev anywhere : Ip
anywhere = record { a = 0; b = 0; c = 0; d = 0 }

-- a datagram socket on port 68 with two bytes that wait
abbrev client : Socket
client = record {
  socket_type = datagram;
  state = SocketState.bound;
  local_addr = some (record { sin_port = 17408; sin_addr = anywhere });
  remote_addr = none;
  recv_buffer = 7 ∷ 9 ∷ replicate 4094 0;
  send_buffer = replicate 4096 0;
  recv_pos = 2;
  send_pos = 0;
  backlog = 0;
  error = none;
}

client-IsSocket : IsSocket client
client-IsSocket = record {
  buffer = omega (arith, length-replicate {A = ℕ} 4094 0);
  position = omega arith;
}

recv-pending_example :
    (received (recv 1 client).1 ++ pending (recv 1 client).0 ≡ pending client)
    × (length (received (recv 1 client).1) ≡ min 1 2)
    × IsSocket (recv 1 client).0
recv-pending_example = recv-pending 1 client client-IsSocket

abbrev table : Table
table = none ∷ some client ∷ none ∷ []

table-IsDistinct : IsDistinct table
unfolding holds
table-IsDistinct i j port ne e = ground (arith, ne, e)

net_bind-IsDistinct_example : IsDistinct (net_bind 1 67 table).0
net_bind-IsDistinct_example = net_bind-IsDistinct 1 67 table (omega arith) table-IsDistinct
