-- ===== src/Net/Tcp/Stream.antt =====
-- What happens to the bytes of a connection, and how it opens and closes (kernel/src/net/tcp.rs).
use mathlib.Core.Option
use elitra_os.Base.{
  ℕ, zero, suc, ◌+◌, ◌-◌, ◌≤◌, ◌<◌, ◌≡◌, refl, ap, none, some, List, [], ◌∷◌, ◌++◌, length, take,
  replicate, arith, min, if◌then◌else◌, ltb, Bool-cases, inl, inr, length-append, length-take,
}
use mathlib.Core.List.{append-nil}
use Prim.Native.Nat.{bit_or}
use elitra_os.Net.Wire.{Ip, take-append_of}
use elitra_os.Net.Segment.{flag_psh, flag_ack, build_tcp_packet}
use elitra_os.Net.Tcp.{
  advertised_recv_window, TcpState, TcpConnection, add32, reply, bytes_in_flight,
}
use elitra_os.Net.Tcp.Receive.{store_data, take_data, write_at}
use elitra_os.Net.Tcp.Send.{send_data}
use elitra_os.Net.Tcp.Bounds.{IsBounded}

-- The bytes received and not yet read.
abbrev pub received : TcpConnection → List ℕ
received c = take c.recv_pos c.recv_buf

take-write_at :
    (buf : List ℕ) (start : ℕ) (bytes : List ℕ)
    → start ≤ length buf
    → take (start + length bytes) (write_at buf start bytes) ≡ take start buf ++ bytes
unfolding write_at
take-write_at buf start bytes h =
    take-append_of (start + length bytes) (take start buf ++ bytes) _
      (omega (arith, length-append (take start buf) bytes, length-take start buf))

take-nil : (n : ℕ) → take {A = ℕ} n [] ≡ []
take-nil zero = refl
take-nil (suc n) = refl

take-min : (xs : List ℕ) (n : ℕ) → take (min (length xs) n) xs ≡ take n xs
take-min xs n = take_below n xs (min (length xs) n) (omega arith)
  where
    take_below : (n : ℕ) (xs : List ℕ) (m : ℕ) → m ≡ min (length xs) n → take m xs ≡ take n xs
    take_below zero [] zero e = refl
    take_below zero [] (suc m) e = refl
    take_below (suc n) [] zero e = refl
    take_below (suc n) [] (suc m) e = refl
    take_below zero (x ∷ xs) zero e = refl
    take_below zero (x ∷ xs) (suc m) e = absurd (omega arith)
    take_below (suc n) (x ∷ xs) zero e = absurd (omega arith)
    take_below (suc n) (x ∷ xs) (suc m) e = ap (λ t. x ∷ t) (take_below n xs m (omega arith))

stored :
    (buf payload : List ℕ) (pos : ℕ)
    → pos ≤ length buf
    → let copy_len = min (length payload) (length buf - pos) in
      take (pos + copy_len) (write_at buf pos (take copy_len payload))
      ≡ take pos buf ++ take (length buf - pos) payload
stored buf payload pos h =
    let copy_len = min (length payload) (length buf - pos) in
    let n : length (take copy_len payload) ≡ copy_len =
      omega (arith, length-take copy_len payload) in
    rw (← take-min payload (length buf - pos))
      (rw n at (take-write_at buf pos (take copy_len payload) h))

store_data-received :
    (payload : List ℕ) (c : TcpConnection)
    → IsBounded c
    → received (store_data payload c) ≡ received c ++ take (4096 - c.recv_pos) payload
unfolding store_data
store_data-received payload c b =
    let copy_len = min (length payload) (length c.recv_buf - c.recv_pos) in
    let done = stored c.recv_buf payload c.recv_pos (omega arith) in
    elim (Bool-cases (ltb 0 copy_len)) [
      | inl some_room ↦ rw (some_room, ← b.buffer) done
      | inr full ↦
          let z : copy_len ≡ 0 = ground arith in
          rw (full, ← take-min payload (4096 - c.recv_pos), ← b.buffer, z)
            (rw append-nil (ap (λ n. take n c.recv_buf) (omega arith)))
    ]

-- Data that arrives on a connection within its bounds is stored behind what is there, as far as the
-- buffer goes; the number to acknowledge moves on by all of it, also by what did not fit.
pub take_data_lem :
    (payload : List ℕ) (c : TcpConnection)
    → IsBounded c
    → (received (take_data payload c).0 ≡ received c ++ take (4096 - c.recv_pos) payload)
      × ((take_data payload c).0.recv_seq ≡ add32 c.recv_seq (length payload))
unfolding take_data
take_data_lem [] c b = (rw (take-nil, append-nil), omega (arith, b.recv_seq_word))
take_data_lem (x ∷ xs) c b =
    (ground (arith, store_data-received (x ∷ xs) c b), unfold store_data in ground arith)

-- Data beyond the free space is dropped and yet acknowledged: fewer bytes are stored than the
-- sequence number moves on by.
pub take_data_loses :
    (payload : List ℕ) (c : TcpConnection)
    → IsBounded c
    → 4096 - c.recv_pos < length payload
    → (length (received (take_data payload c).0) < length (received c) + length payload)
      × ((take_data payload c).0.recv_seq ≡ add32 c.recv_seq (length payload))
take_data_loses payload c b h =
    let (kept, seq) = take_data_lem payload c b in
    (
      omega (
        arith,
        ap length kept,
        length-append (received c) (take (4096 - c.recv_pos) payload),
        length-take (4096 - c.recv_pos) payload,
      ),
      seq,
    )

-- If `send_data` gives out a packet of a connection within its bounds, the connection is
-- established, the packet is tagged with the number that was next, and no more is in flight after
-- it than the window of the peer.
pub send_data_window :
    (bytes packet : List ℕ) (tag : ℕ) (c : TcpConnection)
    → IsBounded c
    → (send_data bytes c).1 ≡ some (tag, packet)
    → (bytes_in_flight (send_data bytes c).0 ≤ c.send_window)
      × (tag ≡ c.send_seq)
      × (c.state ≡ TcpState.established)
unfolding send_data bytes_in_flight reply
send_data_window bytes packet tag c b h = ground arith

-- the bytes of a write that the window lets go
abbrev pub allowed : List ℕ → TcpConnection → ℕ
allowed bytes c = min (length bytes) (c.send_window - bytes_in_flight c)

packet_length :
    (src dest : Ip) (src_port dest_port seq ack flags window : ℕ) (payload : List ℕ)
    → (build_tcp_packet
        (replicate 200 0)
        src
        dest
        src_port
        dest_port
        seq
        ack
        flags
        window
        payload).1
      ≡ (if ltb 180 (length payload) then 0 else 20 + length payload)
unfolding build_tcp_packet
packet_length src dest src_port dest_port seq ack flags window payload =
    let size : length (replicate {A = ℕ} 200 0) ≡ 200 = refl in ground (arith, size)

-- On an established connection with room in the window, let `n` be the number of bytes given or
-- what the window has left, whichever is less. If `n` is above 180 the call sends nothing and
-- changes nothing, since a packet has 200 bytes; if not, the next number moves on by `n` and
-- nothing else changes, and the packet is tagged with the number that was next.
pub send_data_limit :
    (bytes : List ℕ) (c : TcpConnection)
    → c.state ≡ TcpState.established
    → bytes_in_flight c < c.send_window
    → ((send_data bytes c).0 ≡ (
        if ltb 180 (allowed bytes c)
        then c
        else record c { send_seq = add32 c.send_seq (allowed bytes c) }))
      × (Option.map (λ a. a.0) (send_data bytes c).1
          ≡ (if ltb 180 (allowed bytes c) then none else some c.send_seq))
unfolding send_data reply
send_data_limit bytes c e w =
    let n : ℕ = allowed bytes c in
    let len : length (take n bytes) ≡ n = omega (arith, length-take n bytes) in
    let built =
      packet_length c.local_addr.ip c.remote_addr.ip c.local_addr.port c.remote_addr.port c.send_seq
        c.recv_seq (bit_or flag_ack flag_psh) (advertised_recv_window c) (take n bytes) in
    (ground (arith, built, len, e, w), ground (arith, built, len, e, w))
