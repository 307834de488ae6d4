-- ===== src/Net/Socket/Queue.antt =====
-- The receive buffer of a socket is a queue of bytes (kernel/src/util/socket.rs).
use mathlib.Core.List.{append-nil}
use elitra_os.Base.{
  ℕ, zero, suc, ◌+◌, ◌-◌, ◌≤◌, ◌≡◌, ◌∙◌, refl, sym, ap, true, List, [], ◌∷◌, ◌++◌, length, take,
  drop, ltb, ◌==◌, if◌then◌else◌, min, arith, Bool-cases, inl, inr, length-append, length-take,
  length-drop,
}
use elitra_os.Net.Wire.{Ip, take-append_of}
use elitra_os.Net.Socket.{Socket, Result, ok, err, shift_down, recv, deliver}

-- The position stays inside the buffer of 4096 bytes.
pub record IsSocket (s : Socket) : Type 0 where
  pub buffer : length s.recv_buffer ≡ 4096
  pub position : s.recv_pos ≤ 4096

-- the bytes that have arrived and were not taken yet
abbrev pub pending : Socket → List ℕ
pending s = take s.recv_pos s.recv_buffer

take-nil : (n : ℕ) → take {A = ℕ} n [] ≡ []
take-nil zero = refl
take-nil (suc n) = refl

take-take-drop : (n m : ℕ) (xs : List ℕ) → take n xs ++ take m (drop n xs) ≡ take (n + m) xs
take-take-drop zero m xs = ap (λ k. take k xs) (omega arith)
take-take-drop (suc n) m [] = take-nil m ∙ sym (take-nil (suc n + m))
take-take-drop (suc n) m (x ∷ xs) =
    let e : suc (n + m) ≡ suc n + m = omega arith in
    ap (λ t. x ∷ t) (take-take-drop n m xs) ∙ ap (λ k. take k (x ∷ xs)) e

take-append-take :
    (n m : ℕ) (xs ys rest : List ℕ)
    → n ≡ length xs
    → m ≡ length ys
    → take (n + m) (xs ++ ys ++ rest) ≡ xs ++ ys
take-append-take n m xs ys rest e f =
    take-append_of (n + m) (xs ++ ys) rest (omega (arith, e, f, length-append xs ys))

-- what `take` and `drop` leave of a buffer is all of it
length-refill :
    (p n : ℕ) (xs ys : List ℕ)
    → n ≤ length ys
    → p + n ≤ length xs
    → length (take p xs ++ take n ys ++ drop (p + n) xs) ≡ length xs
length-refill p n xs ys h hp = omega (
  arith,
  length-append (take p xs ++ take n ys) (drop (p + n) xs),
  length-append (take p xs) (take n ys),
  length-take p xs,
  length-take n ys,
  length-drop (p + n) xs,
)

-- How many bytes of a payload there is room for.
abbrev pub accepted : List ℕ → Socket → ℕ
accepted payload s = min (length payload) (4096 - s.recv_pos)

-- The start of a buffer that was filled from `p` on.
take-refill :
    (p n : ℕ) (xs ys : List ℕ)
    → n ≤ length ys
    → p + n ≤ length xs
    → take (p + n) (take p xs ++ take n ys ++ drop (p + n) xs) ≡ take p xs ++ take n ys
take-refill p n xs ys h hp =
    take-append-take p n (take p xs) (take n ys) (drop (p + n) xs) (omega (arith, length-take p xs))
      (omega (arith, length-take n ys))

take-zero : (n : ℕ) (xs : List ℕ) → n ≡ 0 → take n xs ≡ []
take-zero n xs e = rw e refl

-- With the buffer of its size and the position inside, a delivered payload is put at the end of the
-- queue as far as there is room: the bytes that wait are afterwards those that waited before and
-- then the part that is accepted; the buffer keeps its size with the position inside.
pub deliver-pending :
    (payload : List ℕ) (src_ip : Ip) (dst_port : ℕ) (s : Socket)
    → IsSocket s
    → (pending (deliver payload src_ip dst_port s) ≡ pending s ++ take (accepted payload s) payload)
      × IsSocket (deliver payload src_ip dst_port s)
unfolding deliver
deliver-pending payload src_ip dst_port s h =
    let n : ℕ = accepted payload s in
    let e : length s.recv_buffer ≡ 4096 = h.buffer in
    let hp : s.recv_pos ≤ 4096 = h.position in
    let p : ℕ = s.recv_pos in
    elim (Bool-cases (ltb 0 n)) [
      | inl t ↦
          rw (e, t)
            (
              take-refill p n s.recv_buffer payload (omega arith) (omega arith),
              record {
                buffer = length-refill p n s.recv_buffer payload (omega arith) (omega arith) ∙ e;
                position = omega arith;
              },
            )
      | inr f ↦
          rw (e, f) (rw (take-zero n payload (ground (arith, f))) (sym (append-nil (pending s))), h)
    ]

-- What `recv` leaves at the front: the part of the queue after the first `n` bytes.
shifted : ℕ → ℕ → List ℕ → List ℕ
shifted n rest xs = if ltb 0 rest then shift_down n rest xs else xs

take-shifted :
    (n rest : ℕ) (xs : List ℕ)
    → n + rest ≤ length xs
    → (take rest (shifted n rest xs) ≡ take rest (drop n xs))
      × (length (shifted n rest xs) ≡ length xs)
unfolding shifted shift_down
take-shifted n zero xs h = (refl, refl)
take-shifted n (suc r) xs h =
    let e : length (take (suc r) (drop n xs)) ≡ suc r =
      omega (arith, length-take (suc r) (drop n xs), length-drop n xs) in
    let t : ltb 0 (suc r) ≡ true = ground arith in
    rw t (
      take-append_of (suc r) (take (suc r) (drop n xs)) (drop (suc r) xs) (sym e),
      omega (
        arith,
        e,
        length-drop (suc r) xs,
        length-append (take (suc r) (drop n xs)) (drop (suc r) xs),
      ),
    )

-- The bytes that a call of `recv` returns.
abbrev pub received : Result (List ℕ) → List ℕ
received (ok out) = out
received (err e) = []

-- With the buffer of its size and the position inside, `recv` takes from the front: what it returns
-- and then what still waits are what waited before, it returns the lesser of what waits and what
-- the caller has room for, and the buffer keeps its size with the position inside.
pub recv-pending :
    (size : ℕ) (s : Socket)
    → IsSocket s
    → (received (recv size s).1 ++ pending (recv size s).0 ≡ pending s)
      × (length (received (recv size s).1) ≡ min size s.recv_pos)
      × IsSocket (recv size s).0
unfolding recv shifted
recv-pending size s h =
    let p : ℕ = s.recv_pos in
    let n : ℕ = min size p in
    let hp : p ≤ 4096 = h.position in
    let e : length s.recv_buffer ≡ 4096 = h.buffer in
    let (front, size_kept) = take-shifted n (p - n) s.recv_buffer (omega arith) in
    let whole : n + (p - n) ≡ p = omega arith in
    elim (Bool-cases (p == 0)) [
      | inl t ↦ rw t (refl, ground (arith, t), h)
      | inr f ↦ rw f (
        rw front (take-take-drop n (p - n) s.recv_buffer ∙ ap (λ k. take k s.recv_buffer) whole),
        omega (arith, e, length-take n s.recv_buffer),
        record { buffer = size_kept ∙ e; position = omega arith },
      )
    ]
