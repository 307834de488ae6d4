-- ===== src/Net/Socket/Table.antt =====
-- The table of sockets (kernel/src/net/mod.rs).
use mathlib.Core.Option.{some-injective}
use elitra_os.Base.{
  ℕ, zero, suc, ◌+◌, ◌<◌, ◌≡◌, ◌≢◌, ◌∙◌, refl, sym, ap, Bool, true, false, Option, none, some, List,
  [], ◌∷◌, get_or, set, length, leb, ◌==◌, if◌then◌else◌, arith, Bool-cases, Option-cases, inl, inr,
  subst, ==_iff, get_or-set_self, get_or-set_ne,
}
use elitra_os.Net.Wire.{Ip}
use elitra_os.Net.Socket.{
  Socket, SocketType, stream, datagram, new_addr, port_be, new, bind, deliver,
}

abbrev pub Table : Type 0
Table = List (Option Socket)

abbrev pub slot : Table → ℕ → Option Socket
slot t i = get_or t i none

abbrev socket_type_of : ℕ → Option SocketType
socket_type_of n = if n == 1 then some stream else if n == 2 then some datagram else none

-- The table after a call and what it returned: `none` is -1.
unfoldable pub put_in : ℕ → SocketType → Table → Table × Option ℕ
put_in fd stype [] = ([], none)
put_in fd stype (none ∷ t) = (some (new stype) ∷ t, some fd)
put_in fd stype (some s ∷ t) = let (rest, r) = put_in (suc fd) stype t in (some s ∷ rest, r)

unfoldable pub net_socket : ℕ → Table → Table × Option ℕ
net_socket socket_type t = elim (socket_type_of socket_type) [
  | none ↦ (t, none)
  | some stype ↦ put_in 0 stype t
]

-- Whether a slot's socket has the local port.
unfoldable pub holds : ℕ → Option Socket → Bool
holds port none = false
holds port (some s) = elim s.local_addr [ none ↦ false | some addr ↦ port_be addr == port ]

-- Whether a slot other than `fd` has it, `i` the index of the first one.
unfoldable pub port_taken : ℕ → ℕ → ℕ → Table → Bool
port_taken i fd port [] = false
port_taken i fd port (s ∷ t) =
    let rest = port_taken (suc i) fd port t in
    if i == fd then rest else if holds port s then true else rest

-- A `sockfd` below 0 is, read as a u32, above every index. `none` is -1 as well as EADDRINUSE.
unfoldable pub net_bind : ℕ → ℕ → Table → Table × Bool
net_bind sockfd port t =
    let any : Ip = record { a = 0; b = 0; c = 0; d = 0 } in
    if leb 16 sockfd
    then (t, false)
    else if port_taken 0 sockfd port t
    then (t, false)
    else elim (slot t sockfd) [
      | none ↦ (t, false)
      | some sock ↦ (set t sockfd (some (bind (new_addr any port) sock)), true)
    ]

abbrev is_datagram : SocketType → Bool
is_datagram datagram = true
is_datagram stream = false

-- The first datagram socket with the port gets the payload.
unfoldable pub wants : ℕ → Option Socket → Bool
wants port none = false
wants port (some s) = if is_datagram s.socket_type then holds port (some s) else false

unfoldable pub deliver_udp_packet : ℕ → List ℕ → Ip → Table → Table
deliver_udp_packet dst_port payload src_ip [] = []
deliver_udp_packet dst_port payload src_ip (none ∷ t) =
    none ∷ deliver_udp_packet dst_port payload src_ip t
deliver_udp_packet dst_port payload src_ip (some s ∷ t) =
    let rest = deliver_udp_packet dst_port payload src_ip t in
    if wants dst_port (some s) then some (deliver payload src_ip dst_port s) ∷ t else some s ∷ rest

-- No two slots have the same local port.
abbrev pub IsDistinct : Table → Type 0
IsDistinct t = (i j port : ℕ) → i ≢ j → holds port (slot t i) ≡ true → holds port (slot t j) ≡ false

port_taken-holds :
    (i fd port : ℕ) (t : Table) (j : ℕ)
    → port_taken i fd port t ≡ false
    → i + j ≢ fd
    → holds port (slot t j) ≡ false
unfolding port_taken holds
port_taken-holds i fd port [] j h n = refl
port_taken-holds i fd port (s ∷ t) zero h n = elim (Bool-cases (holds port s)) [
  | inl e ↦ ground (arith, h, e, n)
  | inr e ↦ e
]
port_taken-holds i fd port (s ∷ t) (suc j) h n =
    port_taken-holds (suc i) fd port t j (ground (arith, h)) (λ e. n (omega (arith, e)))

-- `port_be` undoes what `new` does to the port.
port_be-new_addr : (ip : Ip) (port : ℕ) → port < 65536 → port_be (new_addr ip port) ≡ port
unfolding port_be new_addr
port_be-new_addr ip port h = omega arith

holds-bind :
    (s : Socket) (ip : Ip) (port q : ℕ)
    → port < 65536
    → holds q (some (bind (new_addr ip port) s)) ≡ true
    → q ≡ port
unfolding holds bind
holds-bind s ip port q hp h = ground (arith, h, port_be-new_addr ip port hp)

slot-length : (t : Table) (i : ℕ) (s : Socket) → slot t i ≡ some s → i < length t
slot-length [] i s e = cc
slot-length (o ∷ t) zero s e = omega arith
slot-length (o ∷ t) (suc i) s e = omega (arith, slot-length t i s e)

IsDistinct-set :
    (t : Table) (fd port : ℕ) (v : Option Socket)
    → fd < length t
    → port_taken 0 fd port t ≡ false
    → ((q : ℕ) → holds q v ≡ true → q ≡ port)
    → IsDistinct t
    → IsDistinct (set t fd v)
IsDistinct-set t fd port v h free only d i j q ne e = elim (Bool-cases (i == fd)) [
  | inl a ↦
      let ei : i ≡ fd = (==_iff i fd).0 a in
      let ev : holds q v ≡ true =
        ap (holds q) (sym (get_or-set_self t fd v none h))
        ∙ subst (λ k. holds q (slot (set t fd v) k) ≡ true) ei e in
      let nj : fd ≢ j = λ g. ne (ei ∙ g) in
      ap (holds q) (get_or-set_ne t fd j v none nj)
      ∙ subst (λ k. holds k (slot t j) ≡ false) (sym (only q ev))
          (port_taken-holds 0 fd port t j free (λ g. nj (omega (arith, g))))
  | inr a ↦
      let ni : fd ≢ i = λ g. ground (arith, a, g) in
      let ei : holds q (slot t i) ≡ true =
        ap (holds q) (sym (get_or-set_ne t fd i v none ni)) ∙ e in
      elim (Bool-cases (j == fd)) [
        | inl b ↦
            let ej : j ≡ fd = (==_iff j fd).0 b in
            elim (Bool-cases (holds q v)) [
              | inl y ↦
                  let no : holds q (slot t i) ≡ false =
                    subst (λ k. holds k (slot t i) ≡ false) (sym (only q y))
                      (port_taken-holds 0 fd port t i free (λ g. ni (omega (arith, g)))) in
                  cc
              | inr y ↦
                  ap (λ k. holds q (slot (set t fd v) k)) ej
                  ∙ ap (holds q) (get_or-set_self t fd v none h)
                  ∙ y
            ]
        | inr b ↦
            let nj : fd ≢ j = λ g. ground (arith, b, g) in
            ap (holds q) (get_or-set_ne t fd j v none nj) ∙ d i j q ne ei
      ]
]

-- If no two sockets of the table have the same local port, none do after a bind to a 16-bit port,
-- whatever the call returns.
pub net_bind-IsDistinct :
    (sockfd port : ℕ) (t : Table)
    → port < 65536
    → IsDistinct t
    → IsDistinct (net_bind sockfd port t).0
unfolding net_bind
net_bind-IsDistinct sockfd port t hp d = elim (Bool-cases (leb 16 sockfd)) [
  | inl a ↦ rw a d
  | inr a ↦ elim (Bool-cases (port_taken 0 sockfd port t)) [
    | inl b ↦ rw (a, b) d
    | inr b ↦ elim (Option-cases (slot t sockfd)) [
      | inl c ↦ rw (a, b, c) d
      | inr c ↦
          let any : Ip = record { a = 0; b = 0; c = 0; d = 0 } in
          let found : slot t sockfd ≡ some c.0 = c.1 in
          rw (a, b, found)
            (IsDistinct-set t sockfd port (some (bind (new_addr any port) c.0))
              (slot-length t sockfd c.0 found) b (λ q. holds-bind c.0 any port q hp) d)
    ]
  ]
]

wants-holds : (port : ℕ) (s : Socket) → wants port (some s) ≡ true → holds port (some s) ≡ true
unfolding wants
wants-holds port s w = ground (arith, w)

wants-false : (port : ℕ) (s : Socket) → holds port (some s) ≡ false → wants port (some s) ≡ false
unfolding wants
wants-false port s w = ground (arith, w)

tail-IsDistinct : (o : Option Socket) (t : Table) → IsDistinct (o ∷ t) → IsDistinct t
tail-IsDistinct o t d i j q ne e = d (suc i) (suc j) q (λ g. ne (omega (arith, g))) e

-- If no two sockets of the table have the same local port, a datagram for the port of a datagram
-- socket goes to that socket and changes no other.
pub deliver_udp_packet_lem :
    (t : Table) (port : ℕ) (payload : List ℕ) (src_ip : Ip) (i : ℕ) (s : Socket)
    → IsDistinct t
    → slot t i ≡ some s
    → wants port (some s) ≡ true
    → deliver_udp_packet port payload src_ip t ≡ set t i (some (deliver payload src_ip port s))
unfolding deliver_udp_packet
deliver_udp_packet_lem [] port payload src_ip i s d e w = cc
deliver_udp_packet_lem (none ∷ t) port payload src_ip zero s d e w = cc
deliver_udp_packet_lem (some x ∷ t) port payload src_ip zero s d e w =
    let x_s : x ≡ s = some-injective x s e in rw (x_s, w) refl
deliver_udp_packet_lem (none ∷ t) port payload src_ip (suc i) s d e w =
    ap (λ r. none ∷ r)
      (deliver_udp_packet_lem t port payload src_ip i s (tail-IsDistinct none t d) e w)
deliver_udp_packet_lem (some x ∷ t) port payload src_ip (suc i) s d e w =
    let h : holds port (slot t i) ≡ true = ap (holds port) e ∙ wants-holds port s w in
    let first : wants port (some x) ≡ false =
      wants-false port x (d (suc i) 0 port (λ g. omega (arith, g)) h) in
    rw first (
      ap (λ r. some x ∷ r)
        (deliver_udp_packet_lem t port payload src_ip i s (tail-IsDistinct (some x) t d) e w))
