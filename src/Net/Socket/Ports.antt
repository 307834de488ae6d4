-- ===== src/Net/Socket/Ports.antt =====
-- The ephemeral ports (`allocate_ephemeral_port` in kernel/src/net/mod.rs).
use elitra_os.Base.{ℕ, ◌+◌, ◌%◌, ◌≤◌, ◌<◌, ◌≡◌, ◌≢◌, ltb, if◌then◌else◌, arith}
use elitra_os.Net.Wire.{u16_mod}

-- The counter is a u16 and `fetch_add` wraps; the port and the counter's next value.
unfoldable pub allocate_ephemeral_port : ℕ → ℕ × ℕ
allocate_ephemeral_port next =
    if ltb next 49152 then (49152, 49152) else (next, (next + 1) % u16_mod)

-- What is allocated is a port of the ephemeral range, and the counter stays a u16.
pub allocate_ephemeral_port_range :
    (next : ℕ)
    → next < 65536
    → (49152 ≤ (allocate_ephemeral_port next).0)
      × ((allocate_ephemeral_port next).0 < 65536)
      × ((allocate_ephemeral_port next).1 < 65536)
unfolding allocate_ephemeral_port
allocate_ephemeral_port_range next h = ground arith

-- The port that the counter gives after the one that `next` gives.
abbrev pub following_port : ℕ → ℕ
following_port next = (allocate_ephemeral_port (allocate_ephemeral_port next).1).0

-- Two ports allocated one after the other differ as long as the counter is in the range; once it
-- has wrapped round, below the range, the two are the same port.
pub allocate_ephemeral_port_repeats :
    (next : ℕ)
    → next < 65536
    → (49152 ≤ next → following_port next ≢ (allocate_ephemeral_port next).0)
      × (next < 49152 → following_port next ≡ (allocate_ephemeral_port next).0)
unfolding allocate_ephemeral_port
allocate_ephemeral_port_repeats next h = (λ g. ground arith, λ g. ground arith)
