-- ===== src/Net/Wire.antt =====
-- Packets as lists of bytes. The headers of kernel/src/net are packed structs written to the start
-- of a byte slice on a little-endian machine: a field stored through `to_be` puts its high byte
-- first, one stored plainly its low byte.
use elitra_os.Base.{
  ℕ, zero, suc, ◌+◌, ◌*◌, ◌/◌, ◌%◌, ◌^◌, ◌≤◌, ◌<◌, ◌≡◌, List, [], ◌∷◌, ◌++◌, length, get_or, take,
  drop, arith, length-append, length-drop, take-length_append,
}

abbrev pub u16_mod : ℕ
u16_mod = 2 ^ 16

abbrev pub u32_mod : ℕ
u32_mod = 2 ^ 32

-- `[uint8_t; 4]` and `[uint8_t; 6]`
pub record Ip : Type 0 where
  pub a : ℕ
  pub b : ℕ
  pub c : ℕ
  pub d : ℕ

pub record Mac : Type 0 where
  pub a : ℕ
  pub b : ℕ
  pub c : ℕ
  pub d : ℕ
  pub e : ℕ
  pub f : ℕ

abbrev pub octets : Ip → List ℕ
octets i = i.a ∷ i.b ∷ i.c ∷ i.d ∷ []

abbrev pub mac_bytes : Mac → List ℕ
mac_bytes m = m.a ∷ m.b ∷ m.c ∷ m.d ∷ m.e ∷ m.f ∷ []

-- the bytes of a field at offset `i`
abbrev pub byte : List ℕ → ℕ → ℕ
byte bs i = get_or bs i 0

-- `x.to_be()` stored, and `u16::from_be` of a field
abbrev pub be16 : ℕ → List ℕ
be16 x = (x / 256 % 256) ∷ (x % 256) ∷ []

abbrev pub read_be16 : List ℕ → ℕ → ℕ
read_be16 bs i = byte bs i * 256 + byte bs (suc i)

-- the same without `to_be`
abbrev pub le16 : ℕ → List ℕ
le16 x = (x % 256) ∷ (x / 256 % 256) ∷ []

abbrev pub read_le16 : List ℕ → ℕ → ℕ
read_le16 bs i = byte bs i + byte bs (suc i) * 256

abbrev pub be32 : ℕ → List ℕ
be32 x = (x / 2 ^ 24 % 256) ∷ (x / 2 ^ 16 % 256) ∷ (x / 256 % 256) ∷ (x % 256) ∷ []

abbrev pub read_be32 : List ℕ → ℕ → ℕ
read_be32 bs i =
    byte bs i * 2 ^ 24
    + byte bs (suc i) * 2 ^ 16
    + byte bs (suc (suc i)) * 256
    + byte bs (suc (suc (suc i)))

-- Writing `bs` over the start of a slice that is long enough.
unfoldable pub overwrite : List ℕ → List ℕ → List ℕ
overwrite bs packet = bs ++ drop (length bs) packet

pub take-overwrite : (bs packet : List ℕ) → take (length bs) (overwrite bs packet) ≡ bs
unfolding overwrite
take-overwrite bs packet = take-length_append bs (drop (length bs) packet)

-- Every element is a byte.
abbrev pub AllBytes : List ℕ → Type 0
AllBytes [] = Unit {0}
AllBytes (x ∷ xs) = (x < 256) × AllBytes xs

pub take-overwrite_of :
    (n : ℕ) (bs packet : List ℕ) → n ≡ length bs → take n (overwrite bs packet) ≡ bs
take-overwrite_of n bs packet e = rw e (take-overwrite bs packet)

-- The slice keeps its length.
pub length-overwrite :
    (bs packet : List ℕ) → length bs ≤ length packet → length (overwrite bs packet) ≡ length packet
unfolding overwrite
length-overwrite bs packet h =
    omega (arith, length-append bs (drop (length bs) packet), length-drop (length bs) packet)

-- What a parser does: it hands something over, refuses, or stops the kernel by a slice out of range.
pub data Parse {ℓ} (A : Type ℓ) : Type ℓ where
  parsed : A → Parse A
  refused : Parse A
  panics : Parse A

pub take-append_of : (n : ℕ) (bs rest : List ℕ) → n ≡ length bs → take n (bs ++ rest) ≡ bs
take-append_of n bs rest e = rw e (take-length_append bs rest)

pub AllBytes-byte : (bs : List ℕ) (i : ℕ) → AllBytes bs → byte bs i < 256
AllBytes-byte [] i h = omega arith
AllBytes-byte (x ∷ xs) zero h = h.0
AllBytes-byte (x ∷ xs) (suc i) h = AllBytes-byte xs i h.1
