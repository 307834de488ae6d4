-- ===== src/Util/Klib/Move.antt =====
-- Copies in memory (kernel/src/util/klib.rs).
use elitra_os.Base.{
  ℕ, zero, suc, ◌+◌, ◌-◌, ◌≤◌, ◌≡◌, ◌⊎◌, Bool, ◌&&◌, ltb, leb, if◌then◌else◌, arith,
}
use elitra_os.Mm.Bitmap.{Memory, poke}
use elitra_os.Util.Klib.{copy_up, copy_down, memmove}

-- whether an address is one of the `n` from `s` on
abbrev pub inside : ℕ → ℕ → ℕ → Bool
inside s n a = leb s a && ltb a (s + n)

copy_up_lem :
    (mem : Memory) (dest src i n a : ℕ)
    → (dest ≤ src) ⊎ (src + i + n ≤ dest)
    → copy_up mem dest src i n a ≡ (if inside (dest + i) n a then mem (src + (a - dest)) else mem a)
unfolding copy_up
copy_up_lem mem dest src i zero a h = ground arith
copy_up_lem mem dest src i (suc n) a h =
    let mem' : Memory = poke mem (dest + i) (mem (src + i)) in
    ground (arith, h, copy_up_lem mem' dest src (i + 1) n a)

copy_down_lem :
    (mem : Memory) (dest src n a : ℕ)
    → src ≤ dest
    → copy_down mem dest src n a ≡ (if inside dest n a then mem (src + (a - dest)) else mem a)
unfolding copy_down
copy_down_lem mem dest src zero a h = ground arith
copy_down_lem mem dest src (suc n) a h =
    let mem' : Memory = poke mem (dest + n) (mem (src + n)) in
    ground (arith, h, copy_down_lem mem' dest src n a)

-- However the two ranges overlap, `memmove` puts the bytes that the source had before at the
-- destination, and changes nothing else.
pub memmove_lem :
    (mem : Memory) (dest src n a : ℕ)
    → memmove mem dest src n a ≡ (if inside dest n a then mem (src + (a - dest)) else mem a)
unfolding memmove
memmove_lem mem dest src n a =
    ground (arith, copy_up_lem mem dest src 0 n a, copy_down_lem mem dest src n a)
