-- ===== src/Util/Klib.antt =====
-- kernel/src/util/klib.rs: the routines on memory and on strings that end in a zero byte. A loop
-- that looks for the zero has fuel, `none` where it runs out; addresses do not wrap. `i32` results
-- are integers.
pub mod Move
pub mod Strings
pub mod Digits
use elitra_os.Base.{
  ℕ, zero, suc, ◌+◌, ◌-◌, ◌*◌, ◌/◌, ◌%◌, ◌^◌, Bool, true, false, ◌||◌, Option, none, some, List, [],
  ◌∷◌, ltb, leb, ◌==◌, if◌then◌else◌,
}
use elitra_os.Mm.Bitmap.{Memory, poke}

pub data ℤ : Type 0 where
  pos : ℕ → ℤ
  negsuc : ℕ → ℤ

-- `a as i32 - b as i32` of two bytes
unfoldable pub difference : ℕ → ℕ → ℤ
difference a b = if ltb a b then negsuc (b - a - 1) else pos (a - b)

-- the loop over `i..i + n`
unfoldable pub copy_up : Memory → ℕ → ℕ → ℕ → ℕ → Memory
copy_up mem dest src i zero = mem
copy_up mem dest src i (suc n) = copy_up (poke mem (dest + i) (mem (src + i))) dest src (i + 1) n

-- the loop from the end down
unfoldable pub copy_down : Memory → ℕ → ℕ → ℕ → Memory
copy_down mem dest src zero = mem
copy_down mem dest src (suc i) = copy_down (poke mem (dest + i) (mem (src + i))) dest src i

unfoldable pub memcpy : Memory → ℕ → ℕ → ℕ → Memory
memcpy mem dest src n = copy_up mem dest src 0 n

unfoldable pub memmove : Memory → ℕ → ℕ → ℕ → Memory
memmove mem dest src n = if ltb dest src then copy_up mem dest src 0 n else copy_down mem dest src n

unfoldable pub memset : Memory → ℕ → ℕ → ℕ → Memory
memset mem s c zero = mem
memset mem s c (suc n) = memset (poke mem s (c % 256)) (s + 1) c n

unfoldable pub memcmp : Memory → ℕ → ℕ → ℕ → ℤ
memcmp mem s₁ s₂ zero = pos 0
memcmp mem s₁ s₂ (suc n) =
    let rest = memcmp mem (s₁ + 1) (s₂ + 1) n in
    if mem s₁ == mem s₂ then rest else difference (mem s₁) (mem s₂)

unfoldable pub strlen : ℕ → Memory → ℕ → Option ℕ
strlen zero mem s = none
strlen (suc fuel) mem s =
    let rest : Option ℕ = elim (strlen fuel mem (s + 1)) [ none ↦ none | some n ↦ some (suc n) ] in
    if mem s == 0 then some 0 else rest

unfoldable pub strcmp : ℕ → Memory → ℕ → ℕ → Option ℤ
strcmp zero mem s₁ s₂ = none
strcmp (suc fuel) mem s₁ s₂ =
    let rest = strcmp fuel mem (s₁ + 1) (s₂ + 1) in
    if mem s₁ == mem s₂
    then if mem s₁ == 0 then some (pos 0) else rest
    else some (difference (mem s₁) (mem s₂))

unfoldable pub strncmp : Memory → ℕ → ℕ → ℕ → ℤ
strncmp mem s₁ s₂ zero = pos 0
strncmp mem s₁ s₂ (suc n) =
    let rest = strncmp mem (s₁ + 1) (s₂ + 1) n in
    if mem s₁ == mem s₂ then if mem s₁ == 0 then pos 0 else rest else difference (mem s₁) (mem s₂)

unfoldable pub strcpy : ℕ → Memory → ℕ → ℕ → Option Memory
strcpy zero mem dest src = none
strcpy (suc fuel) mem dest src =
    let mem' : Memory = poke mem dest (mem src) in
    let rest = strcpy fuel mem' (dest + 1) (src + 1) in if mem src == 0 then some mem' else rest

-- The zero that ends the copy is written again by the loop that pads.
unfoldable pub strncpy : Memory → ℕ → ℕ → ℕ → Memory
strncpy mem dest src zero = mem
strncpy mem dest src (suc n) =
    let mem' : Memory = poke mem dest (mem src) in
    let rest = strncpy mem' (dest + 1) (src + 1) n in
    if mem src == 0 then memset mem' dest 0 (suc n) else rest

unfoldable pub strcat : ℕ → Memory → ℕ → ℕ → Option Memory
strcat fuel mem dest src = elim (strlen fuel mem dest) [
  | none ↦ none
  | some n ↦ strcpy fuel mem (dest + n) src
]

-- The address, 0 for null; `c` is an i32 that is not negative.
unfoldable pub strchr : ℕ → Memory → ℕ → ℕ → Option ℕ
strchr zero mem s c = none
strchr (suc fuel) mem s c =
    let rest = strchr fuel mem (s + 1) c in
    if mem s == c then some s else if mem s == 0 then some 0 else rest

unfoldable pub digit_to_char : ℕ → ℕ
digit_to_char d = if ltb d 10 then 48 + d else 97 + (d - 10)

-- The digits of `x`, those written to `tmp` and read back from its end, put before `acc`.
unfoldable pub digits : ℕ → ℕ → ℕ → List ℕ → List ℕ
digits zero base x acc = acc
digits (suc fuel) base x acc =
    let rest = digits fuel base (x / base) (digit_to_char (x % base) ∷ acc) in
    if ltb 0 x then rest else acc

unfoldable pub usable_base : ℕ → ℕ
usable_base base = if ltb base 2 || ltb 36 base then 10 else base

-- The text of a u64, without the zero at its end; fuel for 64 bits.
unfoldable pub uitoa64_base : ℕ → ℕ → List ℕ
uitoa64_base num base = if num == 0 then 48 ∷ [] else digits 64 (usable_base base) num []

unfoldable pub uitoa_base : ℕ → ℕ → List ℕ
uitoa_base num base = uitoa64_base num base

unfoldable pub uitoa : ℕ → List ℕ
uitoa num = uitoa_base num 10

unfoldable pub itoa_base : ℤ → ℕ → List ℕ
itoa_base (pos n) base = uitoa_base n base
itoa_base (negsuc n) base = 45 ∷ digits 64 (usable_base base) (suc n) []

unfoldable pub itoa : ℤ → List ℕ
itoa num = itoa_base num 10

-- `n as i32` of a word, and its negation
unfoldable pub to_i32 : ℕ → ℤ
to_i32 n = if ltb n (2 ^ 31) then pos n else negsuc (2 ^ 32 - n - 1)

unfoldable pub negate : ℕ → ℕ
negate n = (2 ^ 32 - n) % 2 ^ 32

-- The loop over the digits; the end of the list is the zero byte.
unfoldable pub read_digits : ℕ → List ℕ → ℕ
read_digits n [] = n
read_digits n (b ∷ bs) =
    let rest = read_digits ((n * 10 + (b - 48)) % 2 ^ 32) bs in
    if ltb b 48 || ltb 57 b then n else rest

unfoldable pub read_sign : List ℕ → ℤ
read_sign [] = pos 0
read_sign (b ∷ bs) =
    if b == 45
    then to_i32 (negate (read_digits 0 bs))
    else if b == 43
    then to_i32 (read_digits 0 bs)
    else to_i32 (read_digits 0 (b ∷ bs))

unfoldable pub atoi : List ℕ → ℤ
atoi [] = pos 0
atoi (b ∷ bs) = let rest = atoi bs in if b == 32 || b == 9 then rest else read_sign (b ∷ bs)
