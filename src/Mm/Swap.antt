-- ===== src/Mm/Swap.antt =====
-- kernel/src/mm/swap.rs: the slots of the swap area and the page table entry of a page that is in
-- one. Bits of an entry are taken by division and remainder, `0x400` is bit 10. The answer of
-- `krust_malloc` is an argument, 0 the null pointer.
pub mod Entry
pub mod Slots
use elitra_os.Base.{
  ℕ, zero, suc, ◌+◌, ◌-◌, ◌*◌, ◌/◌, ◌%◌, ◌^◌, Bool, true, false, not, ◌&&◌, ◌||◌, Option, none,
  some, ltb, leb, ◌==◌, if◌then◌else◌,
}
use elitra_os.Mm.Bitmap.{Memory, poke, bit_at, set_at, clear_at}

abbrev pub sectors_per_page : ℕ
sectors_per_page = 8

abbrev pub max_swap_slots : ℕ
max_swap_slots = 4096

pub record Swap : Type 0 where
  pub ready : Bool
  pub drive : ℕ
  pub lba_start : ℕ
  pub total_slots : ℕ
  pub used : ℕ → Bool
  pub bitmap : ℕ
  pub bitmap_words : ℕ
  pub mem : Memory

unfoldable pub slot_test : Swap → ℕ → Bool
slot_test s slot =
    if s.bitmap == 0 || leb (s.bitmap_words * 8) (slot / 8)
    then false
    else bit_at s.mem s.bitmap slot

unfoldable pub slot_set : Swap → ℕ → Swap
slot_set s slot = if s.bitmap == 0 then s else record s {
  mem = set_at s.mem s.bitmap slot;
  used = λ i. if slot == i then true else s.used i;
}

unfoldable pub slot_clear : Swap → ℕ → Swap
slot_clear s slot = if s.bitmap == 0 then s else record s {
  mem = clear_at s.mem s.bitmap slot;
  used = λ i. if slot == i then false else s.used i;
}

-- The state after the call, and whether it returned 0.
unfoldable pub swap_init : Swap → ℕ → ℕ → ℕ → ℕ → Swap × Bool
swap_init s drive lba_start total_sectors bitmap =
    let total_slots = (total_sectors - sectors_per_page) / sectors_per_page in
    let bitmap_words = (total_slots + 63) / 64 in
    let zeroed : Memory =
      λ a. if leb bitmap a && ltb a (bitmap + bitmap_words * 8) then 0 else s.mem a in
    let made : Swap = record {
      ready = true;
      drive = drive;
      lba_start = lba_start;
      total_slots = total_slots;
      used = λ i. if ltb i total_slots then false else s.used i;
      bitmap = bitmap;
      bitmap_words = bitmap_words;
      mem = zeroed;
    } in
    if ltb total_sectors (sectors_per_page * 2)
    then (s, false)
    else if total_slots == 0 || ltb max_swap_slots total_slots
    then (s, false)
    else if bitmap == 0
    then (s, false)
    else (made, true)

-- the first free slot of the `n` from `i` on
unfoldable pub free_slot_from : Swap → ℕ → ℕ → Option ℕ
free_slot_from s i zero = none
free_slot_from s i (suc n) =
    let rest = free_slot_from s (i + 1) n in if slot_test s i then rest else some i

unfoldable pub swap_alloc_slot : Swap → Swap × Option ℕ
swap_alloc_slot s = elim (free_slot_from s 0 s.total_slots) [
  | none ↦ (s, none)
  | some slot ↦ (slot_set s slot, some slot)
]

unfoldable pub swap_free_slot : Swap → ℕ → Swap
swap_free_slot s slot = if ltb slot s.total_slots then slot_clear s slot else s

-- The first sector of the page that a read or a write is asked for, `none` where it is refused.
unfoldable pub page_lba : Swap → ℕ → Option ℕ
page_lba s slot =
    if not s.ready
    then none
    else if leb s.total_slots slot
    then none
    else some ((s.lba_start + sectors_per_page + slot * sectors_per_page) % 2 ^ 32)

unfoldable pub swap_is_pte : ℕ → Bool
swap_is_pte pte = pte % 2 == 0 && not (pte / 1024 % 2 == 0) && not (pte == 0)

unfoldable pub swap_pte_to_slot : ℕ → ℕ
swap_pte_to_slot pte = pte / 4096 % 2 ^ 20

unfoldable pub swap_slot_to_pte : ℕ → ℕ
swap_slot_to_pte slot = 1024 + slot % 2 ^ 20 * 4096

-- `pte & 0xFF0`
abbrev pub kept_flags : ℕ → ℕ
kept_flags pte = pte % 4096 / 16 * 16

-- `flags & !SWAP_PTE_MARKER`, and `pte | (flags & !0x1)` for an entry whose flags are the marker
abbrev pub without_marker : ℕ → ℕ
without_marker flags = if flags / 1024 % 2 == 0 then flags else flags - 1024

-- What `swap_evict_page` stores in place of the entry `old_pte`.
unfoldable pub evicted_pte : ℕ → ℕ → ℕ
evicted_pte slot old_pte = swap_slot_to_pte slot + without_marker (kept_flags old_pte)

-- What `swap_in_from_pte` stores in place of the entry `pte`, with the page at `phys`.
unfoldable pub restored_pte : ℕ → ℕ → ℕ
restored_pte phys pte = phys / 4096 % 2 ^ 40 * 4096 + without_marker (kept_flags pte) + 1
