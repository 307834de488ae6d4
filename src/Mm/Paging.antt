-- ===== src/Mm/Paging.antt =====
-- kernel/src/mm/paging.rs: the four levels of page tables. Physical memory is the 8-byte words by
-- their address, beside the frame allocator and the counts of shared frames; the address of the top
-- table is an argument, where the code takes it from cr3 or from its caller. Flags are put into an
-- entry beside an address with which they have no bit in common, so `|` is a sum; only the entries of
-- a page that is split, where nothing says so, have `bit_or`. The TLB is not modelled.
pub mod Entry
pub mod Levels
pub mod Make
pub mod Steps
pub mod Translate
pub mod Unmap
pub mod Resolve
use elitra_os.Base.{
  ℕ, ◌+◌, ◌-◌, ◌*◌, ◌/◌, ◌%◌, Bool, true, false, not, ◌&&◌, ◌||◌, Option, none, some, ltb, leb,
  ◌==◌, if◌then◌else◌,
}
use Prim.Native.Nat.{bit_or}
use elitra_os.Mm.Pmm.{Pmm, pmm_alloc_frame}
use elitra_os.Mm.Cow.{cow_refdec}
use elitra_os.Mm.Cow.{Cow, cow_refdec}

pub record Mmu : Type 0 where
  pub pmm : Pmm
  pub cow : Cow
  pub words : ℕ → ℕ

abbrev pub pml4_i : ℕ → ℕ
pml4_i v = v / 549755813888 % 512

abbrev pub pdp_i : ℕ → ℕ
pdp_i v = v / 1073741824 % 512

abbrev pub pd_i : ℕ → ℕ
pd_i v = v / 2097152 % 512

abbrev pub pt_i : ℕ → ℕ
pt_i v = v / 4096 % 512

unfoldable pub is_present : ℕ → Bool
is_present e = e % 2 == 1

-- bit 7, PS_2MB
unfoldable pub is_huge : ℕ → Bool
is_huge e = e / 128 % 2 == 1

-- bit 9, COW_BIT
unfoldable pub is_cow : ℕ → Bool
is_cow e = e / 512 % 2 == 1

-- `& PTE_MASK`: bits 12 to 51
unfoldable pub address_of : ℕ → ℕ
address_of e = e % 4503599627370496 / 4096 * 4096

-- `& FLAGS_MASK`: bits 0 to 11 and 63
unfoldable pub flags_of : ℕ → ℕ
flags_of e = e / 9223372036854775808 * 9223372036854775808 + e % 4096

-- `(phys & PTE_MASK) | (flags & FLAGS_MASK) | 1`
unfoldable pub page_entry : ℕ → ℕ → ℕ
page_entry phys flags = address_of phys + (flags_of flags / 2 * 2 + 1)

abbrev pub put_entry : (ℕ → ℕ) → ℕ → ℕ → ℕ → ℕ
put_entry words at v a = if a == at then v else words a

abbrev pub in_page : ℕ → ℕ → Bool
in_page page a = leb page a && ltb a (page + 4096)

-- a table, zeroed; `none` where there is no frame, or only frame 0, whose address is the null pointer
unfoldable pub table_alloc : Mmu → Mmu × Option ℕ
table_alloc s =
    let (pmm, got) = pmm_alloc_frame s.pmm in
    elim got [
      | none ↦ (record s { pmm = pmm }, none)
      | some f ↦
          let zeroed : ℕ → ℕ = λ a. if in_page (f * 4096) a then 0 else s.words a in
          let made : Mmu = record s { pmm = pmm; words = zeroed } in
          (made, if f == 0 then none else some (f * 4096))
    ]

-- The table below the entry at address `at`, made where the entry is not present.
unfoldable pub ensure_table : Mmu → ℕ → Mmu × Bool
ensure_table s at =
    let (t, got) = table_alloc s in
    let made : Mmu × Bool = elim got [
      | none ↦ (t, false)
      | some nt ↦ (record t { words = put_entry t.words at (nt + 3) }, true)
    ] in
    if is_present (s.words at) then (s, true) else made

-- of an entry all but the address, bit 7 and bit 0
unfoldable pub split_flags : ℕ → ℕ
split_flags e = e / 4503599627370496 * 4503599627370496 + e % 4096 / 256 * 256 + e % 128 / 2 * 2

-- A huge page is mapped as 512 pages instead.
unfoldable pub split_page : Mmu → ℕ → Mmu × Bool
split_page s at =
    let e = s.words at in
    let (t, got) = table_alloc s in
    let split : Mmu × Bool = elim got [
      | none ↦ (t, false)
      | some nt ↦
          let filled : ℕ → ℕ = λ a.
            if in_page nt a && a % 8 == 0
            then bit_or (bit_or (address_of e + (a - nt) / 8 * 4096) (split_flags e)) 1
            else t.words a in
          (record t { words = put_entry filled at (nt + 3) }, true)
    ] in
    if is_huge e then split else (s, true)

abbrev pub entry_at : ℕ → ℕ → ℕ
entry_at table i = table + 8 * i

unfoldable pub map_last : Mmu → ℕ → ℕ → ℕ → ℕ → Mmu
map_last s e2 virt phys flags =
    let e1 = entry_at (address_of (s.words e2)) (pt_i virt) in
    record s { words = put_entry s.words e1 (page_entry phys flags) }

unfoldable pub map_from_pd : Mmu → ℕ → ℕ → ℕ → ℕ → Mmu × Bool
map_from_pd s e3 virt phys flags =
    let e2 = entry_at (address_of (s.words e3)) (pd_i virt) in
    let (s2, there) = ensure_table s e2 in
    let (s1, whole) = split_page s2 e2 in
    if not there
    then (s2, false)
    else if not whole
    then (s1, false)
    else (map_last s1 e2 virt phys flags, true)

unfoldable pub map_from_pdp : Mmu → ℕ → ℕ → ℕ → ℕ → Mmu × Bool
map_from_pdp s e4 virt phys flags =
    let e3 = entry_at (address_of (s.words e4)) (pdp_i virt) in
    let (s3, there) = ensure_table s e3 in
    let rest = map_from_pd s3 e3 virt phys flags in if there then rest else (s3, false)

unfoldable pub map_page_in : Mmu → ℕ → ℕ → ℕ → ℕ → Mmu × Bool
map_page_in s pml4 virt phys flags =
    let e4 = entry_at pml4 (pml4_i virt) in
    let (s4, there) = ensure_table s e4 in
    let rest = map_from_pdp s4 e4 virt phys flags in if there then rest else (s4, false)

-- What an entry of the table of 2 MB leads to: nothing, a page of 2 MB, or a table.
pub data Leaf : Type 0 where
  absent : Leaf
  huge table : ℕ → Leaf

unfoldable pub leaf_of : ℕ → ℕ → Leaf
leaf_of at e =
    if not (is_present e) then absent else if is_huge e then huge at else table (address_of e)

-- The walk that unmap, get_phys and cow_resolve begin with.
unfoldable pub walk : Mmu → ℕ → ℕ → Leaf
walk s pml4 virt =
    let e4 = entry_at pml4 (pml4_i virt) in
    let e3 = entry_at (address_of (s.words e4)) (pdp_i virt) in
    let e2 = entry_at (address_of (s.words e3)) (pd_i virt) in
    if not (is_present (s.words e4))
    then absent
    else if not (is_present (s.words e3))
    then absent
    else leaf_of e2 (s.words e2)

unfoldable pub unmap_page : Mmu → ℕ → ℕ → Mmu
unmap_page s pml4 virt = elim (walk s pml4 virt) [
  | absent ↦ s
  | huge at ↦ record s { words = put_entry s.words at 0 }
  | table t ↦ record s { words = put_entry s.words (entry_at t (pt_i virt)) 0 }
]

unfoldable pub get_phys : Mmu → ℕ → ℕ → Option ℕ
get_phys s pml4 virt = elim (walk s pml4 virt) [
  | absent ↦ none
  | huge at ↦ some (bit_or (address_of (s.words at)) (virt % 2097152))
  | table t ↦
      let e = s.words (entry_at t (pt_i virt)) in
      if is_present e then some (address_of e + virt % 4096) else none
]

-- A page shared copy-on-write, as the entry of the one who has it alone.
unfoldable pub owned_entry : ℕ → ℕ
owned_entry e = address_of e + (flags_of e / 1024 * 1024 + flags_of e % 512 / 4 * 4 + 3)

-- the 512 words of a page copied
unfoldable pub copy_page : (ℕ → ℕ) → ℕ → ℕ → ℕ → ℕ
copy_page words to from a = if in_page to a then words (from + (a - to)) else words a

unfoldable pub copy_shared : Mmu → ℕ → ℕ → Mmu × Bool
copy_shared s at page =
    let (pmm, got) = pmm_alloc_frame s.pmm in
    elim got [
      | none ↦ (record s { pmm = pmm }, false)
      | some f ↦
          let copied = copy_page s.words (f * 4096) page in
          (record s { pmm = pmm; words = put_entry copied at (address_of (f * 4096) + 7) }, true)
    ]

unfoldable pub resolve_entry : Mmu → ℕ → Mmu × Bool
resolve_entry s at =
    let e = s.words at in
    let (cow, refs) = cow_refdec s.cow (address_of e / 4096 % 4294967296) in
    let counted : Mmu = record s { cow = cow } in
    let owned : Mmu = record counted { words = put_entry s.words at (owned_entry e) } in
    let copied = copy_shared counted at (address_of e) in
    if not (is_present e)
    then (s, false)
    else if not (is_cow e)
    then (s, false)
    else if refs == 0
    then (owned, true)
    else copied

unfoldable pub cow_resolve_page : Mmu → ℕ → ℕ → Mmu × Bool
cow_resolve_page s pml4 addr = elim (walk s pml4 addr) [
  | absent ↦ (s, false)
  | huge at ↦ (s, false)
  | table t ↦ resolve_entry s (entry_at t (pt_i addr))
]
