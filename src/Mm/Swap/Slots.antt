-- ===== src/Mm/Swap/Slots.antt =====
-- The slots of the swap area (kernel/src/mm/swap.rs).
use elitra_os.Base.{
  ℕ, zero, suc, ◌+◌, ◌-◌, ◌*◌, ◌/◌, ◌%◌, ◌^◌, ◌≤◌, ◌<◌, ◌≡◌, ◌⊎◌, refl, true, false, ◌&&◌, ◌||◌,
  none, some, ltb, leb, ◌==◌, if◌then◌else◌, arith, Bool-cases, inl, inr,
}
use elitra_os.Mm.Bitmap.{
  Memory, IsBytes, bit_at, bit_at-set_at, bit_at-clear_at, set_at-IsBytes, clear_at-IsBytes,
}
use elitra_os.Base.Bits.{test_bit_zero}
use elitra_os.Mm.Swap.{
  sectors_per_page, max_swap_slots, Swap, slot_test, slot_set, slot_clear, swap_init,
  free_slot_from, swap_alloc_slot, swap_free_slot, page_lba,
}

-- The bitmap has a bit for every slot, at most 4096 of them, and the table beside it says the same.
pub record IsSwap (s : Swap) : Type 0 where
  pub present : 0 < s.bitmap
  pub covers : s.total_slots ≤ s.bitmap_words * 64
  pub bytes : IsBytes s.mem
  pub same : (i : ℕ) → i < s.total_slots → s.used i ≡ slot_test s i

slot_test-set :
    (s : Swap) (i j : ℕ)
    → IsSwap s
    → i < s.total_slots
    → slot_test (slot_set s i) j ≡ (if i == j then true else slot_test s j)
unfolding slot_test slot_set
slot_test-set s i j v h =
    ground (arith, v.present, v.covers, bit_at-set_at s.mem v.bytes s.bitmap i j)

slot_test-clear :
    (s : Swap) (i j : ℕ)
    → IsSwap s
    → i < s.total_slots
    → slot_test (slot_clear s i) j ≡ (if i == j then false else slot_test s j)
unfolding slot_test slot_clear
slot_test-clear s i j v h =
    ground (arith, v.present, v.covers, bit_at-clear_at s.mem v.bytes s.bitmap i j)

slot_set-IsSwap : (s : Swap) (i : ℕ) → IsSwap s → i < s.total_slots → IsSwap (slot_set s i)
unfolding slot_set
slot_set-IsSwap s i v h = record {
  present = ground (arith, v.present);
  covers = ground (arith, v.covers);
  bytes = λ a. ground (arith, v.present, v.bytes a, set_at-IsBytes s.mem v.bytes s.bitmap i a);
  same = λ j lt. ground (arith, v.present, slot_test-set s i j v h, v.same j);
}

slot_clear-IsSwap : (s : Swap) (i : ℕ) → IsSwap s → i < s.total_slots → IsSwap (slot_clear s i)
unfolding slot_clear
slot_clear-IsSwap s i v h = record {
  present = ground (arith, v.present);
  covers = ground (arith, v.covers);
  bytes = λ a. ground (arith, v.present, v.bytes a, clear_at-IsBytes s.mem v.bytes s.bitmap i a);
  same = λ j lt. ground (arith, v.present, slot_test-clear s i j v h, v.same j);
}

slot_set_fields : (s : Swap) (i : ℕ) → (slot_set s i).total_slots ≡ s.total_slots
unfolding slot_set
slot_set_fields s i = ground arith

-- What a search among the `n` slots from `i` on finds.
found_free :
    (s : Swap) (i n : ℕ)
    → ((free_slot_from s i n ≡ none) × ((j : ℕ) → i ≤ j → j < i + n → slot_test s j ≡ true))
      ⊎ ((slot : ℕ) × (free_slot_from s i n ≡ some slot)
          × (i ≤ slot)
          × (slot < i + n)
          × (slot_test s slot ≡ false))
unfolding free_slot_from
found_free s i zero = inl (refl, λ j l u. absurd (omega (arith, l, u)))
found_free s i (suc n) = elim (Bool-cases (slot_test s i)) [
  | inl t ↦ elim (found_free s (i + 1) n) [
    | inl h ↦ rw t (inl (h.0, λ j l u. grind (arith, t, h.1 j)))
    | inr h ↦ rw t (inr (h.0, h.1, omega (arith, h.2), omega (arith, h.3), h.4))
  ]
  | inr f ↦ rw f (inr (i, refl, omega arith, omega arith, f))
]

-- In an area that is in order, an allocation fails only if every slot is used, and then changes
-- nothing; otherwise it returns a free slot, marks it and no other, and leaves the area in order, and
-- freeing the slot makes every slot what it was before.
pub swap_alloc_slot_lem :
    (s : Swap)
    → IsSwap s
    → ((swap_alloc_slot s ≡ (s, none)) × ((j : ℕ) → j < s.total_slots → slot_test s j ≡ true))
      ⊎ ((slot : ℕ) × (t : Swap) × (swap_alloc_slot s ≡ (t, some slot))
          × (slot < s.total_slots)
          × (slot_test s slot ≡ false)
          × ((j : ℕ) → slot_test t j ≡ (if slot == j then true else slot_test s j))
          × IsSwap t
          × ((j : ℕ) → slot_test (swap_free_slot t slot) j ≡ slot_test s j))
unfolding swap_alloc_slot swap_free_slot
swap_alloc_slot_lem s v = elim (found_free s 0 s.total_slots) [
  | inl h ↦ inl (rw (h.0, swap_alloc_slot) refl, λ j l. h.1 j (omega arith) (omega arith))
  | inr h ↦
      let slot : ℕ = h.0 in
      let below : slot < s.total_slots = omega (arith, h.3) in
      let t : Swap = slot_set s slot in
      let order : IsSwap t = slot_set-IsSwap s slot v below in
      let total : t.total_slots ≡ s.total_slots = slot_set_fields s slot in
      let below_t : slot < t.total_slots = omega (arith, total, below) in
      inr (
        slot,
        t,
        rw (h.1, swap_alloc_slot) refl,
        below,
        h.4,
        (λ j. slot_test-set s slot j v below),
        order,
        λ j. ground (
          arith,
          below_t,
          h.4,
          slot_test-set s slot j v below,
          slot_test-clear t slot j order below_t,
        ),
      )
]

-- a bit of the bitmap after it was filled with zeros
fresh_bit :
    (mem : Memory) (bitmap words j : ℕ)
    → j < words * 64
    → bit_at (λ a. if leb bitmap a && ltb a (bitmap + words * 8) then 0 else mem a) bitmap j ≡ false
unfolding bit_at
fresh_bit mem bitmap words j h = ground (arith, h, test_bit_zero (j % 8))

-- After a successful start the swap area is in order with every slot free, and the eight sectors of
-- each slot lie between the first page of the area and its end, if the area ends below 2^32.
pub swap_init_lem :
    (s : Swap) (drive lba_start total_sectors bitmap : ℕ)
    → IsBytes s.mem
    → (swap_init s drive lba_start total_sectors bitmap).1 ≡ true
    → lba_start + total_sectors < 2 ^ 32
    → let t = (swap_init s drive lba_start total_sectors bitmap).0 in
      IsSwap t
      × ((slot : ℕ)
          → slot < t.total_slots
          → (slot_test t slot ≡ false)
            × ((lba : ℕ) × (page_lba t slot ≡ some lba)
                × (lba_start + 8 ≤ lba)
                × (lba + 8 ≤ lba_start + total_sectors)))
unfolding swap_init page_lba slot_test
swap_init_lem s drive lba_start total_sectors bitmap b h w =
    let slots : ℕ = (total_sectors - sectors_per_page) / sectors_per_page in
    let roomy : ltb total_sectors (sectors_per_page * 2) ≡ false = ground (arith, h) in
    let sized : (slots == 0 || ltb max_swap_slots slots) ≡ false = ground (arith, h) in
    let bit : (j : ℕ)
        → j < slots
        → bit_at
            (λ a. if leb bitmap a && ltb a (bitmap + (slots + 63) / 64 * 8) then 0 else s.mem a)
            bitmap j
          ≡ false =
      λ j lt. fresh_bit s.mem bitmap ((slots + 63) / 64) j (omega (arith, lt)) in
    let there : (bitmap == 0) ≡ false = ground (arith, h) in
    rw (roomy, sized, there)
      (
        record {
          present = ground (arith, there);
          covers = omega arith;
          bytes = λ a. ground (arith, b a);
          same = λ j lt. ground (arith, lt, bit j lt);
        },
        λ slot lt. (
          ground (arith, lt, bit slot lt),
          (lba_start + 8 + slot * 8, ground (arith, lt, w), omega arith, omega (arith, lt, w)),
        ),
      )
