-- ===== src/Tests/Swapping.antt =====
-- Runs of the swap area (kernel/src/mm/swap.rs) at concrete inputs.
use elitra_os.Base.{
  ℕ, ◌≤◌, ◌*◌, ◌/◌, zero, suc, ◌+◌, ◌%◌, ◌<◌, ◌≡◌, refl, true, false, some, ◌==◌, if◌then◌else◌,
  arith,
}
use elitra_os.Base.Bits.{test_bit}
use elitra_os.Mm.Bitmap.{bit_at}
use elitra_os.Mm.Swap.{
  Swap, slot_test, swap_init, page_lba, swap_is_pte, swap_pte_to_slot, kept_flags, without_marker,
  evicted_pte, restored_pte,
}
use elitra_os.Mm.Swap.Entry.{restored-evicted}
use elitra_os.Mm.Swap.Slots.{IsSwap, swap_init_lem}

restored-evicted_example :
    let pte = evicted_pte 77 0x8067 in
    let back = restored_pte 0x9000 pte in
    (swap_is_pte pte ≡ true)
    × (swap_pte_to_slot pte ≡ 77)
    × (back / 4096 * 4096 ≡ 0x9000)
    × (back % 4096 ≡ without_marker (kept_flags 0x8067) + 1)
    × (back / 2 % 2 ≡ 0)
    × (back / 4 % 2 ≡ 0)
restored-evicted_example = restored-evicted 77 0x8067 0x9000 (omega arith) (omega arith) refl

-- a swap area of 16 slots that is not started yet, and its start
abbrev area : Swap
area = record {
  ready = false;
  drive = 0;
  lba_start = 0;
  total_slots = 0;
  used = λ i. false;
  bitmap = 0;
  bitmap_words = 0;
  mem = λ a. 0;
}

area_started : (swap_init area 1 2048 136 4096).1 ≡ true
unfolding swap_init
area_started = refl

swap_init_lem_example :
    let t = (swap_init area 1 2048 136 4096).0 in
    IsSwap t
    × ((slot : ℕ)
        → slot < t.total_slots
        → (slot_test t slot ≡ false)
          × ((lba : ℕ) × (page_lba t slot ≡ some lba) × (2048 + 8 ≤ lba) × (lba + 8 ≤ 2048 + 136)))
swap_init_lem_example =
    swap_init_lem area 1 2048 136 4096 (λ a. omega arith) area_started (omega arith)

-- an area of two slots, the first of them used
abbrev pair_of_slots : Swap
pair_of_slots = record {
  ready = true;
  drive = 0;
  lba_start = 0;
  total_slots = 2;
  used = λ i. i == 0;
  bitmap = 4096;
  bitmap_words = 1;
  mem = λ a. if a == 4096 then 1 else 0;
}

pair_same : (i : ℕ) → i < 2 → pair_of_slots.used i ≡ slot_test pair_of_slots i
unfolding slot_test bit_at test_bit
pair_same zero h = refl
pair_same (suc zero) h = refl
pair_same (suc (suc i)) h = absurd (omega arith)
