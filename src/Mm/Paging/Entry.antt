-- ===== src/Mm/Paging/Entry.antt =====
-- The fields of an entry (kernel/src/mm/paging.rs).
use elitra_os.Base.{ℕ, ◌+◌, ◌%◌, ◌<◌, ◌≡◌, true, false, arith}
use elitra_os.Mm.Paging.{is_present, is_huge, address_of, flags_of, page_entry, entry_at}

-- the entry of a table
module _ (nt : ℕ) (aligned : nt % 4096 ≡ 0) (low : nt < 4503599627370496) where
  pub address_of_link : address_of (nt + 3) ≡ nt
  unfolding address_of
  address_of_link = omega (arith, aligned, low)

  pub is_present_link : is_present (nt + 3) ≡ true
  unfolding is_present
  is_present_link = ground (arith, aligned)

  pub is_huge_link : is_huge (nt + 3) ≡ false
  unfolding is_huge
  is_huge_link = ground (arith, aligned)

pub address_of-page_entry : (phys flags : ℕ) → address_of (page_entry phys flags) ≡ address_of phys
unfolding address_of page_entry flags_of
address_of-page_entry phys flags = omega arith

pub is_present-page_entry : (phys flags : ℕ) → is_present (page_entry phys flags) ≡ true
unfolding is_present page_entry address_of
is_present-page_entry phys flags = ground arith

-- entries of two tables
pub entry_at-inj :
    (t u i j : ℕ)
    → t % 4096 ≡ 0
    → u % 4096 ≡ 0
    → i < 512
    → j < 512
    → entry_at t i ≡ entry_at u j
    → (t ≡ u) × (i ≡ j)
entry_at-inj t u i j a b l m e = (omega (arith, a, b, l, m, e), omega (arith, a, b, l, m, e))
