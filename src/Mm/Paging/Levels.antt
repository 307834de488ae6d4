-- ===== src/Mm/Paging/Levels.antt =====
-- The tables that the entries lead to stand on four levels.
use elitra_os.Base.{
  ℕ, suc, ◌+◌, ◌*◌, ◌/◌, ◌%◌, ◌≤◌, ◌<◌, ◌≡◌, ◌≢◌, ◌⊎◌, ◌∙◌, inl, inr, ap, sym, true, false, arith,
  ◌==◌, if◌then◌else◌, Bool-cases,
}
use elitra_os.Mm.Pmm.{bitmap_test}
use elitra_os.Mm.Pmm.Alloc.{IsSound, Grants}
use elitra_os.Mm.Paging.{Mmu, is_present, is_huge, address_of, entry_at}
use elitra_os.Mm.Paging.Entry.{address_of_link, is_present_link, is_huge_link, entry_at-inj}

-- `level` gives the level of a table, from 4 down to 1, by its address, and 0 for any other address.
pub record IsLevelled (s : Mmu) (level : ℕ → ℕ) : Type 0 where
  pub sound : IsSound s.pmm
  pub small : s.pmm.total_frames ≤ 1099511627776
  pub aligned : (t : ℕ) → level t ≢ 0 → t % 4096 ≡ 0
  pub low : (t : ℕ) → level t ≢ 0 → t < 4503599627370496
  pub used : (t : ℕ) → level t ≢ 0 → bitmap_test s.pmm (t / 4096) ≡ true
  pub down :
      (t i k : ℕ)
      → level t ≡ suc (suc k)
      → i < 512
      → is_present (s.words (entry_at t i)) ≡ true
      → is_huge (s.words (entry_at t i)) ≡ false
      → level (address_of (s.words (entry_at t i))) ≡ suc k
  pub flat :
      (t i k : ℕ)
      → level t ≡ suc (suc (suc k))
      → i < 512
      → is_present (s.words (entry_at t i)) ≡ true
      → is_huge (s.words (entry_at t i)) ≡ false

-- the levels with one more table
abbrev pub with_table : (ℕ → ℕ) → ℕ → ℕ → ℕ → ℕ
with_table level nt k t = if t == nt then k else level t

-- A new table hangs on the entry `i` of the table `t`.
pub record Links (s s' : Mmu) (level : ℕ → ℕ) (t i f k : ℕ) : Type 0 where
  pub grants : Grants s.pmm f s'.pmm
  pub parent : level t ≡ suc (suc k)
  pub place : i < 512
  pub linked : s'.words (entry_at t i) ≡ f * 4096 + 3
  pub kept :
      (u j : ℕ)
      → level u ≢ 0
      → j < 512
      → entry_at u j ≢ entry_at t i
      → s'.words (entry_at u j) ≡ s.words (entry_at u j)
  pub empty :
      (j n : ℕ) → k ≡ suc n → j < 512 → is_present (s'.words (entry_at (f * 4096) j)) ≡ false

module _ (s s' : Mmu) (level : ℕ → ℕ) (t i f k : ℕ) (v : IsLevelled s level)
    (l : Links s s' level t i f k) where
  fresh : level (f * 4096) ≡ 0
  fresh = elim (Bool-cases (level (f * 4096) == 0)) [
    | inl e ↦ ground (arith, e)
    | inr e ↦
        let in_use = v.used (f * 4096) (λ g. ground (arith, e, g)) in
        let here : f * 4096 / 4096 ≡ f = omega arith in
        absurd (ground (arith, ap (bitmap_test s.pmm) here, in_use, l.grants.was_free))
  ]

  frame_low : f * 4096 < 4503599627370496
  frame_low = omega (arith, l.grants.in_range, v.small)

  other : (u : ℕ) → level u ≢ 0 → u ≢ f * 4096
  other u n e = n (ap level e ∙ fresh)

  pub old_level : (u : ℕ) → level u ≢ 0 → with_table level (f * 4096) (suc k) u ≡ level u
  old_level u n = let ne = other u n in ground (arith, ne)

  pub new_level : with_table level (f * 4096) (suc k) (f * 4096) ≡ suc k
  new_level = ground arith

  after : ℕ → ℕ
  after = with_table level (f * 4096) (suc k)

  t_known : level t ≢ 0
  t_known e = ground (arith, l.parent, e)

  is_new : (u : ℕ) → (u ≡ f * 4096) ⊎ ((u ≢ f * 4096) × (after u ≡ level u))
  unfolding after
  is_new u = elim (Bool-cases (u == f * 4096)) [
    | inl e ↦ inl (ground (arith, e))
    | inr e ↦ inr ((λ g. ground (arith, e, g)), ground (arith, e))
  ]

  -- an entry of an old table: the new link, or what it was
  old_entry :
      (u j : ℕ)
      → level u ≢ 0
      → j < 512
      → ((u ≡ t) × (s'.words (entry_at u j) ≡ f * 4096 + 3))
        ⊎ (s'.words (entry_at u j) ≡ s.words (entry_at u j))
  old_entry u j n b = elim (Bool-cases (entry_at u j == entry_at t i)) [
    | inl e ↦
        let same : entry_at u j ≡ entry_at t i = ground (arith, e) in
        let (ut, ij) = entry_at-inj u t j i (v.aligned u n) (v.aligned t t_known) b l.place same in
        inl (ut, ap s'.words same ∙ l.linked)
    | inr e ↦ inr (l.kept u j n b (λ g. ground (arith, e, g)))
  ]

  no_entry :
      (u j n : ℕ)
      → u ≡ f * 4096
      → after u ≡ suc (suc n)
      → j < 512
      → is_present (s'.words (entry_at u j)) ≡ true
      → ⊥
  unfolding after
  no_entry u j n e h b p =
      let deep : k ≡ suc n = ground (arith, ap after e, new_level, h) in
      let off = l.empty j n deep b in
      let here : is_present (s'.words (entry_at u j)) ≡ false =
        ap (λ x. is_present (s'.words (entry_at x j))) e ∙ off in
      cc

  linked_address :
      (u j : ℕ)
      → s'.words (entry_at u j) ≡ f * 4096 + 3
      → address_of (s'.words (entry_at u j)) ≡ f * 4096
  linked_address u j e = ap address_of e ∙ address_of_link (f * 4096) (omega arith) frame_low

  linked_flat :
      (u j : ℕ) → s'.words (entry_at u j) ≡ f * 4096 + 3 → is_huge (s'.words (entry_at u j)) ≡ false
  linked_flat u j e = ap is_huge e ∙ is_huge_link (f * 4096) (omega arith) frame_low

  down_after :
      (u j n : ℕ)
      → after u ≡ suc (suc n)
      → j < 512
      → is_present (s'.words (entry_at u j)) ≡ true
      → is_huge (s'.words (entry_at u j)) ≡ false
      → after (address_of (s'.words (entry_at u j))) ≡ suc n
  unfolding after
  down_after u j n h b p q = elim (is_new u) [
    | inl e ↦ absurd (no_entry u j n e h b p)
    | inr (ne, same) ↦
        let known : level u ≡ suc (suc n) = sym same ∙ h in
        let n0 : level u ≢ 0 = λ g. ground (arith, known, g) in
        elim (old_entry u j n0 b) [
          | inl (ut, e) ↦
              let same_level : suc k ≡ suc n = ground (arith, known, ap level ut, l.parent) in
              ap after (linked_address u j e) ∙ new_level ∙ same_level
          | inr e ↦
              let d = v.down u j n known b (sym (ap is_present e) ∙ p) (sym (ap is_huge e) ∙ q) in
              let kept =
                old_level (address_of (s.words (entry_at u j))) (λ g. ground (arith, d, g)) in
              ap (λ w. after (address_of w)) e ∙ kept ∙ d
        ]
  ]

  flat_after :
      (u j n : ℕ)
      → after u ≡ suc (suc (suc n))
      → j < 512
      → is_present (s'.words (entry_at u j)) ≡ true
      → is_huge (s'.words (entry_at u j)) ≡ false
  flat_after u j n h b p = elim (is_new u) [
    | inl e ↦ absurd (no_entry u j (suc n) e h b p)
    | inr (ne, same) ↦
        let known : level u ≡ suc (suc (suc n)) = sym same ∙ h in
        let n0 : level u ≢ 0 = λ g. ground (arith, known, g) in
        elim (old_entry u j n0 b) [
          | inl (ut, e) ↦ linked_flat u j e
          | inr e ↦ ap is_huge e ∙ v.flat u j n known b (sym (ap is_present e) ∙ p)
        ]
  ]

  aligned_after : (u : ℕ) → after u ≢ 0 → u % 4096 ≡ 0
  aligned_after u n = elim (is_new u) [
    | inl e ↦ omega (arith, e)
    | inr (ne, same) ↦ v.aligned u (λ g. n (same ∙ g))
  ]

  low_after : (u : ℕ) → after u ≢ 0 → u < 4503599627370496
  low_after u n = elim (is_new u) [
    | inl e ↦ omega (arith, e, frame_low)
    | inr (ne, same) ↦ v.low u (λ g. n (same ∙ g))
  ]

  used_after : (u : ℕ) → after u ≢ 0 → bitmap_test s'.pmm (u / 4096) ≡ true
  used_after u n = elim (is_new u) [
    | inl e ↦
        let here : f ≡ u / 4096 = omega (arith, e) in
        l.grants.marked (u / 4096) ∙ ground (arith, here)
    | inr (ne, same) ↦
        let in_use = v.used u (λ g. n (same ∙ g)) in
        l.grants.marked (u / 4096) ∙ ground (arith, in_use)
  ]

  pub Links-IsLevelled : IsLevelled s' (with_table level (f * 4096) (suc k))
  unfolding after
  Links-IsLevelled = record {
    sound = l.grants.sound;
    small = rw (l.grants.frames) (v.small);
    aligned = aligned_after;
    low = low_after;
    used = used_after;
    down = down_after;
    flat = flat_after;
  }

-- An entry of a table that has a table below: the levels from there on, and every other entry as it was.
pub record Opens (s s' : Mmu) (level level' : ℕ → ℕ) (t i k : ℕ) : Type 0 where
  pub levelled : IsLevelled s' level'
  pub extends : (u : ℕ) → level u ≢ 0 → level' u ≡ level u
  pub present : is_present (s'.words (entry_at t i)) ≡ true
  pub kept :
      (u j : ℕ)
      → level u ≢ 0
      → j < 512
      → entry_at u j ≢ entry_at t i
      → s'.words (entry_at u j) ≡ s.words (entry_at u j)

pub Links-Opens :
    (s s' : Mmu) (level : ℕ → ℕ) (t i f k : ℕ)
    → IsLevelled s level
    → Links s s' level t i f k
    → Opens s s' level (with_table level (f * 4096) (suc k)) t i k
      × (is_huge (s'.words (entry_at t i)) ≡ false)
Links-Opens s s' level t i f k v l =
    let low : f * 4096 < 4503599627370496 = omega (arith, l.grants.in_range, v.small) in
    (
      record {
        levelled = Links-IsLevelled s s' level t i f k v l;
        extends = old_level s s' level t i f k v l;
        present = ap is_present l.linked ∙ is_present_link (f * 4096) (omega arith) low;
        kept = l.kept;
      },
      ap is_huge l.linked ∙ is_huge_link (f * 4096) (omega arith) low,
    )
