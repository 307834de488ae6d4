-- ===== src/Mm/Paging/Make.antt =====
-- Tables that are made on the way down (`ensure_table`, `split_page`).
use Prim.Native.Nat.{bit_or}
use elitra_os.Base.{
  ℕ, suc, ◌+◌, ◌-◌, ◌*◌, ◌/◌, ◌%◌, ◌<◌, ◌≡◌, ◌≢◌, ◌∙◌, inl, inr, refl, ap, true, false, ◌&&◌, some,
  arith, ◌==◌, if◌then◌else◌, Bool-cases, Option-cases,
}
use elitra_os.Mm.Pmm.{bitmap_test, pmm_alloc_frame}
use elitra_os.Mm.Pmm.Alloc.{Grants, pmm_alloc_frame-Grants}
use elitra_os.Mm.Paging.{
  Mmu, is_present, is_huge, address_of, entry_at, put_entry, in_page, table_alloc, ensure_table,
  split_page, split_flags,
}
use elitra_os.Mm.Paging.Levels.{IsLevelled, with_table, Links, Opens, Links-Opens}

-- the frame behind a new table
record Made (s : Mmu) (nt f : ℕ) : Type 0 where
  asked : (pmm_alloc_frame s.pmm).1 ≡ some f
  place : nt ≡ f * 4096
  pmm : (table_alloc s).0.pmm ≡ (pmm_alloc_frame s.pmm).0
  words : (a : ℕ) → (table_alloc s).0.words a ≡ (if in_page (f * 4096) a then 0 else s.words a)

table_alloc-Made : (s : Mmu) (nt : ℕ) → (table_alloc s).1 ≡ some nt → (f : ℕ) × Made s nt f
unfolding table_alloc
table_alloc-Made s nt e = elim (Option-cases (pmm_alloc_frame s.pmm).1) [
  | inl none_left ↦ absurd (ground (arith, none_left, e))
  | inr (f, got) ↦ (
    f,
    record {
      asked = got;
      place = ground (arith, got, e);
      pmm = ground (arith, got);
      words = λ a. ground (arith, got);
    },
  )
]

module _ (s : Mmu) (level : ℕ → ℕ) (t i k nt f : ℕ) (v : IsLevelled s level)
    (parent : level t ≡ suc (suc k)) (place : i < 512) (made : Made s nt f) where
  granted : Grants s.pmm f (table_alloc s).0.pmm
  granted = rw (made.pmm) (pmm_alloc_frame-Grants s.pmm f v.sound made.asked)

  -- no entry of a table is in the new page
  outside : (u j : ℕ) → level u ≢ 0 → j < 512 → in_page (f * 4096) (entry_at u j) ≡ false
  outside u j n b =
      let a = v.aligned u n in
      let in_use = v.used u n in
      let ne : u ≢ f * 4096 = λ e.
        let here : u / 4096 ≡ f = omega (arith, e) in
        absurd (ground (arith, ap (bitmap_test s.pmm) here, in_use, granted.was_free)) in
      ground (arith, a, b, ne)

  old_words :
      (u j : ℕ)
      → level u ≢ 0
      → j < 512
      → (table_alloc s).0.words (entry_at u j) ≡ s.words (entry_at u j)
  old_words u j n b = made.words (entry_at u j) ∙ ground (arith, outside u j n b)

  blank_words :
      (j : ℕ) → j < 512 → is_present ((table_alloc s).0.words (entry_at (f * 4096) j)) ≡ false
  unfolding is_present
  blank_words j b =
      let zeroed : (table_alloc s).0.words (entry_at (f * 4096) j) ≡ 0 =
        made.words (entry_at (f * 4096) j) ∙ ground (arith, b) in
      ground (arith, zeroed)

  -- the new table hung on its entry; what the page holds matters above the last level only
  hung : (ℕ → ℕ) → Mmu
  hung content = record (table_alloc s).0 { words = put_entry content (entry_at t i) (nt + 3) }

  hung-Links :
      (content : ℕ → ℕ)
      → ((u j : ℕ) → level u ≢ 0 → j < 512 → content (entry_at u j) ≡ s.words (entry_at u j))
      → ((j n : ℕ) → k ≡ suc n → j < 512 → is_present (content (entry_at (f * 4096) j)) ≡ false)
      → Links s (hung content) level t i f k
  unfolding hung
  hung-Links content same blank =
      let t0 : level t ≢ 0 = λ e. ground (arith, parent, e) in
      record {
        grants = granted;
        parent = parent;
        place = place;
        linked = ground (arith, made.place);
        kept = λ u j n b ne.
            let old : put_entry content (entry_at t i) (nt + 3) (entry_at u j)
                ≡ content (entry_at u j) =
              ground (arith, ne) in
            old ∙ same u j n b;
        empty = λ j n e b.
            let off = outside t i t0 place in
            let ne : entry_at (f * 4096) j ≢ entry_at t i = λ g. ground (arith, off, g, b) in
            let old : put_entry content (entry_at t i) (nt + 3) (entry_at (f * 4096) j)
                ≡ content (entry_at (f * 4096) j) =
              ground (arith, ne) in
            ap is_present old ∙ blank j n e b;
      }

-- An entry that `ensure_table` leaves has a table below it, or a page of 2 MB.
pub ensure_table-Opens :
    (s : Mmu) (level : ℕ → ℕ) (t i k : ℕ)
    → IsLevelled s level
    → level t ≡ suc (suc k)
    → i < 512
    → (ensure_table s (entry_at t i)).1 ≡ true
    → (level' : ℕ → ℕ) × Opens s (ensure_table s (entry_at t i)).0 level level' t i k
unfolding ensure_table hung
ensure_table-Opens s level t i k v parent place ok =
    elim (Bool-cases (is_present (s.words (entry_at t i)))) [
      | inl here ↦ (
        level,
        rw here (record {
          levelled = v;
          extends = λ u n. refl;
          present = here;
          kept = λ u j n b ne. refl;
        }),
      )
      | inr missing ↦ elim (Option-cases (table_alloc s).1) [
        | inl none_left ↦ absurd (ground (arith, missing, none_left, ok))
        | inr (nt, got) ↦
            let (f, made) = table_alloc-Made s nt got in
            let links =
              hung-Links s level t i k nt f v parent place made (table_alloc s).0.words
                (old_words s level t i k nt f v parent place made)
                (λ j n e b. blank_words s level t i k nt f v parent place made j b) in
            (
              with_table level (f * 4096) (suc k),
              rw (missing, got) (Links-Opens s _ level t i f k v links).0,
            )
      ]
    ]

-- An entry of the third level that `split_page` leaves has a table below it.
pub split_page-Opens :
    (s : Mmu) (level : ℕ → ℕ) (t i : ℕ)
    → IsLevelled s level
    → level t ≡ 2
    → i < 512
    → is_present (s.words (entry_at t i)) ≡ true
    → (split_page s (entry_at t i)).1 ≡ true
    → (level' : ℕ → ℕ) × Opens s (split_page s (entry_at t i)).0 level level' t i 0
      × (is_huge ((split_page s (entry_at t i)).0.words (entry_at t i)) ≡ false)
unfolding split_page hung
split_page-Opens s level t i v parent place here ok =
    elim (Bool-cases (is_huge (s.words (entry_at t i)))) [
      | inr flat ↦ (
        level,
        rw flat (record {
          levelled = v;
          extends = λ u n. refl;
          present = here;
          kept = λ u j n b ne. refl;
        }),
        rw flat flat,
      )
      | inl large ↦ elim (Option-cases (table_alloc s).1) [
        | inl none_left ↦ absurd (ground (arith, large, none_left, ok))
        | inr (nt, got) ↦
            let (f, made) = table_alloc-Made s nt got in
            let e = s.words (entry_at t i) in
            let filled : ℕ → ℕ = λ a.
              if in_page nt a && a % 8 == 0
              then bit_or (bit_or (address_of e + (a - nt) / 8 * 4096) (split_flags e)) 1
              else (table_alloc s).0.words a in
            let links =
              hung-Links s level t i 0 nt f v parent place made filled
                (λ u j n b.
                  let off : in_page nt (entry_at u j) ≡ false =
                    ap (λ p. in_page p (entry_at u j)) made.place
                    ∙ outside s level t i 0 nt f v parent place made u j n b in
                  rw off (old_words s level t i 0 nt f v parent place made u j n b))
                (λ j n z b. absurd (ground (arith, z))) in
            let (opens, flat) =
              Links-Opens s (hung s level t i 0 nt f v parent place made filled) level t i f 0 v
                links in
            (with_table level (f * 4096) 1, rw (large, got) opens, rw (large, got) flat)
      ]
    ]
