-- ===== src/Mm/Paging/Resolve.antt =====
-- A page that is written while it is shared (`cow_resolve_page`).
use elitra_os.Base.{
  ℕ, ◌+◌, ◌-◌, ◌*◌, ◌/◌, ◌%◌, ◌≤◌, ◌<◌, ◌≡◌, ◌≢◌, ◌∙◌, inl, inr, refl, ap, sym, subst, true, false,
  some, arith, ◌==◌, Bool-cases, Option-cases,
}
use elitra_os.Mm.Pmm.{Pmm, bitmap_test, pmm_alloc_frame}
use elitra_os.Mm.Pmm.Alloc.{Grants, pmm_alloc_frame-Grants}
use elitra_os.Mm.Cow.{Cow, cow_refdec}
use elitra_os.Mm.Paging.{
  Mmu, is_present, is_cow, address_of, flags_of, entry_at, put_entry, in_page, pt_i, Leaf, walk,
  get_phys, owned_entry, copy_page, copy_shared, resolve_entry, cow_resolve_page,
}
use elitra_os.Mm.Paging.Entry.{entry_at-inj}
use elitra_os.Mm.Paging.Levels.{IsLevelled}
use elitra_os.Mm.Paging.Unmap.{put_entry-above, walk-kept}

-- the bits of an entry that may be written
pub record IsOwn (e page : ℕ) : Type 0 where
  pub present : is_present e ≡ true
  pub writable : e / 2 % 2 ≡ 1
  pub alone : is_cow e ≡ false
  pub place : address_of e ≡ page

owned_entry-IsOwn : (e : ℕ) → IsOwn (owned_entry e) (address_of e)
unfolding owned_entry is_present is_cow address_of flags_of
owned_entry-IsOwn e = record {
  present = ground arith;
  writable = omega arith;
  alone = let off : owned_entry e / 512 % 2 ≡ 0 = omega arith in ground (arith, off);
  place = omega arith;
}

fresh_entry-IsOwn : (p : ℕ) → p % 4096 ≡ 0 → p < 4503599627370496 → IsOwn (address_of p + 7) p
unfolding is_present is_cow address_of
fresh_entry-IsOwn p a l = record {
  present = ground (arith, a, l);
  writable = omega (arith, a, l);
  alone = let off : (address_of p + 7) / 512 % 2 ≡ 0 = omega (arith, a, l) in ground (arith, off);
  place = omega (arith, a, l);
}

-- Afterwards the page may be written, has the same contents, and the address leads to it.
pub record Owns (s s' : Mmu) (pml4 addr at page : ℕ) : Type 0 where
  pub new_page : ℕ
  pub own : IsOwn (s'.words at) new_page
  pub translated : get_phys s' pml4 addr ≡ some (new_page + addr % 4096)
  pub contents : (a : ℕ) → a < 4096 → s'.words (new_page + a) ≡ s.words (page + a)

get_phys-own :
    (s : Mmu) (pml4 addr t page : ℕ)
    → walk s pml4 addr ≡ Leaf.table t
    → IsOwn (s.words (entry_at t (pt_i addr))) page
    → get_phys s pml4 addr ≡ some (page + addr % 4096)
unfolding get_phys
get_phys-own s pml4 addr t page e o = rw (get_phys, e, o.present, o.place) refl

address_of-aligned : (e : ℕ) → address_of e % 4096 ≡ 0
unfolding address_of
address_of-aligned e = omega arith

-- an address of another page than the table's is none of its entries
not_entry :
    (t i page a : ℕ)
    → t % 4096 ≡ 0
    → page % 4096 ≡ 0
    → t ≢ page
    → i < 512
    → a < 4096
    → page + a ≢ entry_at t i
not_entry t i page a x y n b c e = n (omega (arith, x, y, b, c, e))

module _ (s : Mmu) (level : ℕ → ℕ) (pml4 addr t : ℕ) (v : IsLevelled s level) (h : level pml4 ≡ 4)
    (found : walk s pml4 addr ≡ Leaf.table t)
    (apart : level (address_of (s.words (entry_at t (pt_i addr)))) ≡ 0) where
  at : ℕ
  at = entry_at t (pt_i addr)

  page : ℕ
  page = address_of (s.words at)

  l1 : level t ≡ 1
  l1 = (walk-kept s pml4 addr level v h s t found (λ u j l b. refl)).1

  t0 : level t ≢ 0
  t0 e = ground (arith, l1, e)

  t_not_page : t ≢ page
  unfolding page at
  t_not_page e = t0 (ap level e ∙ apart)

  -- the entry of a page that nobody else has
  Owns-owned :
      (cow : Cow)
      → Owns s
          (record s { cow = cow; words = put_entry s.words at (owned_entry (s.words at)) })
          pml4
          addr
          at
          page
  unfolding at page
  Owns-owned cow =
      let s' : Mmu = record s {
        cow = cow;
        words = put_entry s.words at (owned_entry (s.words at));
      } in
      let here : s'.words at ≡ owned_entry (s.words at) = ground arith in
      let own : IsOwn (s'.words at) page = rw here (owned_entry-IsOwn (s.words at)) in
      let again =
        (walk-kept s pml4 addr level v h s' t found (λ u j l b.
          put_entry-above s level t (pt_i addr) u j (owned_entry (s.words at)) v t0
            (ground (arith, l1, l)) (omega arith) b)).0 in
      record {
        new_page = page;
        own = own;
        translated = get_phys-own s' pml4 addr t page again own;
        contents = λ a b.
            let ne =
              not_entry t (pt_i addr) page a (v.aligned t t0) (address_of-aligned (s.words at))
                t_not_page (omega arith) b in
            ground (arith, ne);
      }

  -- the page copied into a frame that was free
  module _ (cow : Cow) (pmm' : Pmm) (f : ℕ) (g : Grants s.pmm f pmm') where
    copied : Mmu
    copied = record s {
      cow = cow;
      pmm = pmm';
      words = put_entry (copy_page s.words (f * 4096) page) at (address_of (f * 4096) + 7);
    }

    table_apart : (u : ℕ) → level u ≢ 0 → u ≢ f * 4096
    table_apart u n e =
        let here : u / 4096 ≡ f = omega (arith, e) in
        absurd (ground (arith, ap (bitmap_test s.pmm) here, v.used u n, g.was_free))

    copy_kept :
        (u j : ℕ)
        → level u ≢ 0
        → j < 512
        → copy_page s.words (f * 4096) page (entry_at u j) ≡ s.words (entry_at u j)
    unfolding copy_page
    copy_kept u j n b =
        let a = v.aligned u n in
        let ne = table_apart u n in
        let off : in_page (f * 4096) (entry_at u j) ≡ false = ground (arith, a, b, ne) in
        ground (arith, off)

    copied_above :
        (u j : ℕ) → 2 ≤ level u → j < 512 → copied.words (entry_at u j) ≡ s.words (entry_at u j)
    unfolding copied at
    copied_above u j l b =
        let u0 : level u ≢ 0 = λ e. ground (arith, l, e) in
        let ne : entry_at u j ≢ entry_at t (pt_i addr) = λ e.
          let (ut, ij) =
            entry_at-inj u t j (pt_i addr) (v.aligned u u0) (v.aligned t t0) b (omega arith) e in
          absurd (ground (arith, ap level ut, l1, l)) in
        let old : copied.words (entry_at u j) ≡ copy_page s.words (f * 4096) page (entry_at u j) =
          ground (arith, ne) in
        old ∙ copy_kept u j u0 b

    copy_word :
        (a : ℕ) → a < 4096 → copy_page s.words (f * 4096) page (f * 4096 + a) ≡ s.words (page + a)
    unfolding copy_page
    copy_word a b =
        let offset : f * 4096 + a - f * 4096 ≡ a = omega arith in rw offset (ground (arith, b))

    Owns-copied : f * 4096 < 4503599627370496 → Owns s copied pml4 addr at page
    unfolding copied at
    Owns-copied low =
        let here : copied.words at ≡ address_of (f * 4096) + 7 = ground arith in
        let own : IsOwn (copied.words at) (f * 4096) =
          rw here (fresh_entry-IsOwn (f * 4096) (omega arith) low) in
        let again = (walk-kept s pml4 addr level v h copied t found copied_above).0 in
        record {
          new_page = f * 4096;
          own = own;
          translated = get_phys-own copied pml4 addr t (f * 4096) again own;
          contents = λ a b.
              let ne =
                not_entry t (pt_i addr) (f * 4096) a (v.aligned t t0) (omega arith)
                  (table_apart t t0) (omega arith) b in
              let old : copied.words (f * 4096 + a)
                  ≡ copy_page s.words (f * 4096) page (f * 4096 + a) =
                ground (arith, ne) in
              old ∙ copy_word a b;
        }

cow_resolve_page-entry :
    (s : Mmu) (pml4 addr t : ℕ)
    → walk s pml4 addr ≡ Leaf.table t
    → cow_resolve_page s pml4 addr ≡ resolve_entry s (entry_at t (pt_i addr))
unfolding cow_resolve_page
cow_resolve_page-entry s pml4 addr t e = rw (cow_resolve_page, e) refl

-- the count of the page after this reference was given back
counted : Mmu → ℕ → Cow
counted s at = (cow_refdec s.cow (address_of (s.words at) / 4096 % 4294967296)).0

resolve_entry-owned :
    (s : Mmu) (at : ℕ)
    → (resolve_entry s at).1 ≡ true
    → (cow_refdec s.cow (address_of (s.words at) / 4096 % 4294967296)).1 ≡ 0
    → (resolve_entry s at).0
      ≡ record s { cow = counted s at; words = put_entry s.words at (owned_entry (s.words at)) }
unfolding resolve_entry counted
resolve_entry-owned s at ok e = ground (arith, ok, e)

resolve_entry-shared :
    (s : Mmu) (at : ℕ)
    → (resolve_entry s at).1 ≡ true
    → (cow_refdec s.cow (address_of (s.words at) / 4096 % 4294967296)).1 ≢ 0
    → resolve_entry s at
      ≡ copy_shared (record s { cow = counted s at }) at (address_of (s.words at))
unfolding resolve_entry counted
resolve_entry-shared s at ok e = ground (arith, ok, e)

copy_shared-frame :
    (s : Mmu) (at page : ℕ)
    → (copy_shared s at page).1 ≡ true
    → (f : ℕ) × ((pmm_alloc_frame s.pmm).1 ≡ some f)
      × ((copy_shared s at page).0 ≡ record s {
        pmm = (pmm_alloc_frame s.pmm).0;
        words = put_entry (copy_page s.words (f * 4096) page) at (address_of (f * 4096) + 7);
      })
unfolding copy_shared
copy_shared-frame s at page ok = elim (Option-cases (pmm_alloc_frame s.pmm).1) [
  | inl none_left ↦ absurd (ground (arith, none_left, ok))
  | inr (f, got) ↦ (f, got, ground (arith, got))
]

-- With tables on four levels, where the walk ends in a table of the last level and the page of the
-- entry is no table: where the page is resolved, its entry is then present, may be written and is
-- not marked as shared; the address leads to the page of the entry, and this has the contents of
-- the page before.
pub cow_resolve_page-Owns :
    (s : Mmu) (level : ℕ → ℕ) (pml4 addr t : ℕ)
    → IsLevelled s level
    → level pml4 ≡ 4
    → walk s pml4 addr ≡ Leaf.table t
    → level (address_of (s.words (entry_at t (pt_i addr)))) ≡ 0
    → (cow_resolve_page s pml4 addr).1 ≡ true
    → Owns s
        (cow_resolve_page s pml4 addr).0
        pml4
        addr
        (entry_at t (pt_i addr))
        (address_of (s.words (entry_at t (pt_i addr))))
unfolding at page copied
cow_resolve_page-Owns s level pml4 addr t v h found apart ok =
    let at = entry_at t (pt_i addr) in
    let page = address_of (s.words at) in
    let refs = (cow_refdec s.cow (page / 4096 % 4294967296)).1 in
    let entry = cow_resolve_page-entry s pml4 addr t found in
    let ok' : (resolve_entry s at).1 ≡ true = ap (λ r. r.1) (sym entry) ∙ ok in
    let Result : Mmu → Type 0 = λ x. Owns s x pml4 addr at page in
    subst (λ r. Result r.0) (sym entry)
      (elim (Bool-cases (refs == 0)) [
        | inl e ↦
            subst Result (sym (resolve_entry-owned s at ok' (ground (arith, e))))
              (Owns-owned s level pml4 addr t v h found apart (counted s at))
        | inr e ↦
            let shared = resolve_entry-shared s at ok' (λ z. ground (arith, e, z)) in
            let done : (copy_shared (record s { cow = counted s at }) at page).1 ≡ true =
              ap (λ r. r.1) (sym shared) ∙ ok' in
            let (f, got, result) =
              copy_shared-frame (record s { cow = counted s at }) at page done in
            let grants = pmm_alloc_frame-Grants s.pmm f v.sound got in
            let low : f * 4096 < 4503599627370496 = omega (arith, grants.in_range, v.small) in
            subst Result (sym (ap (λ r. r.0) shared ∙ result)) (
              Owns-copied s level pml4 addr t v h found apart (counted s at)
                (pmm_alloc_frame s.pmm).0 f grants low)
      ])
