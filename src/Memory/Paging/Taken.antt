-- ===== src/Memory/Paging/Taken.antt =====
-- `paging_map_page` where a page is mapped already.
use j_oe_s.Base.{ℕ, ◌≡◌, ◌∙◌, ap, true, Option, some, refl}
use j_oe_s.Memory.Paging.{
  Paging, paging_error, table_at, descend, map_leaf, then_table, PagingStatus, map_in_pt, map_in_pd,
  map_in_pdpr, map_page_without_tlb_invalidation, map_page,
}
use j_oe_s.Memory.Paging.Entry.{
  Level, pml4, pdpr, pd, pt, PageSize, size_4kb, size_2mb, size_1gb, is_present, pml4_idx, pdpr_idx,
  pd_idx, pt_idx,
}
use j_oe_s.Memory.Paging.Pages.{Reaches}

-- The table that the page tables of an address have at each level, and the entry of its page.
abbrev pdpr_of : Paging → ℕ → ℕ → ℕ
pdpr_of s root virt = table_at s (s.entries root (pml4_idx virt))

abbrev pd_of : Paging → ℕ → ℕ → ℕ
pd_of s root virt = table_at s (s.entries (pdpr_of s root virt) (pdpr_idx virt))

abbrev pt_of : Paging → ℕ → ℕ → ℕ
pt_of s root virt = table_at s (s.entries (pd_of s root virt) (pd_idx virt))

abbrev pub page_entry : Paging → ℕ → ℕ → PageSize → ℕ
page_entry s root virt size_1gb = s.entries (pdpr_of s root virt) (pdpr_idx virt)
page_entry s root virt size_2mb = s.entries (pd_of s root virt) (pd_idx virt)
page_entry s root virt size_4kb = s.entries (pt_of s root virt) (pt_idx virt)

-- A step down through a present entry, and what comes of the steps below.
through :
    (s : Paging) (table idx : ℕ) (level : Level)
    (step : ℕ → Paging → Option (PagingStatus × Paging))
    → is_present (s.entries table idx) ≡ true
    → step (table_at s (s.entries table idx)) s ≡ some (paging_error, s)
    → then_table (descend s table idx level) step ≡ some (paging_error, s)
unfolding descend
through s table idx level step there below =
    let e : descend s table idx level ≡ some (some (table_at s (s.entries table idx)), s) =
      rw (there, descend) refl in
    ap (λ o. then_table o step) e ∙ below

leaf_taken :
    (s : Paging) (table idx phys flags : ℕ) (level : Level)
    → is_present (s.entries table idx) ≡ true
    → map_leaf s table idx level phys flags ≡ some (paging_error, s)
unfolding map_leaf
leaf_taken s table idx phys flags level taken = rw (taken, map_leaf) refl

without_invalidation :
    (s : Paging) (root phys virt flags : ℕ) (size : PageSize)
    → Reaches s virt size root
    → is_present (page_entry s root virt size) ≡ true
    → map_page_without_tlb_invalidation s root phys virt size flags ≡ some (paging_error, s)
unfolding map_page_without_tlb_invalidation map_in_pdpr map_in_pd map_in_pt
without_invalidation s root phys virt flags size_1gb (at4, at3) taken =
    through s root (pml4_idx virt) pml4 _ at4 (leaf_taken s _ (pdpr_idx virt) phys flags pdpr taken)
without_invalidation s root phys virt flags size_2mb (at4, (at3, small3, at2)) taken =
    through s root (pml4_idx virt) pml4 _ at4
      (through s _ (pdpr_idx virt) pdpr _ at3 (leaf_taken s _ (pd_idx virt) phys flags pd taken))
without_invalidation s root phys virt flags size_4kb (at4, (at3, small3, (at2, small2))) taken =
    through s root (pml4_idx virt) pml4 _ at4 (
      through s _ (pdpr_idx virt) pdpr _ at3
        (through s _ (pd_idx virt) pd _ at2 (leaf_taken s _ (pt_idx virt) phys flags pt taken)))

-- Where the tables on the way to a page of the size exist, no larger page is on it, and the page's
-- entry is present, `paging_map_page` returns PAGING_ERROR and changes nothing: neither the tables nor
-- the memory manager, and the TLB entry is not invalidated.
pub map_page_taken :
    (s : Paging) (root phys virt flags : ℕ) (size : PageSize)
    → Reaches s virt size root
    → is_present (page_entry s root virt size) ≡ true
    → map_page s root phys virt size flags ≡ some (paging_error, s)
unfolding map_page
map_page_taken s root phys virt flags size way taken =
    rw (without_invalidation s root phys virt flags size way taken, map_page) refl
