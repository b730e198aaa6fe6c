-- ===== src/Memory/Paging/Unmap.antt =====
-- kernel/src/memory/paging.c: `paging_unmap_page` and the removal of empty tables. The result of
-- `pmm_free` is ignored there.
pub mod Clear
pub mod Empty
pub mod Page
pub mod Prune
pub mod Outcome
use j_oe_s.Base.{
  ℕ, zero, suc, Bool, true, false, ◌&&◌, not, Option, none, some, sub64, if◌then◌else◌,
}
use j_oe_s.Memory.Pmm
use j_oe_s.Memory.Paging.{
  Paging, PagingStatus, paging_ok, paging_error, write_entry, table_at, num_entries, invalidate_tlb,
}
use j_oe_s.Memory.Paging.Entry.{
  PageSize, size_4kb, size_2mb, size_1gb, is_present, without_present, pml4_idx, pdpr_idx, pd_idx,
  pt_idx,
}

-- The loop of `paging_check_for_empty_table`, over the first `n` entries.
unfoldable pub table_empty : ℕ → (ℕ → ℕ) → Bool
table_empty zero entries = true
table_empty (suc n) entries = not (is_present (entries n)) && table_empty n entries

abbrev pub clear_present : Paging → ℕ → ℕ → Paging
clear_present s table idx = write_entry s table idx (without_present (s.entries table idx))

-- `paging_check_for_empty_table`
unfoldable pub check_for_empty_table : ℕ → ℕ → ℕ → Paging → Option Paging
check_for_empty_table table parent_table idx_in_parent_table s =
    elim (table_empty num_entries (s.entries table)) [
      | false ↦ some s
      | true ↦
          let s' = clear_present s parent_table idx_in_parent_table in
          elim (Pmm.free s'.pmm (sub64 table s'.hhdm_offset)) [
            | none ↦ none
            | some (status, pmm') ↦ some (record s' { pmm = pmm' })
          ]
    ]

abbrev pub and_then : Option Paging → (Paging → Option Paging) → Option Paging
and_then none next = none
and_then (some s) next = next s

abbrev pub finish : ℕ → Option Paging → Option (PagingStatus × Paging)
finish virt none = none
finish virt (some s) = some (paging_ok, invalidate_tlb virt s)

-- `paging_unmap_page`
unfoldable pub unmap_page : Paging → ℕ → ℕ → PageSize → Option (PagingStatus × Paging)
unmap_page s root virt page_size =
    let pml4_entry = s.entries root (pml4_idx virt) in
    let pdpr = table_at s pml4_entry in
    let pdpr_entry = s.entries pdpr (pdpr_idx virt) in
    let pd = table_at s pdpr_entry in
    let pd_entry = s.entries pd (pd_idx virt) in
    let pt = table_at s pd_entry in
    let check_pdpr = check_for_empty_table pdpr root (pml4_idx virt) in
    let check_pd =
      λ (t : Paging). and_then (check_for_empty_table pd pdpr (pdpr_idx virt) t) check_pdpr in
    let check_pt =
      λ (t : Paging). and_then (check_for_empty_table pt pd (pd_idx virt) t) check_pd in
    elim (is_present pml4_entry && is_present pdpr_entry) [
      | false ↦ some (paging_error, s)
      | true ↦ elim page_size [
        | size_1gb ↦ finish virt (check_pdpr (clear_present s pdpr (pdpr_idx virt)))
        | size_2mb ↦
            if is_present pd_entry
            then finish virt (check_pd (clear_present s pd (pd_idx virt)))
            else some (paging_error, s)
        | size_4kb ↦
            if is_present pd_entry
            then finish virt (check_pt (clear_present s pt (pt_idx virt)))
            else some (paging_error, s)
      ]
    ]
