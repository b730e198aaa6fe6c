-- ===== src/Memory/Paging.antt =====
-- kernel/src/memory/paging.c: the page tables, over the physical memory manager. A table is named by
-- the virtual address of its page in the higher half direct map; tables are pages, so two of them
-- share an entry only if they are the same. A fault of the memory manager is `none`.
pub mod Entry
pub mod Fields
pub mod Indices
pub mod Frames
pub mod Owned
pub mod Tables
pub mod Descend
pub mod Pages
pub mod Walk
pub mod Beside
pub mod Map
pub mod Through
pub mod Resolve
pub mod Full
pub mod Taken
pub mod MapResolve
pub mod Unmap
pub mod RoundTrip
pub mod Clone
pub mod Dump
use j_oe_s.Base.{
  ℕ, zero, suc, ◌+◌, ◌*◌, ◌^◌, Bool, true, false, ◌&&◌, Option, none, some, List, ◌∷◌, ltb, ◌==◌,
  if◌then◌else◌, add64, sub64,
}
use j_oe_s.Memory.Pmm
use j_oe_s.Memory.Pmm.{Pmm}
use j_oe_s.Memory.Paging.Entry.{
  Level, pml4, pdpr, pd, pt, EntryType, pointer, page, PageSize, size_4kb, size_2mb, size_1gb,
  is_present, is_large, without_present, base_4kb, base_2mb, base_1gb, flag_present, flag_writable,
  create_entry, get_flags_from_entry, pml4_idx, pdpr_idx, pd_idx, pt_idx,
  get_virt_address_from_indices,
}

-- `paging_error_codes_t`
pub data PagingStatus : Type 0 where
  paging_ok paging_error : PagingStatus

abbrev pub num_entries : ℕ
num_entries = 512

-- The memory that paging.c reads and writes: the entries of the table at a pointer, the state of the
-- memory manager, `g_hhdm_offset`, and the operands of the `invlpg` instructions, newest first.
pub record Paging : Type 0 where
  pub entries : ℕ → ℕ → ℕ
  pub pmm : Pmm
  pub hhdm_offset : ℕ
  pub invalidated : List ℕ

-- `table[idx] = raw`
abbrev pub write_entry : Paging → ℕ → ℕ → ℕ → Paging
write_entry s table idx raw = record s {
  entries = λ t i. if t == table && i == idx then raw else s.entries t i;
}

-- `memset(table, 0, 0x1000)`
abbrev pub clear_table : Paging → ℕ → Paging
clear_table s table = record s {
  entries = λ t i. if t == table && ltb i num_entries then 0 else s.entries t i;
}

-- The table that an entry points to.
abbrev pub table_at : Paging → ℕ → ℕ
table_at s raw = add64 (base_4kb raw) s.hhdm_offset

-- The next table on the way of a mapping: `some none` is the return of PAGING_ERROR where it cannot
-- be allocated.
unfoldable pub descend : Paging → ℕ → ℕ → Level → Option (Option ℕ × Paging)
descend s table idx level = elim (is_present (s.entries table idx)) [
  | true ↦ some (some (table_at s (s.entries table idx)), s)
  | false ↦ elim (Pmm.alloc s.pmm) [
    | none ↦ none
    | some (phys, pmm') ↦
        let next = add64 phys s.hhdm_offset in
        let s' = record s { pmm = pmm' } in
        elim (next == 0) [
          | true ↦ some (none, s')
          | false ↦
              let entry =
                create_entry (sub64 next s.hhdm_offset) (flag_present + flag_writable) level
                  pointer in
              some (some next, write_entry (clear_table s' next) table idx entry)
        ]
  ]
]

-- The last step of a mapping.
unfoldable pub map_leaf : Paging → ℕ → ℕ → Level → ℕ → ℕ → Option (PagingStatus × Paging)
map_leaf s table idx level phys flags =
    if is_present (s.entries table idx)
    then some (paging_error, s)
    else some (paging_ok, write_entry s table idx (create_entry phys flags level page))

-- What follows a `descend`.
abbrev pub then_table :
    Option (Option ℕ × Paging)
    → (ℕ → Paging → Option (PagingStatus × Paging))
    → Option (PagingStatus × Paging)
then_table none next = none
then_table (some (none, s)) next = some (paging_error, s)
then_table (some (some table, s)) next = next table s

unfoldable pub map_in_pt : ℕ → ℕ → ℕ → ℕ → Paging → Option (PagingStatus × Paging)
map_in_pt phys virt flags table s = map_leaf s table (pt_idx virt) pt phys flags

unfoldable pub map_in_pd : ℕ → ℕ → PageSize → ℕ → ℕ → Paging → Option (PagingStatus × Paging)
map_in_pd phys virt size_2mb flags table s = map_leaf s table (pd_idx virt) pd phys flags
map_in_pd phys virt _ flags table s =
    then_table (descend s table (pd_idx virt) pd) (map_in_pt phys virt flags)

unfoldable pub map_in_pdpr : ℕ → ℕ → PageSize → ℕ → ℕ → Paging → Option (PagingStatus × Paging)
map_in_pdpr phys virt size_1gb flags table s = map_leaf s table (pdpr_idx virt) pdpr phys flags
map_in_pdpr phys virt page_size flags table s =
    then_table (descend s table (pdpr_idx virt) pdpr) (map_in_pd phys virt page_size flags)

-- `paging_map_page_without_tlb_invalidation`
unfoldable pub map_page_without_tlb_invalidation :
    Paging → ℕ → ℕ → ℕ → PageSize → ℕ → Option (PagingStatus × Paging)
map_page_without_tlb_invalidation s root phys virt page_size flags =
    then_table (descend s root (pml4_idx virt) pml4) (map_in_pdpr phys virt page_size flags)

abbrev pub invalidate_tlb : ℕ → Paging → Paging
invalidate_tlb virt s = record s { invalidated = virt ∷ s.invalidated }

-- `paging_map_page`
unfoldable pub map_page : Paging → ℕ → ℕ → ℕ → PageSize → ℕ → Option (PagingStatus × Paging)
map_page s root phys virt page_size flags =
    elim (map_page_without_tlb_invalidation s root phys virt page_size flags) [
      | none ↦ none
      | some (paging_error, s') ↦ some (paging_error, s')
      | some (paging_ok, s') ↦ some (paging_ok, invalidate_tlb virt s')
    ]

unfoldable pub resolve_in_pt : Paging → ℕ → ℕ → ℕ
resolve_in_pt s virt table =
    let raw = s.entries table (pt_idx virt) in if is_present raw then base_4kb raw else 0

unfoldable pub resolve_in_pd : Paging → ℕ → ℕ → ℕ
resolve_in_pd s virt table =
    let raw = s.entries table (pd_idx virt) in
    if is_present raw
    then if is_large raw then base_2mb raw else resolve_in_pt s virt (table_at s raw)
    else 0

unfoldable pub resolve_in_pdpr : Paging → ℕ → ℕ → ℕ
resolve_in_pdpr s virt table =
    let raw = s.entries table (pdpr_idx virt) in
    if is_present raw
    then if is_large raw then base_1gb raw else resolve_in_pd s virt (table_at s raw)
    else 0

-- `paging_resolve_virtual_address`; 0 is NULL.
unfoldable pub resolve_virtual_address : Paging → ℕ → ℕ → ℕ
resolve_virtual_address s root virt =
    let raw = s.entries root (pml4_idx virt) in
    if is_present raw then resolve_in_pdpr s virt (table_at s raw) else 0
